-- ===== src/Audit.antt =====
-- pkg/audit: the hash chain of audit entries (chain.go). SHA-256 and HMAC-SHA-256 are parameters;
-- a hash is a text of 32 bytes.
pub mod Encoding
pub mod Verifier
pub mod Tamper
pub mod Recorder
use agentic_operator_core.Base.{
  ℕ, zero, suc, ◌+◌, ◌*◌, ◌/◌, ◌%◌, ◌^◌, ◌≡◌, Bool, true, false, not, Option, none, some, List, [],
  ◌∷◌, ◌++◌, length, is_empty, ltb, if◌then◌else◌,
}
use agentic_operator_core.Base.Crypto.{Crypto}
use agentic_operator_core.Base.Text.{Text, txt, text_eq}

-- `Action`: a byte; the source declares 0 to 7.
unfoldable pub action_name : ℕ → Text
action_name (suc zero) = txt "llm_call"
action_name (suc (suc zero)) = txt "tool_call"
action_name (suc (suc (suc zero))) = txt "hitl_approve"
action_name (suc (suc (suc (suc zero)))) = txt "hitl_reject"
action_name (suc (suc (suc (suc (suc zero))))) = txt "manifest_emit"
action_name (suc (suc (suc (suc (suc (suc zero)))))) = txt "state_change"
action_name (suc (suc (suc (suc (suc (suc (suc zero))))))) = txt "replay"
action_name _ = txt "unknown"

pub record Entry : Type 0 where
  pub seq : ℕ  -- uint64
  pub timestamp : ℕ  -- uint64, Unix nanoseconds
  pub tenant_id : Text
  pub agent_workload : Text
  pub actor : Text
  pub action : ℕ  -- uint8
  pub subject_id : Text
  pub payload_canon : Text
  pub payload_sha256 : Text
  pub prev_hash : Text
  pub entry_hash : Text
  pub signer_kid : Text
  pub signature : Text

pub record ChainHasher : Type 0 where
  pub signer_kid : Text
  pub signing_key : Text

pub data KeyError : Type 0 where
  kid_required : KeyError
  key_too_short : ℕ → KeyError

pub data NewHasher : Type 0 where
  hasher : ChainHasher → NewHasher
  refused : KeyError → NewHasher

unfoldable pub new_chain_hasher : Text → Text → NewHasher
new_chain_hasher kid key =
    if is_empty kid
    then refused kid_required
    else if ltb (length key) 32
    then refused (key_too_short (length key))
    else hasher (record { signer_kid = kid; signing_key = key })

-- The value in `w` bytes, the lowest first.
unfoldable pub little_endian : ℕ → ℕ → Text
little_endian zero n = []
little_endian (suc w) n = n % 256 ∷ little_endian w (n / 256)

unfoldable pub write_lp : Text → Text
unfolding little_endian
write_lp b = little_endian 4 (length b % 4294967296) ++ b

-- What `computeEntryHash` writes to the hash.
unfoldable pub entry_bytes : Entry → Text
entry_bytes e =
    little_endian 8 e.seq
    ++ (little_endian 8 e.timestamp
        ++ (write_lp e.tenant_id
            ++ (write_lp e.agent_workload
                ++ (write_lp e.actor
                    ++ (e.action ∷ (write_lp e.subject_id ++ (e.payload_sha256 ++ e.prev_hash)))))))

abbrev pub zero_hash : Text
zero_hash =
    0 ∷ 0 ∷ 0 ∷ 0 ∷ 0 ∷ 0 ∷ 0 ∷ 0 ∷ 0 ∷ 0 ∷ 0 ∷ 0 ∷ 0 ∷ 0 ∷ 0 ∷ 0 ∷ 0 ∷ 0 ∷ 0 ∷ 0 ∷ 0 ∷ 0 ∷ 0 ∷ 0
    ∷ 0 ∷ 0 ∷ 0 ∷ 0 ∷ 0 ∷ 0 ∷ 0 ∷ 0 ∷ []

pub data VerifyError : Type 0 where
  prev_hash_mismatch payload_mismatch entry_hash_mismatch unknown_kid bad_signature : VerifyError

module _ (c : Crypto) where
  unfoldable pub compute_entry_hash : Entry → Text
  compute_entry_hash e = c.sha256 (entry_bytes e)

  unfoldable pub hash : ChainHasher → Entry → Entry
  unfolding compute_entry_hash
  hash h e =
      let psha = c.sha256 e.payload_canon in
      let e' = record e { payload_sha256 = psha; signer_kid = h.signer_kid } in
      let entry = compute_entry_hash e' in
      record e' { entry_hash = entry; signature = c.hmac h.signing_key entry }

  -- `none` is success.
  unfoldable pub verify : ChainHasher → Entry → Text → Option VerifyError
  unfolding compute_entry_hash
  verify h e expected =
      if not (text_eq e.prev_hash expected)
      then some prev_hash_mismatch
      else if not (text_eq e.payload_sha256 (c.sha256 e.payload_canon))
      then some payload_mismatch
      else if not (text_eq e.entry_hash (compute_entry_hash e))
      then some entry_hash_mismatch
      else if not (text_eq e.signer_kid h.signer_kid)
      then some unknown_kid
      else if not (text_eq (c.hmac h.signing_key e.entry_hash) e.signature)
      then some bad_signature
      else none
