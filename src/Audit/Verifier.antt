-- ===== src/Audit/Verifier.antt =====
-- pkg/audit/verifier.go: walking a ledger and comparing it with published checkpoints. `ctx.Err()`
-- at each round of the loop is a parameter.
pub mod Verified
use agentic_operator_core.Base.{
  ℕ, zero, suc, ◌+◌, ◌%◌, Bool, true, false, not, ◌&&◌, Option, none, some, List, [], ◌∷◌, ◌++◌,
  length, ◌==◌, if◌then◌else◌,
}
use agentic_operator_core.Base.Text.{Text, txt, text_eq}
use agentic_operator_core.Base.Crypto.{Crypto}
use agentic_operator_core.Audit.{Entry, ChainHasher, VerifyError, verify, zero_hash}

abbrev pub u64_mod : ℕ
u64_mod = 18446744073709551616

-- The map from key ids to hashers.
abbrev pub Verifier : Type 0
Verifier = List (Text × ChainHasher)

unfoldable pub find_hasher : Text → Verifier → Option ChainHasher
find_hasher kid [] = none
find_hasher kid ((k, h) ∷ v) =
    let rest = find_hasher kid v in if text_eq k kid then some h else rest

pub data NewVerifier : Type 0 where
  verifier : Verifier → NewVerifier
  no_hasher nil_hasher : NewVerifier
  duplicate_kid : Text → NewVerifier

-- The loop of `NewVerifier`; `none` is a nil hasher.
unfoldable pub add_hashers : Verifier → List (Option ChainHasher) → NewVerifier
unfolding find_hasher
add_hashers v [] = verifier v
add_hashers v (none ∷ hs) = nil_hasher
add_hashers v (some h ∷ hs) =
    let rest = add_hashers ((h.signer_kid, h) ∷ v) hs in
    elim (find_hasher h.signer_kid v) [ none ↦ rest | some _ ↦ duplicate_kid h.signer_kid ]

unfoldable pub new_verifier : List (Option ChainHasher) → NewVerifier
unfolding add_hashers
new_verifier [] = no_hasher
new_verifier (h ∷ hs) = add_hashers [] (h ∷ hs)

pub data WalkError : Type 0 where
  cancelled : Text → WalkError
  bad_seq unknown_signer : WalkError
  entry : VerifyError → WalkError
  checkpoint_missing checkpoint_mismatch : WalkError

pub record Report : Type 0 where
  pub total_entries : ℕ
  pub ok : ℕ
  pub first_error : Option WalkError
  pub first_error_seq : ℕ
  pub head_seq : ℕ
  pub head_entry_hash : Text
  pub head_signer_kid : Text
  pub checkpoints_ok : ℕ
  pub checkpoints_bad : ℕ

abbrev pub new_report : ℕ → Report
new_report n = record {
  total_entries = n;
  ok = 0;
  first_error = none;
  first_error_seq = 0;
  head_seq = 0;
  head_entry_hash = zero_hash;
  head_signer_kid = [];
  checkpoints_ok = 0;
  checkpoints_bad = 0;
}

unfoldable pub fail : Report → WalkError → ℕ → Report
fail r e seq = record r { first_error = some e; first_error_seq = seq }

unfoldable pub accept : Report → Entry → Report
accept r e = record r {
  ok = r.ok + 1;
  head_seq = e.seq;
  head_entry_hash = e.entry_hash;
  head_signer_kid = e.signer_kid;
}

pub record Checkpoint : Type 0 where
  pub seq : ℕ
  pub entry_hash : Text
  pub signer_kid : Text
  pub signature : Text
  pub published_to : Text

-- `bySeq`: the last entry with the sequence number.
unfoldable pub by_seq : List Entry → ℕ → Option Entry
by_seq [] n = none
by_seq (e ∷ es) n = elim (by_seq es n) [
  | some f ↦ some f
  | none ↦ if e.seq == n then some e else none
]

-- The first error stays.
bad_checkpoint : Report → WalkError → ℕ → Report
bad_checkpoint r e seq = elim r.first_error [
  | some _ ↦ record r { checkpoints_bad = r.checkpoints_bad + 1 }
  | none ↦ record r {
    checkpoints_bad = r.checkpoints_bad + 1;
    first_error = some e;
    first_error_seq = seq;
  }
]

check_one : Report → Checkpoint → Option Entry → Report
unfolding bad_checkpoint
check_one r cp none = bad_checkpoint r checkpoint_missing cp.seq
check_one r cp (some e) =
    if not (text_eq e.entry_hash cp.entry_hash)
    then bad_checkpoint r checkpoint_mismatch cp.seq
    else record r { checkpoints_ok = r.checkpoints_ok + 1 }

unfoldable pub verify_checkpoints : List Entry → List Checkpoint → Report → Report
unfolding check_one by_seq
verify_checkpoints es [] r = r
verify_checkpoints es (cp ∷ cps) r = verify_checkpoints es cps (check_one r cp (by_seq es cp.seq))

module _ (c : Crypto) (v : Verifier) where
  -- The checks of one round after the context's, by the hasher of the entry's key id.
  unfoldable pub check_entry : Entry → Text → Option WalkError
  check_entry e prev = elim (find_hasher e.signer_kid v) [
    | none ↦ some unknown_signer
    | some h ↦ elim (verify c h e prev) [ none ↦ none | some x ↦ some (entry x) ]
  ]

  unfoldable pub walk_from : (ℕ → Option Text) → ℕ → Text → Report → List Entry → Report
  unfolding check_entry fail accept
  walk_from ctx i prev r [] = r
  walk_from ctx i prev r (e ∷ es) =
      let rest = walk_from ctx (suc i) e.entry_hash (accept r e) es in
      elim (ctx i) [
        | some x ↦ record r { first_error = some (cancelled x) }
        | none ↦
            if not (e.seq == (i + 1) % u64_mod)
            then fail r bad_seq e.seq
            else elim (check_entry e prev) [ some x ↦ fail r x e.seq | none ↦ rest ]
      ]

  unfoldable pub walk : (ℕ → Option Text) → List Entry → Report
  unfolding walk_from
  walk ctx es = walk_from ctx 0 zero_hash (new_report (length es)) es
