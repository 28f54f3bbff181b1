-- ===== src/Scenarios/Ledgers.antt =====
-- Examples for the properties of the audit chain.
use agentic_operator_core.Base.{none, some, List, [], ◌∷◌, ◌≡◌, refl, ◌↔◌, ◌⊎◌, arith}
use agentic_operator_core.Base.Text.{txt, text_eq}
use agentic_operator_core.Base.Crypto.{Collision}
use agentic_operator_core.Base.Try.{ok}
use agentic_operator_core.Audit.{
  Entry, ChainHasher, hash, verify, zero_hash, compute_entry_hash, entry_bytes, write_lp,
  little_endian,
}
use agentic_operator_core.Audit.Encoding.{IsSized}
use agentic_operator_core.Audit.Verifier.{Verifier, walk, find_hasher}
use agentic_operator_core.Audit.Verifier.Verified.{Verified, walk_iff}
use agentic_operator_core.Audit.Tamper.{tamper_evident, SameLedger}
use agentic_operator_core.Audit.Recorder.{Recorder, new_recorder, memory_backend}
use agentic_operator_core.Audit.Recorder.Ledger.{append_all, append_all-walk, InStep}
use agentic_operator_core.Scenarios.{toy_crypto, zeros}

abbrev blank : Entry
blank = record {
  seq = 1;
  timestamp = 5;
  tenant_id = txt "t";
  agent_workload = txt "w";
  actor = txt "agent";
  action = 0;
  subject_id = txt "pod";
  payload_canon = txt "{}";
  payload_sha256 = [];
  prev_hash = zero_hash;
  entry_hash = [];
  signer_kid = [];
  signature = [];
}

abbrev signer : ChainHasher
signer = record { signer_kid = txt "k1"; signing_key = zeros 32 }

abbrev keys : Verifier
keys = (txt "k1", signer) ∷ []

abbrev first_entry : Entry
first_entry = hash toy_crypto signer blank

abbrev one_entry : List Entry
one_entry = first_entry ∷ []

sized : IsSized first_entry
unfolding hash
sized = record {
  seq = omega arith;
  timestamp = omega arith;
  tenant_id = omega arith;
  agent_workload = omega arith;
  actor = omega arith;
  subject_id = omega arith;
  payload_sha256 = refl;
  prev_hash = refl;
}

one_entry-walks : (walk toy_crypto keys (λ _. none) one_entry).first_error ≡ none
unfolding walk verify hash compute_entry_hash find_hasher text_eq entry_bytes little_endian write_lp
one_entry-walks = refl

tamper_evident_example : SameLedger one_entry one_entry ⊎ Collision toy_crypto.sha256
tamper_evident_example =
    tamper_evident toy_crypto keys keys one_entry one_entry (sized, tt) (sized, tt) one_entry-walks
      one_entry-walks refl refl

walk_iff_example :
    ((walk toy_crypto keys (λ _. none) one_entry).first_error ≡ none)
    ↔ Verified toy_crypto keys 0 zero_hash one_entry
walk_iff_example = walk_iff toy_crypto keys one_entry

known : find_hasher (txt "k1") keys ≡ some signer
unfolding find_hasher text_eq
known = refl

append_all-walk_example :
    (r : Recorder) × (r' : Recorder) × (es : List Entry) × (new_recorder memory_backend
        (some signer)
        []
        (txt "t")
      ≡ ok r)
    × (append_all toy_crypto ((5, blank) ∷ (9, blank) ∷ []) r [] ≡ ok (r', es))
    × ((walk toy_crypto keys (λ _. none) es).first_error ≡ none)
    × ((walk toy_crypto keys (λ _. none) es).ok ≡ 2)
    × ((walk toy_crypto keys (λ _. none) es).head_entry_hash ≡ r'.last_hash)
append_all-walk_example =
    append_all-walk toy_crypto keys signer (txt "t") ((5, blank) ∷ (9, blank) ∷ []) known
      (omega arith)

abbrev idle : Recorder
idle = record { hasher = signer; last_seq = 0; last_hash = zero_hash }

idle-InStep : InStep toy_crypto keys idle []
idle-InStep = record { known = known; at_head = refl; hash = refl; verified = tt }
