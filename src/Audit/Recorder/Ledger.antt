-- ===== src/Audit/Recorder/Ledger.antt =====
-- What the recorder writes to the in-memory backend is what the verifier accepts.
use agentic_operator_core.Base.{
  ℕ, ◌+◌, ◌%◌, ◌<◌, ◌≡◌, refl, sym, ◌∙◌, none, some, List, [], ◌∷◌, ◌++◌, length, arith,
  length-append,
}
use agentic_operator_core.Base.Text.{Text, text_eq_refl}
use agentic_operator_core.Base.Try.{◌>>=◌, Try, ok}
use agentic_operator_core.Base.Crypto.{Crypto}
use agentic_operator_core.Audit.{Entry, ChainHasher, hash, verify, zero_hash, entry_bytes}
use agentic_operator_core.Audit.Verifier.{Verifier, u64_mod, find_hasher, walk}
use agentic_operator_core.Audit.Verifier.Verified.{
  walk-head, walk-ok, Verified, Verified-append, chain_head, chain_head-append, walk_iff,
}
use agentic_operator_core.Audit.Recorder.{
  Recorder, append, memory_append, memory_backend, memory_head, new_recorder,
}

-- An entry that the hasher has hashed verifies with it, against the previous hash that it names.
pub verify-hash :
    (c : Crypto) (h : ChainHasher) (e : Entry) → verify c h (hash c h e) e.prev_hash ≡ none
unfolding verify hash entry_bytes
verify-hash c h e = simp text_eq_refl

-- What holds of a recorder and the ledger that it has written: the ledger verifies, and the recorder
-- is at its head.
pub record InStep (c : Crypto) (v : Verifier) (r : Recorder) (es : List Entry) : Type 0 where
  pub known : find_hasher r.hasher.signer_kid v ≡ some r.hasher
  pub at_head : r.last_seq ≡ length es
  pub hash : r.last_hash ≡ chain_head zero_hash es
  pub verified : Verified c v 0 zero_hash es

-- The entry that `Append` computes.
abbrev pub next_entry : Crypto → ℕ → Recorder → Entry → Entry
next_entry c now r e = hash c r.hasher (record e {
  seq = (r.last_seq + 1) % u64_mod;
  timestamp = now % u64_mod;
  prev_hash = r.last_hash;
})

abbrev pub advance : Recorder → Entry → Recorder
advance r e = record r { last_seq = e.seq; last_hash = e.entry_hash }

memory_append_ok :
    (es : List Entry) (e : Entry)
    → e.seq ≡ (length es + 1) % u64_mod
    → memory_append es e ≡ ok (es ++ e ∷ [])
unfolding memory_append
memory_append_ok es e h = ground arith

seq-hash : (c : Crypto) (h : ChainHasher) (e : Entry) → (hash c h e).seq ≡ e.seq
unfolding hash
seq-hash c h e = refl

kid-hash : (c : Crypto) (h : ChainHasher) (e : Entry) → (hash c h e).signer_kid ≡ h.signer_kid
unfolding hash
kid-hash c h e = refl

module _ (c : Crypto) (v : Verifier) (now : ℕ) (r : Recorder) (es : List Entry) (e : Entry) where
  next_seq : r.last_seq ≡ length es → (next_entry c now r e).seq ≡ (length es + 1) % u64_mod
  next_seq h = omega (
    arith,
    seq-hash c r.hasher (record e {
      seq = (r.last_seq + 1) % u64_mod;
      timestamp = now % u64_mod;
      prev_hash = r.last_hash;
    }),
  )

  -- On a recorder in step with its ledger an append succeeds, and leaves both in step.
  append-InStep :
      InStep c v r es
      → length es + 1 < u64_mod
      → (append memory_backend c now r es e
          ≡ ok (
            advance r (next_entry c now r e),
            es ++ next_entry c now r e ∷ [],
            next_entry c now r e,
          ))
        × InStep c v (advance r (next_entry c now r e)) (es ++ next_entry c now r e ∷ [])
  unfolding append
  append-InStep i small =
      let n = next_entry c now r e in
      let seq = next_seq i.at_head in
      (
        rw (memory_append_ok es n seq),
        record {
          known = i.known;
          at_head = omega (arith, length-append es (n ∷ []));
          hash = sym (chain_head-append zero_hash es (n ∷ []));
          verified = Verified-append c v 0 zero_hash es (n ∷ []) i.verified (
            (
              omega arith,
              (r.hasher, rw kid-hash i.known, rw (← i.hash) (verify-hash c r.hasher _)),
            ),
            tt,
          );
        },
      )

-- A client that appends entries one after the other, each at a reading of the clock.
unfoldable pub append_all :
    Crypto → List (ℕ × Entry) → Recorder → List Entry → Try (Recorder × List Entry)
append_all c [] r es = ok (r, es)
append_all c ((now, e) ∷ l) r es =
    append memory_backend c now r es e >>= λ t. append_all c l t.0 t.1

append_all-InStep :
    (c : Crypto) (v : Verifier) (l : List (ℕ × Entry)) (r : Recorder) (es : List Entry)
    → InStep c v r es
    → length es + length l < u64_mod
    → (r' : Recorder) × (es' : List Entry) × (append_all c l r es ≡ ok (r', es'))
      × InStep c v r' es'
      × (length es' ≡ length es + length l)
unfolding append_all
append_all-InStep c v [] r es i small = (r, es, refl, i, omega arith)
append_all-InStep c v ((now, e) ∷ l) r es i small =
    let (done, next) = append-InStep c v now r es e i (omega arith) in
    let n = next_entry c now r e in
    let (r', es', all, step, len) =
      append_all-InStep c v l (advance r n) (es ++ n ∷ []) next
        (omega (arith, length-append es (n ∷ []))) in
    (r', es', rw done all, step, omega (arith, length-append es (n ∷ [])))

-- The recorder refines the verifier's view of a ledger: on the empty in-memory backend every
-- sequence of appends (fewer than 2 ^ 64) succeeds, and a verifier that knows the recorder's key
-- walks the ledger without an error, accepts one entry for each append, and ends at the
-- recorder's head.
pub append_all-walk :
    (c : Crypto) (v : Verifier) (h : ChainHasher) (tenant : Text) (l : List (ℕ × Entry))
    → find_hasher h.signer_kid v ≡ some h
    → length l < u64_mod
    → (r : Recorder) × (r' : Recorder) × (es : List Entry) × (new_recorder memory_backend
          (some h)
          []
          tenant
        ≡ ok r)
      × (append_all c l r [] ≡ ok (r', es))
      × ((walk c v (λ _. none) es).first_error ≡ none)
      × ((walk c v (λ _. none) es).ok ≡ length l)
      × ((walk c v (λ _. none) es).head_entry_hash ≡ r'.last_hash)
unfolding new_recorder memory_head
append_all-walk c v h tenant l known small =
    let r : Recorder = record { hasher = h; last_seq = 0; last_hash = zero_hash } in
    let start : InStep c v r [] = record {
      known = known;
      at_head = refl;
      hash = refl;
      verified = tt;
    } in
    let (r', es, all, step, len) = append_all-InStep c v l r [] start (omega arith) in
    (
      r,
      r',
      es,
      refl,
      all,
      (walk_iff c v es).1 step.verified,
      walk-ok c v es step.verified ∙ omega (arith, len),
      walk-head c v es step.verified ∙ sym step.hash,
    )
