-- ===== src/Audit/Recorder.antt =====
-- pkg/audit/recorder.go: the recorder over a backend, and the in-memory backend. The clock's reading
-- is an argument of `append`.
pub mod Ledger
use agentic_operator_core.Base.{
  ℕ, zero, suc, ◌+◌, ◌%◌, Bool, true, false, not, Option, none, some, List, [], ◌∷◌, ◌++◌, length,
  ◌==◌, if◌then◌else◌,
}
use agentic_operator_core.Base.Text.{Text, txt}
use agentic_operator_core.Base.Try.{Try, ok, err, ◌>>=◌}
use agentic_operator_core.Base.Crypto.{Crypto}
use agentic_operator_core.Audit.{Entry, ChainHasher, hash, zero_hash}
use agentic_operator_core.Audit.Verifier.{u64_mod}

-- The interface `Backend`, over the states `S` of an implementation.
pub record Backend (S : Type 0) : Type 0 where
  pub append : S → Entry → Try S
  pub head : S → Text → Try (ℕ × Text)

pub record Recorder : Type 0 where
  pub hasher : ChainHasher
  pub last_seq : ℕ
  pub last_hash : Text

module _ {S : Type 0} (b : Backend S) where
  -- `none` is a nil hasher.
  unfoldable pub new_recorder : Option ChainHasher → S → Text → Try Recorder
  new_recorder none s tenant = err (txt "audit: hasher and backend required")
  new_recorder (some h) s tenant = do
    (seq, last) ← b.head s tenant
    ok (record { hasher = h; last_seq = seq; last_hash = last })

  -- `Append`: on an error of the backend the recorder is unchanged.
  unfoldable pub append : Crypto → ℕ → Recorder → S → Entry → Try (Recorder × S × Entry)
  append c now r s e =
      let next = hash c r.hasher (record e {
        seq = (r.last_seq + 1) % u64_mod;
        timestamp = now % u64_mod;
        prev_hash = r.last_hash;
      }) in
      do
        s' ← b.append s next
        ok (record r { last_seq = next.seq; last_hash = next.entry_hash }, s', next)

unfoldable pub memory_append : List Entry → Entry → Try (List Entry)
memory_append es e =
    if not (e.seq == (length es + 1) % u64_mod)
    then err (txt "audit/memory: seq out of order")
    else ok (es ++ e ∷ [])

-- The last entry's number and hash, or 0 and the zero hash.
unfoldable pub memory_head : List Entry → ℕ × Text
memory_head [] = (0, zero_hash)
memory_head (e ∷ []) = (e.seq, e.entry_hash)
memory_head (e ∷ f ∷ es) = memory_head (f ∷ es)

-- `MemoryBackend`: the ledger is not divided by tenants.
abbrev pub memory_backend : Backend (List Entry)
memory_backend = record { append = memory_append; head = λ es tenant. ok (memory_head es) }

-- `Tamper`
unfoldable pub tamper : List Entry → ℕ → (Entry → Entry) → List Entry
tamper [] i change = []
tamper (e ∷ es) zero change = change e ∷ es
tamper (e ∷ es) (suc i) change = e ∷ tamper es i change
