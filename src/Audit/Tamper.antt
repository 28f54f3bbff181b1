-- ===== src/Audit/Tamper.antt =====
-- Two ledgers that verify up to the same head hold the same entries, or show a collision of SHA-256.
use agentic_operator_core.Base.{
  ℕ, suc, ◌≡◌, sym, ◌∙◌, ◌⊎◌, inl, inr, List, [], ◌∷◌, length, arith, none, All,
}
use agentic_operator_core.Base.Text.{Text, text_eq_iff}
use agentic_operator_core.Base.Crypto.{Crypto, Collision, equal_or_Collision}
use agentic_operator_core.Audit.{Entry, ChainHasher, verify, entry_bytes, zero_hash}
use agentic_operator_core.Audit.Encoding.{IsSized, SameHashed, entry_bytes-injective}
use agentic_operator_core.Audit.Verifier.{Verifier, walk}
use agentic_operator_core.Audit.Verifier.Verified.{walk-head, Verified, chain_head, walk_iff}

-- Entries that agree in all that the chain protects: the hashed fields, the payload and the hash.
pub record SameEntry (e f : Entry) : Type 0 where
  pub hashed : SameHashed e f
  pub payload_canon : e.payload_canon ≡ f.payload_canon
  pub entry_hash : e.entry_hash ≡ f.entry_hash

abbrev pub SameLedger : List Entry → List Entry → Type 0
SameLedger [] [] = Unit
SameLedger (e ∷ es) (f ∷ fs) = SameEntry e f × SameLedger es fs
SameLedger _ _ = ⊥

module _ (c : Crypto) where
  -- What `Verify` has compared when it succeeds.
  record IsBound (e : Entry) (prev : Text) : Type 0 where
    prev_hash : e.prev_hash ≡ prev
    payload : e.payload_sha256 ≡ c.sha256 e.payload_canon
    entry_hash : e.entry_hash ≡ c.sha256 (entry_bytes e)

  verify-IsBound :
      (h : ChainHasher) (e : Entry) (prev : Text) → verify c h e prev ≡ none → IsBound e prev
  unfolding verify
  verify-IsBound h e prev p = record {
    prev_hash = ground (arith, text_eq_iff e.prev_hash prev);
    payload = ground (arith, text_eq_iff e.payload_sha256 (c.sha256 e.payload_canon));
    entry_hash = ground (arith, text_eq_iff e.entry_hash (c.sha256 (entry_bytes e)));
  }

  SameEntry-or_Collision :
      (e f : Entry) (p q : Text)
      → IsSized e
      → IsSized f
      → IsBound e p
      → IsBound f q
      → e.entry_hash ≡ f.entry_hash
      → (SameEntry e f) ⊎ Collision c.sha256
  SameEntry-or_Collision e f p q se sf be bf h =
      let bytes =
        equal_or_Collision c.sha256 (entry_bytes e) (entry_bytes f)
          (sym be.entry_hash ∙ (h ∙ bf.entry_hash)) in
      elim bytes [
        | inr k ↦ inr k
        | inl same ↦
            let hashed = entry_bytes-injective e f se sf same in
            let payload =
              equal_or_Collision c.sha256 e.payload_canon f.payload_canon
                (sym be.payload ∙ (hashed.payload_sha256 ∙ bf.payload)) in
            elim payload [
              | inr k ↦ inr k
              | inl pay ↦ inl (record { hashed = hashed; payload_canon = pay; entry_hash = h })
            ]
      ]

  same_or_Collision :
      (v w : Verifier) (i : ℕ) (p q : Text) (es fs : List Entry)
      → All IsSized es
      → All IsSized fs
      → Verified c v i p es
      → Verified c w i q fs
      → length es ≡ length fs
      → chain_head p es ≡ chain_head q fs
      → (SameLedger es fs × (p ≡ q)) ⊎ Collision c.sha256
  same_or_Collision v w i p q [] [] se sf a b l h = inl (tt, h)
  same_or_Collision v w i p q [] (f ∷ fs) se sf a b l h = absurd (omega arith)
  same_or_Collision v w i p q (e ∷ es) [] se sf a b l h = absurd (omega arith)
  same_or_Collision v w i p q (e ∷ es) (f ∷ fs) se sf a b l h =
      let be = verify-IsBound a.0.1.0 e p a.0.1.2 in
      let bf = verify-IsBound b.0.1.0 f q b.0.1.2 in
      let tails =
        same_or_Collision v w (suc i) e.entry_hash f.entry_hash es fs se.1 sf.1 a.1 b.1
          (omega arith) h in
      elim tails [
        | inr k ↦ inr k
        | inl (rest, hash) ↦ elim (SameEntry-or_Collision e f p q se.0 sf.0 be bf hash) [
          | inr k ↦ inr k
          | inl same ↦ inl ((same, rest), sym be.prev_hash ∙ (same.hashed.prev_hash ∙ bf.prev_hash))
        ]
      ]

  -- Tamper evidence. Two ledgers of one length, both accepted by walks that are not cancelled (with
  -- any keys), whose entries have the sizes of the Go types, and which end in the same entry hash,
  -- agree entry by entry in every hashed field, in the payload and in the hash, unless two texts
  -- with the same SHA-256 can be read off.
  pub tamper_evident :
      (v w : Verifier) (es fs : List Entry)
      → All IsSized es
      → All IsSized fs
      → (walk c v (λ _. none) es).first_error ≡ none
      → (walk c w (λ _. none) fs).first_error ≡ none
      → length es ≡ length fs
      → (walk c v (λ _. none) es).head_entry_hash ≡ (walk c w (λ _. none) fs).head_entry_hash
      → SameLedger es fs ⊎ Collision c.sha256
  tamper_evident v w es fs se sf a b l h =
      let va = (walk_iff c v es).0 a in
      let vb = (walk_iff c w fs).0 b in
      let ends : chain_head zero_hash es ≡ chain_head zero_hash fs =
        sym (walk-head c v es va) ∙ (h ∙ walk-head c w fs vb) in
      elim (same_or_Collision v w 0 zero_hash zero_hash es fs se sf va vb l ends) [
        | inl same ↦ inl same.0
        | inr k ↦ inr k
      ]
