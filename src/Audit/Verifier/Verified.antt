-- ===== src/Audit/Verifier/Verified.antt =====
-- What a walk with no error says of a ledger, and how such ledgers grow.
use agentic_operator_core.Base.{
  ℕ, suc, ◌+◌, ◌%◌, Option, none, some, List, [], ◌∷◌, ◌++◌, length, ◌≡◌, refl, arith, ◌↔◌, inl,
  inr, Option-cases, Bool-cases, ◌==◌,
}
use native.Mathlib.Nat.{add-zero, add-suc, suc-add}
use agentic_operator_core.Base.Text.{Text}
use agentic_operator_core.Base.Crypto.{Crypto}
use agentic_operator_core.Audit.{Entry, ChainHasher, verify, zero_hash}
use agentic_operator_core.Audit.Verifier.{
  Verifier, Report, u64_mod, find_hasher, walk, walk_from, check_entry, accept, fail, new_report,
}

-- The hash that the next entry has to name.
abbrev pub chain_head : Text → List Entry → Text
chain_head prev [] = prev
chain_head prev (e ∷ es) = chain_head e.entry_hash es

-- The report after every entry was accepted.
abbrev pub accept_all : Report → List Entry → Report
accept_all r [] = r
accept_all r (e ∷ es) = accept_all (accept r e) es

pub chain_head-append :
    (prev : Text) (es fs : List Entry)
    → chain_head prev (es ++ fs) ≡ chain_head (chain_head prev es) fs
chain_head-append prev [] fs = refl
chain_head-append prev (e ∷ es) fs = chain_head-append e.entry_hash es fs

pub accept_all-fields :
    (r : Report) (es : List Entry)
    → ((accept_all r es).ok ≡ r.ok + length es)
      × ((accept_all r es).first_error ≡ r.first_error)
      × ((accept_all r es).head_entry_hash ≡ chain_head r.head_entry_hash es)
unfolding accept
accept_all-fields r [] = (omega arith, refl, refl)
accept_all-fields r (e ∷ es) =
    let (a, b, d) = accept_all-fields (accept r e) es in (omega arith, b, d)

module _ (c : Crypto) (v : Verifier) where
  -- One entry verifies: it has the number `i + 1`, and the hasher of its key id accepts it.
  abbrev pub Accepted : ℕ → Text → Entry → Type 0
  Accepted i prev e =
      (e.seq ≡ (i + 1) % u64_mod)
      × ((h : ChainHasher) × (find_hasher e.signer_kid v ≡ some h) × (verify c h e prev ≡ none))

  -- A chain of entries that verify, each bound to the hash before it.
  abbrev pub Verified : ℕ → Text → List Entry → Type 0
  Verified i prev [] = Unit
  Verified i prev (e ∷ es) = Accepted i prev e × Verified (suc i) e.entry_hash es

  pub Verified-append :
      (i : ℕ) (prev : Text) (es fs : List Entry)
      → Verified i prev es
      → Verified (i + length es) (chain_head prev es) fs
      → Verified i prev (es ++ fs)
  Verified-append i prev [] fs a b = rw add-zero at b
  Verified-append i prev (e ∷ es) fs a b =
      let b' : Verified (suc i + length es) (chain_head e.entry_hash es) fs =
        rw (suc-add, ← add-suc) b in
      (a.0, Verified-append (suc i) e.entry_hash es fs a.1 b')

  check_entry-none :
      (e : Entry) (prev : Text)
      → check_entry c v e prev ≡ none
      → (h : ChainHasher) × (find_hasher e.signer_kid v ≡ some h) × (verify c h e prev ≡ none)
  unfolding check_entry
  check_entry-none e prev h = ground arith

  none-check_entry :
      (e : Entry) (prev : Text)
      → ((h : ChainHasher) × (find_hasher e.signer_kid v ≡ some h) × (verify c h e prev ≡ none))
      → check_entry c v e prev ≡ none
  unfolding check_entry
  none-check_entry e prev t = rw (t.1, check_entry) (rw t.2)

  abbrev never : ℕ → Option Text
  never i = none

  pub walk_from-Verified :
      (i : ℕ) (prev : Text) (r : Report) (es : List Entry)
      → (walk_from c v never i prev r es).first_error ≡ none
      → Verified i prev es
  unfolding walk_from fail
  walk_from-Verified i prev r [] h = tt
  walk_from-Verified i prev r (e ∷ es) h = elim (Bool-cases (e.seq == (i + 1) % u64_mod)) [
    | inr wrong ↦ absurd (ground arith)
    | inl right ↦ elim (Option-cases (check_entry c v e prev)) [
      | inr bad ↦ absurd (ground arith)
      | inl good ↦ (
        (ground arith, check_entry-none e prev good),
        walk_from-Verified (suc i) e.entry_hash (accept r e) es (ground arith),
      )
    ]
  ]

  pub Verified-walk_from :
      (i : ℕ) (prev : Text) (r : Report) (es : List Entry)
      → Verified i prev es
      → walk_from c v never i prev r es ≡ accept_all r es
  unfolding walk_from
  Verified-walk_from i prev r [] h = refl
  Verified-walk_from i prev r (e ∷ es) h = ground (
    arith,
    none-check_entry e prev h.0.1,
    Verified-walk_from (suc i) e.entry_hash (accept r e) es h.1,
  )

  -- A walk that is not cancelled reports no error exactly when every entry has the next sequence
  -- number and is accepted, against the hash of the entry before, by the hasher of its key id.
  pub walk_iff :
      (es : List Entry) → ((walk c v never es).first_error ≡ none) ↔ Verified 0 zero_hash es
  unfolding walk
  walk_iff es = (
    walk_from-Verified 0 zero_hash (new_report (length es)) es,
    λ h.
        rw (Verified-walk_from 0 zero_hash (new_report (length es)) es h)
          ((accept_all-fields (new_report (length es)) es).1),
  )

  pub walk-head :
      (es : List Entry)
      → Verified 0 zero_hash es
      → (walk c v never es).head_entry_hash ≡ chain_head zero_hash es
  unfolding walk
  walk-head es h =
      rw (Verified-walk_from 0 zero_hash (new_report (length es)) es h)
        ((accept_all-fields (new_report (length es)) es).2)

  pub walk-ok : (es : List Entry) → Verified 0 zero_hash es → (walk c v never es).ok ≡ length es
  unfolding walk
  walk-ok es h =
      rw (Verified-walk_from 0 zero_hash (new_report (length es)) es h)
        (omega (arith, (accept_all-fields (new_report (length es)) es).0))
