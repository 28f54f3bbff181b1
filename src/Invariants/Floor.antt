-- ===== src/Invariants/Floor.antt =====
-- When the invariants of pkg/invariants let an action through, and in which order they report.
use mathlib.Core.List.{Sublist, nil-sublist}
use mathlib.Core.List.Sublist
use agentic_operator_core.Base.{
  Bool, true, false, List, [], ◌∷◌, any, map, ◌≡◌, refl, ◌↔◌, ◌≢◌, All, arith, Bool-cases, inl, inr,
}
use agentic_operator_core.Base.Text.{Text, txt}
use agentic_operator_core.Base.Strings.{to_lower, equal_fold, elem, sort_strings, insert_text}
use agentic_operator_core.Dataclass.{credential}
use agentic_operator_core.Input.{
  Input, HostParsers, is_zero, destination_declared, destination_violation, data_class_violation,
  undeclared_data_classes, undeclared_reason, allowed_set, undeclared_of,
}
use agentic_operator_core.Invariants.{
  Violation, Context, ids, check, collect, all, credentials, receipts, scan_complete, personal_dest,
}

-- What an action must meet, in terms of the facts and not of the checks.
pub record IsPermitted (net : HostParsers) (i : Input) (ctx : Context) : Type 0 where
  pub no_credential : All (λ c. equal_fold c credential ≡ false) i.observed.data_classes
  pub destination : is_zero i.declared ≡ false → destination_declared net i ≡ true
  pub classes :
      is_zero i.declared ≡ false
      → All
          (λ c. elem (to_lower c) (allowed_set i.declared.allowed_data_classes) ≡ true)
          i.observed.data_classes
  pub receipted : ctx.receipts_required ≡ true → ctx.receipt_writer_available ≡ true
  pub scanned : i.observed.scan_incomplete ≡ false

any_none : (p : Text → Bool) (l : List Text) → any p l ≡ false → All (λ c. p c ≡ false) l
any_none p [] h = tt
any_none p (c ∷ l) h = (ground arith, any_none p l (ground arith))

none_any : (p : Text → Bool) (l : List Text) → All (λ c. p c ≡ false) l → any p l ≡ false
none_any p [] h = refl
none_any p (c ∷ l) h = ground (arith, none_any p l h.1)

insert_text-ne : (s : Text) (l : List Text) → insert_text s l ≢ []
unfolding insert_text
insert_text-ne s [] = λ e. cc
insert_text-ne s (t ∷ l) = ground arith

sort_strings-empty : (l : List Text) → sort_strings l ≡ [] → l ≡ []
unfolding sort_strings
sort_strings-empty [] h = refl
sort_strings-empty (s ∷ l) h = absurd (insert_text-ne s (sort_strings l) h)

undeclared_of-empty :
    (allowed : List Text) (l : List Text)
    → (undeclared_of allowed l ≡ []) ↔ All (λ c. elem (to_lower c) allowed ≡ true) l
unfolding undeclared_of
undeclared_of-empty allowed [] = (λ _. tt, λ _. refl)
undeclared_of-empty allowed (c ∷ l) = (
  λ h. (ground arith, (undeclared_of-empty allowed l).0 (ground arith)),
  λ h. rw (h.0) ((undeclared_of-empty allowed l).1 h.1),
)

undeclared_reason-empty : (l : List Text) → undeclared_reason l ≡ [] → l ≡ []
unfolding undeclared_reason
undeclared_reason-empty [] h = refl
undeclared_reason-empty (c ∷ l) h = absurd (ground arith)

collect-empty : (l : List (Text × Text)) → (collect l ≡ []) ↔ All (λ e. e.1 ≡ []) l
unfolding collect
collect-empty [] = (λ _. tt, λ _. refl)
collect-empty ((id, []) ∷ l) = (λ h. (refl, (collect-empty l).0 h), λ h. (collect-empty l).1 h.1)
collect-empty ((id, c ∷ r) ∷ l) = (λ h. absurd (ground arith), λ h. absurd (ground arith))

collect-Sublist :
    (l : List (Text × Text)) → Sublist (map (λ v. v.id) (collect l)) (map (λ e. e.0) l)
unfolding collect
collect-Sublist [] = nil-sublist []
collect-Sublist ((id, []) ∷ l) = Sublist.cons id (collect-Sublist l)
collect-Sublist ((id, c ∷ r) ∷ l) = Sublist.cons-cons id (collect-Sublist l)

data_class-empty :
    (i : Input)
    → (data_class_violation i ≡ []) ↔ (
        is_zero i.declared ≡ false
        → All
            (λ c. elem (to_lower c) (allowed_set i.declared.allowed_data_classes) ≡ true)
            i.observed.data_classes)
unfolding data_class_violation undeclared_data_classes sort_strings
data_class-empty i =
    let allowed = allowed_set i.declared.allowed_data_classes in
    let unlisted = undeclared_of allowed i.observed.data_classes in
    (
      λ h z.
          (undeclared_of-empty allowed i.observed.data_classes).0
            (sort_strings-empty unlisted (undeclared_reason-empty _ (rw z at h))),
      λ h. elim (Bool-cases (is_zero i.declared)) [
        | inl z ↦ rw z refl
        | inr z ↦ rw (z, (undeclared_of-empty allowed i.observed.data_classes).1 (h z)) refl
      ],
    )

credentials-empty :
    (i : Input)
    → (credentials i ≡ []) ↔ All (λ c. equal_fold c credential ≡ false) i.observed.data_classes
unfolding credentials
credentials-empty i = (
  λ h. any_none _ i.observed.data_classes (ground arith),
  λ h. rw (none_any _ i.observed.data_classes h),
)

destination-empty :
    (net : HostParsers) (i : Input)
    → (destination_violation net i ≡ [])
      ↔ (is_zero i.declared ≡ false → destination_declared net i ≡ true)
unfolding destination_violation
destination-empty net i = (λ h z. ground arith, λ h. ground arith)

personal-empty :
    (net : HostParsers) (i : Input)
    → (is_zero i.declared ≡ false → destination_declared net i ≡ true)
    → personal_dest net i ≡ []
unfolding personal_dest
personal-empty net i h = ground arith

receipts-empty :
    (ctx : Context)
    → (receipts ctx ≡ []) ↔ (ctx.receipts_required ≡ true → ctx.receipt_writer_available ≡ true)
unfolding receipts
receipts-empty ctx = (λ h r. ground arith, λ h. ground arith)

scan-empty : (i : Input) → (scan_complete i ≡ []) ↔ (i.observed.scan_incomplete ≡ false)
unfolding scan_complete
scan-empty i = (λ h. ground arith, λ h. ground arith)

-- `Check` reports nothing exactly when the action carries no credential, goes to a declared host,
-- carries declared classes only, is receipted where that is required, and was scanned in full. The
-- two conditions on the declaration apply once anything is declared.
pub check-empty_iff :
    (net : HostParsers) (i : Input) (ctx : Context) → (check net i ctx ≡ []) ↔ IsPermitted net i ctx
unfolding check all
check-empty_iff net i ctx = (
  λ h.
      let t = (collect-empty (all net i ctx)).0 h in
      record {
        no_credential = (credentials-empty i).0 t.0;
        destination = (destination-empty net i).0 t.1.0;
        classes = (data_class-empty i).0 t.1.1.1.0;
        receipted = (receipts-empty ctx).0 t.1.1.1.1.0;
        scanned = (scan-empty i).0 t.1.1.1.1.1.0;
      },
  λ p. (collect-empty (all net i ctx)).1 (
    (credentials-empty i).1 p.no_credential,
    (
      (destination-empty net i).1 p.destination,
      (
        personal-empty net i p.destination,
        (
          (data_class-empty i).1 p.classes,
          ((receipts-empty ctx).1 p.receipted, ((scan-empty i).1 p.scanned, tt)),
        ),
      ),
    ),
  ),
)

-- The violations stand in the order of the ids, each id at most once.
pub check-Sublist :
    (net : HostParsers) (i : Input) (ctx : Context)
    → Sublist (map (λ v. v.id) (check net i ctx)) ids
unfolding check all
check-Sublist net i ctx = collect-Sublist (all net i ctx)

-- INV-01 is reported first for any action that carries a credential, whatever is declared or claimed.
credential-denied :
    (net : HostParsers) (i : Input) (ctx : Context)
    → any (λ c. equal_fold c credential) i.observed.data_classes ≡ true
    → (v : Violation) × (rest : List Violation) × (check net i ctx ≡ v ∷ rest)
      × (v.id ≡ txt "INV-01")
unfolding check all credentials collect
credential-denied net i ctx h = rw h (_, _, refl, refl)
