-- ===== src/Controller/Direct/Closing.antt =====
-- internal/controller/receipts.go: where a required receipt is not written.
use agentic_operator_core.Base.{
  Bool, true, false, not, ◌&&◌, ◌||◌, List, [], ◌∷◌, ◌++◌, ◌≡◌, refl, is_empty, ◌⊎◌, Bool-cases,
  inl, inr, arith,
}
use agentic_operator_core.Base.Text.{Text, txt, text_eq}
use agentic_operator_core.Base.Strings.{elem}
use agentic_operator_core.Input.{Input, destination_violation, data_class_violation}
use agentic_operator_core.Invariants.{
  Violation, check, show, all, collect, credentials, personal_dest, scan_complete, receipts,
}
use agentic_operator_core.Decision.{decide}
use agentic_operator_core.Decision.Model.{is_allow}
use agentic_operator_core.Controller.Actions.{Reconciler}
use agentic_operator_core.Controller.Direct.{Spec, Outside}
use agentic_operator_core.Controller.Direct.Deciding.{
  Deciding, add_receipt_finding, add_receipt_findings, fail_closed,
}

append-nonempty : (l : List Text) (x : Text) → is_empty (l ++ x ∷ []) ≡ false
append-nonempty [] x = refl
append-nonempty (y ∷ l) x = refl

finding-nonempty :
    (v : Violation) (l : List Text)
    → (is_empty l ≡ false) ⊎ (text_eq v.id (txt "INV-05") ≡ true)
    → is_empty (add_receipt_finding v l) ≡ false
unfolding add_receipt_finding elem
finding-nonempty v [] h = ground (arith, h)
finding-nonempty v (x ∷ l) h =
    elim (Bool-cases (text_eq v.id (txt "INV-05") && not (elem (show v) (x ∷ l)))) [
      | inl e ↦ rw e refl
      | inr e ↦ rw e refl
    ]

findings-nonempty :
    (vs : List Violation) (l : List Text)
    → is_empty l ≡ false
    → is_empty (add_receipt_findings vs l) ≡ false
unfolding add_receipt_findings
findings-nonempty [] l h = h
findings-nonempty (v ∷ vs) l h = findings-nonempty vs _ (finding-nonempty v l (inl h))

unfoldable names_receipts : List Violation → Bool
names_receipts [] = false
names_receipts (v ∷ vs) = text_eq v.id (txt "INV-05") || names_receipts vs

found-nonempty :
    (vs : List Violation) (l : List Text)
    → names_receipts vs ≡ true
    → is_empty (add_receipt_findings vs l) ≡ false
unfolding add_receipt_findings names_receipts
found-nonempty [] l h = absurd (ground arith)
found-nonempty (v ∷ vs) l h = elim (Bool-cases (text_eq v.id (txt "INV-05"))) [
  | inl e ↦ findings-nonempty vs _ (finding-nonempty v l (inr e))
  | inr e ↦ found-nonempty vs _ (ground (arith, h, e))
]

collect-skip :
    (x : Text × Text) (l : List (Text × Text))
    → names_receipts (collect l) ≡ true
    → names_receipts (collect (x ∷ l)) ≡ true
unfolding collect names_receipts
collect-skip (id, []) l h = h
collect-skip (id, c ∷ s) l h = ground (arith, h)

collect-here :
    (l : List (Text × Text))
    → names_receipts (
        collect (
          (
            txt "INV-05",
            receipts (record { receipts_required = true; receipt_writer_available = false }),
          )
          ∷ l))
      ≡ true
unfolding collect names_receipts receipts text_eq
collect-here l = refl

collect-fifth :
    (a b c d : Text × Text) (l : List (Text × Text))
    → names_receipts (
        collect (
          a
          ∷ b
          ∷ c
          ∷ d
          ∷ (
            txt "INV-05",
            receipts (record { receipts_required = true; receipt_writer_available = false }),
          )
          ∷ l))
      ≡ true
collect-fifth a b c d l =
    collect-skip a _ (collect-skip b _ (collect-skip c _ (collect-skip d _ (collect-here l))))

module _ (out : Outside) (r : Reconciler) (spec : Spec) where
  check-receipts :
      (i : Input)
      → names_receipts (
          check out.base.net i
            (record { receipts_required = true; receipt_writer_available = false }))
        ≡ true
  unfolding check all
  check-receipts i =
      collect-fifth (txt "INV-01", credentials i)
        (txt "INV-02", destination_violation out.base.net i)
        (txt "INV-03", personal_dest out.base.net i) (txt "INV-04", data_class_violation i)
        ((txt "INV-06", scan_complete i) ∷ [])

  -- Where a required receipt is not written, the decision becomes a denial.
  pub fail_closed-denies :
      (d : Deciding) → is_allow (fail_closed out r spec d).result.outcome ≡ false
  unfolding fail_closed decide
  fail_closed-denies d =
      ground (arith, found-nonempty _ d.layers.invariants (check-receipts d.input))
