-- ===== src/Controller/Direct/Permits.antt =====
-- internal/controller/agentworkload_controller.go: what an allowed offer meets.
use agentic_operator_core.Base.{
  true, false, none, some, List, [], ◌∷◌, ◌≡◌, refl, ap, is_empty, inl, inr, arith, map,
}
use agentic_operator_core.Base.Text.{Text}
use agentic_operator_core.Input.{Input}
use agentic_operator_core.Invariants.{Violation, show}
use agentic_operator_core.Invariants.Floor.{IsPermitted, check-empty_iff}
use agentic_operator_core.Decision.{Result, Layers, decide, is_some}
use agentic_operator_core.Decision.Model.{is_allow}
use agentic_operator_core.Controller.{Status}
use agentic_operator_core.Controller.Actions.{Reconciler, human_blocked, evaluate_layers}
use agentic_operator_core.Controller.Scoring.{apply_decision_model, final_result}
use agentic_operator_core.Controller.Scoring.Tightening.{final_result-tightens}
use mathlib.Core.Path.{subst}
use agentic_operator_core.Controller.Direct.{Spec, Outside}
use agentic_operator_core.Controller.Direct.Acting.{
  layers_offered, input_of, model_block, Offer, deciding,
}

empty_map : (l : List Violation) → is_empty (map show l) ≡ true → l ≡ []
empty_map [] h = refl
empty_map (v ∷ l) h = absurd (ground arith)

decide-allow :
    (l : Layers)
    → is_allow (decide l).outcome ≡ true
    → (is_empty l.invariants ≡ true)
      × (l.threshold_allowed ≡ true)
      × (is_some l.pack_err ≡ false)
      × (is_empty l.pack_deny ≡ true)
      × (is_empty l.pack_approval ≡ true)
unfolding decide
decide-allow l h = ground arith

module _ (out : Outside) (r : Reconciler) (spec : Spec) where
  model_block-final :
      (action : Text) (i : Input) (base : Result)
      → (model_block base (
          apply_decision_model out.base.net out.hash_features out.model spec.model action i base)).0
        ≡ final_result out.base.net out.hash_features out.model spec.model action i base
  unfolding model_block final_result
  model_block-final action i base =
      elim (apply_decision_model out.base.net out.hash_features out.model spec.model action i base)
        as (λ x. (model_block base x).0 ≡ elim x [ none ↦ base | some a ↦ a.result ]) [
          | none ↦ refl
          | some a ↦ refl
        ]

  model_block-allow :
      (action : Text) (i : Input) (base : Result)
      → is_allow
          (model_block base (
            apply_decision_model out.base.net out.hash_features out.model spec.model action i
              base)).0.outcome
        ≡ true
      → is_allow base.outcome ≡ true
  model_block-allow action i base h =
      let f : is_allow
            (final_result out.base.net out.hash_features out.model spec.model action i base).outcome
          ≡ true =
        subst (λ x. is_allow x.outcome ≡ true) (model_block-final action i base) h in
      elim (final_result-tightens out.base.net out.hash_features out.model spec.model action i
        base) [ inl e ↦ subst (λ x. is_allow x.outcome ≡ true) e f | inr (a, m, q) ↦ ap is_allow a ]

  pub deciding-allow :
      (st : Status) (o : Offer)
      → is_allow (deciding out r spec st o).result.outcome ≡ true
      → IsPermitted out.base.net (input_of out r spec st o) r.context
        × (human_blocked (layers_offered out r spec st o) ≡ false)
        × ((layers_offered out r spec st o).threshold_allowed ≡ true)
        × (is_empty (layers_offered out r spec st o).pack_approval ≡ true)
  unfolding deciding layers_offered evaluate_layers human_blocked
  deciding-allow st o h =
      let l = layers_offered out r spec st o in
      let (inv, th, no_err, no_deny, app) =
        decide-allow l
          (model_block-allow o.proposed.action (input_of out r spec st o) (decide l) h) in
      (
        (check-empty_iff out.base.net (input_of out r spec st o) r.context).0 (empty_map _ inv),
        ground (arith, inv, no_err, no_deny),
        th,
        app,
      )
