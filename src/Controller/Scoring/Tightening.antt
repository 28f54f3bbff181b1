-- ===== src/Controller/Scoring/Tightening.antt =====
-- internal/controller/decision_model.go: what the model may change, and what a claim may.
use agentic_operator_core.Base.{Option, none, some, ◌≡◌, ◌⊎◌, arith}
use agentic_operator_core.Base.Int.{ℤ, ◌≤ℤ◌}
use agentic_operator_core.Base.Text.{Text}
use agentic_operator_core.Base.Try.{Try, ok, err}
use agentic_operator_core.Input.{Input, HostParsers}
use agentic_operator_core.Decision.{Result, allow, require_approval}
use agentic_operator_core.Decision.Features.{FeatureInput, Features, extract_features}
use agentic_operator_core.Decision.Model.{
  ModelMode, Scorer, Score, escalate, apply_model, neutral_claims, score_claim_safe, safer,
  effective_threshold, clamp_micro,
}
use agentic_operator_core.Decision.Model.Thresholds.{clamp_mono, safer_risk}
use agentic_operator_core.Decision.Model.Escalation.{apply_model-tightens}
use agentic_operator_core.Controller.Scoring.{
  blank_score, DecisionModelConfig, ModelSpec, apply_decision_model, final_result, model_score,
  scored, applied, feature_input, effective_mode,
}

module _ (net : HostParsers) (hash : Features → Text) (config : DecisionModelConfig) where
  applied-tightens :
      (base : Result) (mode : ModelMode) (f : Features) (t : Try Score)
      → ((applied net hash config base mode f t).result ≡ base)
        ⊎ (base.outcome ≡ allow)
          × (mode ≡ escalate)
          × ((applied net hash config base mode f t).result.outcome ≡ require_approval)
  unfolding applied
  applied-tightens base mode f (ok s) = ground (arith, apply_model-tightens base s none mode)
  applied-tightens base mode f (err e) =
      ground (arith, apply_model-tightens base (blank_score f (hash f)) (some e) mode)

  -- The model leaves a result alone or turns an allow into require_approval, and the latter only in
  -- escalate mode.
  pub final_result-tightens :
      (spec : ModelSpec) (action : Text) (i : Input) (base : Result)
      → (final_result net hash config spec action i base ≡ base)
        ⊎ (base.outcome ≡ allow)
          × (spec.mode ≡ escalate)
          × ((final_result net hash config spec action i base).outcome ≡ require_approval)
  unfolding final_result apply_decision_model effective_mode
  final_result-tightens spec action i base = ground (
    arith,
    applied-tightens base (effective_mode spec.mode)
        (extract_features net (feature_input action i spec.policy_packs base))
        (model_score net hash config (feature_input action i spec.policy_packs base)
          spec.threshold_micro),
  )

  claim_safe_both :
      (s : Scorer) (fi : FeatureInput) (claimed neutral : Score)
      → s (extract_features net fi) ≡ ok claimed
      → s (extract_features net (record fi { input = neutral_claims fi.input })) ≡ ok neutral
      → score_claim_safe net hash s fi
        ≡ ok (
            safer claimed neutral
              (hash (extract_features net (record fi { input = neutral_claims fi.input }))))
  unfolding score_claim_safe
  claim_safe_both s fi claimed neutral sc sn = simp (sc, sn)

  model_score-ok :
      (s : Scorer) (fi : FeatureInput) (o : Option ℤ) (x : Score)
      → config.scorer ≡ some s
      → config.unavailable ≡ none
      → score_claim_safe net hash s fi ≡ ok x
      → model_score net hash config fi o
        ≡ ok (record x { threshold_micro = effective_threshold x.threshold_micro o })
  unfolding model_score scored
  model_score-ok s fi o x cs cu e = ground arith

  -- Escalation does not depend on the claims being favourable: if a scorer answers on the action with
  -- its claims and with none, and the risk with none reaches the threshold in force, then an allow in
  -- escalate mode becomes require_approval, whatever the claims are.
  pub neutral_risk-escalates :
      (spec : ModelSpec) (action : Text) (i : Input) (base : Result) (s : Scorer)
      (claimed neutral : Score)
      → config.scorer ≡ some s
      → config.unavailable ≡ none
      → spec.mode ≡ escalate
      → base.outcome ≡ allow
      → s (extract_features net (feature_input action i spec.policy_packs base)) ≡ ok claimed
      → s (extract_features net (feature_input action (neutral_claims i) spec.policy_packs base))
        ≡ ok neutral
      → effective_threshold claimed.threshold_micro spec.threshold_micro
        ≤ℤ clamp_micro neutral.risk_micro
      → (final_result net hash config spec action i base).outcome ≡ require_approval
  unfolding final_result apply_decision_model applied effective_mode apply_model feature_input
  neutral_risk-escalates spec action i base s claimed neutral cs cu m b sc sn t =
      let fi = feature_input action i spec.policy_packs base in
      let h = hash (extract_features net (record fi { input = neutral_claims i })) in
      let x = safer claimed neutral h in
      let (up, down, either, same) = safer_risk claimed neutral h in
      let e =
        model_score-ok s fi spec.threshold_micro x cs cu
          (claim_safe_both s fi claimed neutral sc sn) in
      ground (arith, e, same, clamp_mono neutral.risk_micro x.risk_micro down)
