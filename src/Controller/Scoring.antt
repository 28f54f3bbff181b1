-- ===== src/Controller/Scoring.antt =====
-- internal/controller/decision_model.go: `applyDecisionModel`. Of the block for the receipt the score,
-- the error and the mode are returned, from which it is built. `Features.Hash` is a parameter.
pub mod Tightening
use agentic_operator_core.Base.{
  Bool, true, false, not, ◌&&◌, ◌||◌, Option, none, some, List, [], if◌then◌else◌,
}
use agentic_operator_core.Base.Int.{ℤ, pos}
use agentic_operator_core.Base.Text.{Text, txt}
use agentic_operator_core.Base.Try.{Try, ok, err}
use agentic_operator_core.Input.{Input, HostParsers}
use agentic_operator_core.Decision.{Layer, Result, is_some}
use agentic_operator_core.Decision.Features.{FeatureInput, Features, extract_features}
use agentic_operator_core.Decision.Model.{
  ModelMode, off, shadow, escalate, Score, Scorer, score_claim_safe, effective_threshold,
  apply_model, is_allow,
}

-- `DecisionModelConfig`: a nil scorer is none, and so is a nil error.
pub record DecisionModelConfig : Type 0 where
  pub scorer : Option Scorer
  pub unavailable : Option Text

-- What the workload's spec says of the model.
pub record ModelSpec : Type 0 where
  pub mode : ModelMode
  pub threshold_micro : Option ℤ
  pub policy_packs : List Text

pub record Applied : Type 0 where
  pub result : Result
  pub score : Score
  pub error : Option Text
  pub mode : ModelMode

-- An unknown mode runs as shadow.
unfoldable pub effective_mode : ModelMode → ModelMode
effective_mode escalate = escalate
effective_mode _ = shadow

-- The score of a failed run: only the features are named.
unfoldable pub blank_score : Features → Text → Score
blank_score f h = record {
  model_id = [];
  version = [];
  artifact_sha256 = [];
  feature_spec = f.spec_version;
  feature_hash = h;
  risk_micro = pos 0;
  option_micro = record { allow = pos 0; require_approval = pos 0 };
  reason_codes = [];
  threshold_micro = pos 0;
  calibration = [];
  claimed_risk_micro = pos 0;
  baseline_risk_micro = pos 0;
  baseline_feature_hash = [];
}

unfoldable pub feature_input : Text → Input → List Text → Result → FeatureInput
feature_input action i packs base = record {
  input = i;
  action = action;
  policy_packs = packs;
  escalated_by = if is_allow base.outcome then Layer.unset else base.layer;
}

module _ (net : HostParsers) (hash : Features → Text) (config : DecisionModelConfig) where
  -- The score, with the threshold in force, or an error.
  unfoldable pub scored : Scorer → FeatureInput → Option ℤ → Try Score
  scored s fi override = elim (score_claim_safe net hash s fi) [
    | err e ↦ err e
    | ok x ↦ ok (record x { threshold_micro = effective_threshold x.threshold_micro override })
  ]

  unfoldable pub model_score : FeatureInput → Option ℤ → Try Score
  model_score fi override = elim config.unavailable [
    | some e ↦ err e
    | none ↦ elim config.scorer [
      | none ↦ err (txt "decision model unavailable")
      | some s ↦ scored s fi override
    ]
  ]

  unfoldable pub applied : Result → ModelMode → Features → Try Score → Applied
  applied base mode f (ok s) = record {
    result = apply_model base s none mode;
    score = s;
    error = none;
    mode = mode;
  }
  applied base mode f (err e) = record {
    result = apply_model base (blank_score f (hash f)) (some e) mode;
    score = blank_score f (hash f);
    error = some e;
    mode = mode;
  }

  abbrev pub is_off : ModelMode → Bool
  is_off off = true
  is_off _ = false

  -- `none` where the model does not run: the base result stands.
  unfoldable pub apply_decision_model : ModelSpec → Text → Input → Result → Option Applied
  apply_decision_model spec action i base =
      if (not (is_some config.scorer) && not (is_some config.unavailable)) || is_off spec.mode
      then none
      else let fi = feature_input action i spec.policy_packs base in
        some (
          applied base (effective_mode spec.mode) (extract_features net fi)
            (model_score fi spec.threshold_micro))

  unfoldable pub final_result : ModelSpec → Text → Input → Result → Result
  final_result spec action i base = elim (apply_decision_model spec action i base) [
    | none ↦ base
    | some a ↦ a.result
  ]
