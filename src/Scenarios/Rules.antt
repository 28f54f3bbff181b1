-- ===== src/Scenarios/Rules.antt =====
-- Examples for the properties of the layers: invariants, packs, thresholds and model.
use agentic_operator_core.Base.{true, false, none, some, [], ◌∷◌, ◌≡◌, refl, ◌↔◌, max, ◌≤◌}
use agentic_operator_core.Base.Int.{pos}
use agentic_operator_core.Base.Text.{txt}
use agentic_operator_core.Base.Strings.{elem, to_lower, has_prefix}
use agentic_operator_core.Input.{Input}
use agentic_operator_core.Invariants.{check}
use agentic_operator_core.Invariants.Floor.{check-empty_iff, IsPermitted}
use agentic_operator_core.Decision.{Layers, decide, strictness, Result, allow, Layer}
use agentic_operator_core.Decision.Merge.{
  strictness-decide, decide_mono, IsTighter, invariant_demand, pack_demand, threshold_demand,
}
use agentic_operator_core.Decision.Model.{Score}
use agentic_operator_core.Threshold.{
  verb_of, EvaluationInput, evaluate, evaluate_strict, evaluate_permissive, c80, c95, h80,
  is_destructive_action, is_read_only_action,
}
use agentic_operator_core.Threshold.Allowed.{
  meets_rules, evaluate-allowed, evaluate_strict-allowed, evaluate_permissive-inverted,
}
use agentic_operator_core.Threshold.Verbs.{destructive-not-readonly}
use agentic_operator_core.Scenarios.{plain_hosts, plain_format, quiet_input, context}

check-empty_iff_example :
    (check plain_hosts quiet_input context ≡ []) ↔ IsPermitted plain_hosts quiet_input context
check-empty_iff_example = check-empty_iff plain_hosts quiet_input context

abbrev leaking : Input
leaking = record quiet_input {
  observed = record (quiet_input.observed) { data_classes = txt "Credential" ∷ [] };
}

abbrev loose : Layers
loose = record {
  invariants = [];
  pack_err = none;
  pack_deny = [];
  pack_approval = txt "four eyes" ∷ [];
  threshold_allowed = true;
  threshold_reasons = [];
}

abbrev tight : Layers
tight = record loose { invariants = txt "INV-01: credential" ∷ [] }

strictness-decide_example :
    strictness (decide loose).outcome
    ≡ max (invariant_demand loose) (max (pack_demand loose) (threshold_demand loose))
strictness-decide_example = strictness-decide loose

loose-IsTighter : IsTighter loose tight
loose-IsTighter = record {
  invariants = λ e. refl;
  pack_err = λ e. refl;
  pack_deny = λ e. refl;
  pack_approval = λ e. e;
  threshold = λ e. refl;
}

decide_mono_example : strictness (decide loose).outcome ≤ strictness (decide tight).outcome
decide_mono_example = decide_mono loose tight loose-IsTighter

abbrev risky : Score
risky = record {
  model_id = txt "m";
  version = txt "1";
  artifact_sha256 = [];
  feature_spec = txt "v1";
  feature_hash = [];
  risk_micro = pos 900000;
  option_micro = record { allow = pos 100000; require_approval = pos 900000 };
  reason_codes = [];
  threshold_micro = pos 500000;
  calibration = [];
  claimed_risk_micro = pos 900000;
  baseline_risk_micro = pos 900000;
  baseline_feature_hash = [];
}

abbrev allowed : Result
allowed = record { outcome = allow; layer = Layer.threshold; reasons = [] }

abbrev purge : EvaluationInput
purge = record {
  action_type = txt "delete_pod";
  confidence = c80;
  cluster_health_score = h80;
  opa_policy_mode = txt "permissive";
}

evaluate-allowed_example : (evaluate plain_format (some purge)).allowed ≡ meets_rules purge
evaluate-allowed_example = evaluate-allowed plain_format purge

evaluate_strict-allowed_example :
    (evaluate_strict plain_format (some purge)).allowed
    ≡ (evaluate plain_format (some purge)).allowed
evaluate_strict-allowed_example = evaluate_strict-allowed plain_format purge

evaluate_permissive-inverted_example :
    ((evaluate_permissive plain_format (some purge)).allowed ≡ true)
    × ((evaluate_permissive plain_format (some (record purge { confidence = c95 }))).allowed
        ≡ false)
unfolding is_destructive_action verb_of elem to_lower has_prefix
evaluate_permissive-inverted_example =
    evaluate_permissive-inverted plain_format purge c95 refl refl refl refl refl refl

destructive-not-readonly_example : is_read_only_action (txt "delete_pod") ≡ false
unfolding is_destructive_action verb_of elem to_lower has_prefix
destructive-not-readonly_example = destructive-not-readonly (txt "delete_pod") refl
