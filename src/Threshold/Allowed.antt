-- ===== src/Threshold/Allowed.antt =====
-- What the modes of pkg/rules/threshold allow, for all float64 values, NaN included.
use agentic_operator_core.Base.{false, true, Bool, not, ◌&&◌, ◌||◌, some, ◌≡◌, arith}
use agentic_operator_core.Base.Float.{flt, Float64, fge}
use agentic_operator_core.Threshold.Verbs.{destructive-not-readonly}
use agentic_operator_core.Threshold.{
  c80, EvaluationInput, FloatFormat, c95, c99, h50, is_destructive_action, is_read_only_action,
  assess_confidence, assess_action_category, evaluate, evaluate_strict, evaluate_permissive,
}

-- The six rules as one condition.
abbrev pub meets_rules : EvaluationInput → Bool
meets_rules i =
    is_read_only_action i.action_type
    || (fge i.confidence c95
        && (fge i.cluster_health_score h50
            && (not (is_destructive_action i.action_type) || fge i.confidence c99)))

-- The ladder of rules allows exactly the read-only actions, and at a confidence of at least 0.95 and
-- a health of at least 50 the others; a destructive one needs a confidence of at least 0.99. A NaN in
-- either claim allows only read-only actions.
pub evaluate-allowed :
    (format : FloatFormat) (i : EvaluationInput)
    → (evaluate format (some i)).allowed ≡ meets_rules i
unfolding evaluate
evaluate-allowed format i = ground arith

-- Strict mode allows exactly what the rules allow.
pub evaluate_strict-allowed :
    (format : FloatFormat) (i : EvaluationInput)
    → (evaluate_strict format (some i)).allowed ≡ (evaluate format (some i)).allowed
unfolding evaluate_strict assess_confidence assess_action_category
evaluate_strict-allowed format i =
    ground (arith, evaluate-allowed format i, destructive-not-readonly i.action_type)

-- Permissive mode allows what the rules allow, and at a health of at least 50 any action with a
-- confidence of at least 0.80 and below 0.95.
evaluate_permissive-allowed :
    (format : FloatFormat) (i : EvaluationInput)
    → (evaluate_permissive format (some i)).allowed ≡ (
        meets_rules i
        || (fge i.confidence c80 && (not (fge i.confidence c95) && fge i.cluster_health_score h50)))
unfolding evaluate_permissive assess_confidence
evaluate_permissive-allowed format i = ground (arith, evaluate-allowed format i)

-- In permissive mode a destructive action is allowed at a confidence in [0.80, 0.95) and denied at
-- one in [0.95, 0.99), at every health of at least 50: the larger claim gets the stricter answer.
pub evaluate_permissive-inverted :
    (format : FloatFormat) (i : EvaluationInput) (more : Float64)
    → is_destructive_action i.action_type ≡ true
    → fge i.cluster_health_score h50 ≡ true
    → fge i.confidence c80 ≡ true
    → flt i.confidence c95 ≡ true
    → fge more c95 ≡ true
    → flt more c99 ≡ true
    → ((evaluate_permissive format (some i)).allowed ≡ true)
      × ((evaluate_permissive format (some (record i { confidence = more }))).allowed ≡ false)
evaluate_permissive-inverted format i more d h a b m n = ground (
  arith,
  evaluate_permissive-allowed format i,
  evaluate_permissive-allowed format (record i { confidence = more }),
  destructive-not-readonly i.action_type,
)
