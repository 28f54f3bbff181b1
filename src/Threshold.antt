-- ===== src/Threshold.antt =====
-- pkg/rules/threshold/evaluator.go: fixed thresholds on claimed confidence and cluster health.
-- The verbs `%.2f` and `%.1f` are a parameter. A nil input is `none`.
pub mod Allowed
pub mod Verbs
use agentic_operator_core.Base.{
  Bool, true, false, not, ◌&&◌, ◌||◌, Option, none, some, List, [], ◌∷◌, ◌++◌, any, if◌then◌else◌,
}
use agentic_operator_core.Base.Float.{Float64, of_bits, flt, fge}
use agentic_operator_core.Base.Text.{Text, txt, text_eq}
use agentic_operator_core.Base.Strings.{to_lower, has_prefix, elem}

pub data Confidence : Type 0 where
  high medium low : Confidence

pub data ClusterStatus : Type 0 where
  healthy degraded critical : ClusterStatus

pub data Category : Type 0 where
  destructive readonly modification : Category

pub record EvaluationInput : Type 0 where
  pub action_type : Text
  pub confidence : Float64
  pub cluster_health_score : Float64
  pub opa_policy_mode : Text

pub record EvaluationResult : Type 0 where
  pub allowed : Bool
  pub confidence : Confidence
  pub cluster_status : ClusterStatus
  pub action_category : Category
  pub reasons : List Text

pub record FloatFormat : Type 0 where
  pub two_digits : Float64 → Text
  pub one_digit : Float64 → Text

-- 0.80, 0.90, 0.95, 0.99, 40, 50, 80
abbrev pub c80 : Float64
c80 = of_bits 0x3fe999999999999a

abbrev pub c90 : Float64
c90 = of_bits 0x3feccccccccccccd

abbrev pub c95 : Float64
c95 = of_bits 0x3fee666666666666

abbrev pub c99 : Float64
c99 = of_bits 0x3fefae147ae147ae

abbrev pub h40 : Float64
h40 = of_bits 0x4044000000000000

abbrev pub h50 : Float64
h50 = of_bits 0x4049000000000000

abbrev pub h80 : Float64
h80 = of_bits 0x4054000000000000

abbrev pub destructive_verbs : List Text
destructive_verbs =
    txt "delete"
    ∷ txt "remove"
    ∷ txt "purge"
    ∷ txt "drop"
    ∷ txt "reset"
    ∷ txt "cleanup"
    ∷ txt "clear"
    ∷ []

abbrev pub readonly_verbs : List Text
readonly_verbs =
    txt "get"
    ∷ txt "list"
    ∷ txt "describe"
    ∷ txt "monitor"
    ∷ txt "analyze"
    ∷ txt "read"
    ∷ txt "check"
    ∷ txt "validate"
    ∷ []

-- The two loops: an exact match, or the first word of a compound action.
unfoldable pub verb_of : Text → List Text → Bool
verb_of action verbs = elem action verbs || any (λ d. has_prefix action (d ++ txt "_")) verbs

unfoldable pub is_destructive_action : Text → Bool
is_destructive_action action = verb_of (to_lower action) destructive_verbs

unfoldable pub is_read_only_action : Text → Bool
is_read_only_action action = verb_of (to_lower action) readonly_verbs

unfoldable pub assess_confidence : Float64 → Confidence
assess_confidence c = if fge c c95 then high else if fge c c80 then medium else low

unfoldable pub assess_cluster_health : Float64 → ClusterStatus
assess_cluster_health h = if fge h h80 then healthy else if fge h h50 then degraded else critical

unfoldable pub assess_action_category : Text → Category
assess_action_category action =
    if is_destructive_action action
    then destructive
    else if is_read_only_action action
    then readonly
    else modification

module _ (format : FloatFormat) where
  -- Rules 1 to 6 in the order of the source: whether the action is allowed, and the reason.
  rules : EvaluationInput → Bool × Text
  rules i =
      let a = i.action_type in
      let c = i.confidence in
      let h = i.cluster_health_score in
      if is_read_only_action a
      then (true, txt "Read-only action '" ++ (a ++ txt "' always allowed"))
      else if flt c c90 && flt h h40
      then (
        false,
        txt "CRITICAL: Low confidence AND cluster degradation. Manual intervention required.",
      )
      else if fge c c95 && (not (is_destructive_action a) && fge h h50)
      then (true, txt "High confidence (" ++ (format.two_digits c ++ txt ") action allowed"))
      else if is_destructive_action a && flt c c99
      then (
        false,
        txt "Destructive action '"
            ++ (a ++ (txt "' requires confidence >= 0.99, got " ++ format.two_digits c)),
      )
      else if flt h h50
      then (
        false,
        txt "Cluster health is degraded ("
            ++ (format.one_digit h ++ txt "%). Only read-only operations allowed"),
      )
      else if flt c c95
      then (
        false,
        txt "Low confidence ("
            ++ (format.two_digits c ++ txt ") action requires human approval (threshold: 0.95)"),
      )
      else if fge c c80 && fge h h50
      then (true, txt "Action meets minimum safety thresholds")
      else (false, txt "Action does not meet safety criteria")

  unfoldable pub evaluate : Option EvaluationInput → EvaluationResult
  unfolding rules
  evaluate none = record {
    allowed = false;
    confidence = low;
    cluster_status = critical;
    action_category = modification;
    reasons = txt "Policy input is required" ∷ [];
  }
  evaluate (some i) = record {
    allowed = (rules i).0;
    confidence = assess_confidence i.confidence;
    cluster_status = assess_cluster_health i.cluster_health_score;
    action_category = assess_action_category i.action_type;
    reasons = (rules i).1 ∷ [];
  }

  not_high : Confidence → Bool
  not_high high = false
  not_high _ = true

  not_readonly : Category → Bool
  not_readonly readonly = false
  not_readonly _ = true

  is_medium : Confidence → Bool
  is_medium medium = true
  is_medium _ = false

  unfoldable pub evaluate_strict : Option EvaluationInput → EvaluationResult
  unfolding evaluate not_high not_readonly
  evaluate_strict i =
      let r = evaluate i in
      if not_high r.confidence && not_readonly r.action_category
      then record r {
        allowed = false;
        reasons =
            r.reasons
            ++ (txt "Strict mode: only HIGH confidence or read-only actions allowed" ∷ []);
      }
      else r

  -- `EvaluatePermissive` on a non-nil input: on nil its second operand is not reached, since the
  -- confidence is then LOW.
  unfoldable pub evaluate_permissive : Option EvaluationInput → EvaluationResult
  unfolding evaluate is_medium
  evaluate_permissive none = evaluate none
  evaluate_permissive (some i) =
      let r = evaluate (some i) in
      if is_medium r.confidence && fge i.cluster_health_score h50
      then record r {
        allowed = true;
        reasons = txt "Permissive mode: MEDIUM confidence allowed" ∷ [];
      }
      else r
