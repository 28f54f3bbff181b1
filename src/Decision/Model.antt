-- ===== src/Decision/Model.antt =====
-- pkg/decision/model.go: scores in micro-units, the claim-safe score, and the only place where a
-- score changes an outcome. `Features.Hash` (SHA-256) and the scorer are parameters.
pub mod Thresholds
pub mod Escalation
use agentic_operator_core.Base.{
  Bool, true, false, not, ◌&&◌, ◌||◌, ◌+◌, Option, none, some, List, [], ◌∷◌, ◌++◌, if◌then◌else◌,
}
use agentic_operator_core.Base.Int.{ℤ, pos, negsuc, ◌-ℤ◌, ltb_ℤ, leb_ℤ}
use agentic_operator_core.Base.Text.{Text, txt}
use agentic_operator_core.Base.Strings.{decimal}
use agentic_operator_core.Base.Try.{Try, ok, err, ◌>>=◌}
use agentic_operator_core.Input.{Input, HostParsers}
use agentic_operator_core.Decision.{Outcome, allow, require_approval, Layer, Result}
use agentic_operator_core.Decision.Features.{FeatureInput, Features, extract_features}

abbrev pub micro_scale : ℤ
micro_scale = pos 1000000

-- `unknown` is any string that is no declared mode.
pub data ModelMode : Type 0 where
  off shadow escalate : ModelMode
  unknown : Text → ModelMode

-- The map with the two keys of `OptionSet`.
pub record OptionMicro : Type 0 where
  pub allow : ℤ
  pub require_approval : ℤ

pub record Score : Type 0 where
  pub model_id : Text
  pub version : Text
  pub artifact_sha256 : Text
  pub feature_spec : Text
  pub feature_hash : Text
  pub risk_micro : ℤ
  pub option_micro : OptionMicro
  pub reason_codes : List Text
  pub threshold_micro : ℤ
  pub calibration : Text
  pub claimed_risk_micro : ℤ
  pub baseline_risk_micro : ℤ
  pub baseline_feature_hash : Text

abbrev pub Scorer : Type 0
Scorer = Features → Try Score

unfoldable pub neutral_claims : Input → Input
neutral_claims i = record i {
  claimed = record (i.claimed) { confidence = none; cluster_health = none };
}

unfoldable pub clamp_micro : ℤ → ℤ
clamp_micro v = if ltb_ℤ v (pos 0) then pos 0 else if ltb_ℤ micro_scale v then micro_scale else v

unfoldable pub options : ℤ → OptionMicro
unfolding clamp_micro
options risk = let r = clamp_micro risk in record { allow = micro_scale -ℤ r; require_approval = r }

unfoldable pub effective_threshold : ℤ → Option ℤ → ℤ
unfolding clamp_micro
effective_threshold artifact none = clamp_micro artifact
effective_threshold artifact (some o) =
    let t = clamp_micro artifact in if leb_ℤ (pos 0) o && ltb_ℤ o t then o else t

-- The merge of the two scores in `ScoreClaimSafe`.
unfoldable pub safer : Score → Score → Text → Score
unfolding options
safer claimed base base_hash =
    let raised = ltb_ℤ claimed.risk_micro base.risk_micro in
    record claimed {
      risk_micro = if raised then base.risk_micro else claimed.risk_micro;
      option_micro = if raised then options base.risk_micro else claimed.option_micro;
      reason_codes = if raised then base.reason_codes else claimed.reason_codes;
      claimed_risk_micro = claimed.risk_micro;
      baseline_risk_micro = base.risk_micro;
      baseline_feature_hash = base_hash;
    }

unfoldable pub score_claim_safe :
    HostParsers → (Features → Text) → Scorer → FeatureInput → Try Score
unfolding safer neutral_claims
score_claim_safe net hash s fi = do
  claimed ← s (extract_features net fi)
  let base_features = extract_features net (record fi { input = neutral_claims fi.input })
  base ← s base_features
  ok (safer claimed base (hash base_features))

-- `%d` of an int64
show_int : ℤ → Text
show_int (pos n) = decimal n
show_int (negsuc n) = txt "-" ++ decimal (n + 1)

escalated : Result → Text → Result
escalated base why = record {
  outcome = require_approval;
  layer = Layer.model;
  reasons = base.reasons ++ (why ∷ []);
}

-- `ApplyModel` on an allow in escalate mode.
escalate_allow : Result → Score → Option Text → Result
unfolding escalated show_int
escalate_allow base s (some e) = escalated base (txt "model:error: " ++ e)
escalate_allow base s none =
    if leb_ℤ s.threshold_micro (clamp_micro s.risk_micro)
    then escalated base (
        txt "model:escalate: risk "
        ++ (show_int (clamp_micro s.risk_micro)
            ++ (txt " >= threshold " ++ (show_int s.threshold_micro ++ txt " micro"))))
    else base

abbrev pub is_escalate : ModelMode → Bool
is_escalate escalate = true
is_escalate _ = false

abbrev pub is_allow : Outcome → Bool
is_allow Outcome.allow = true
is_allow _ = false

unfoldable pub apply_model : Result → Score → Option Text → ModelMode → Result
unfolding escalate_allow
apply_model base s e mode =
    if not (is_escalate mode) || not (is_allow base.outcome) then base else escalate_allow base s e
