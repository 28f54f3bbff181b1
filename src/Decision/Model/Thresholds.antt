-- ===== src/Decision/Model/Thresholds.antt =====
-- The arithmetic of pkg/decision/model.go: clamping, options and the effective threshold.
use agentic_operator_core.Base.{none, some, ◌≡◌, arith, ◌⊎◌}
use agentic_operator_core.Base.Int.{ℤ, pos, ◌+ℤ◌, ◌≤ℤ◌}
use agentic_operator_core.Decision.Model.{
  micro_scale, Score, clamp_micro, options, effective_threshold, safer,
}
use agentic_operator_core.Base.Text.{Text}

-- Options are shares of 1000000: neither is negative and they add up, for every risk.
pub options_sum :
    (risk : ℤ)
    → ((options risk).allow +ℤ (options risk).require_approval ≡ micro_scale)
      × (pos 0 ≤ℤ (options risk).allow)
      × (pos 0 ≤ℤ (options risk).require_approval)
unfolding options
options_sum risk = ground arith

-- The threshold in force lies in 0..1000000, and is the override exactly where that is at least 0
-- and below the artifact's; so no override makes it larger.
effective_threshold_bounds :
    (artifact o : ℤ)
    → (pos 0 ≤ℤ effective_threshold artifact (some o))
      × (effective_threshold artifact (some o) ≤ℤ effective_threshold artifact none)
      × (effective_threshold artifact none ≤ℤ micro_scale)
      × ((effective_threshold artifact (some o) ≡ o)
          ⊎ (effective_threshold artifact (some o) ≡ effective_threshold artifact none))
unfolding effective_threshold
effective_threshold_bounds artifact o = ground arith

-- The risk of the merged score is the larger of the two, so a claim cannot bring it down.
pub safer_risk :
    (claimed base : Score) (h : Text)
    → (claimed.risk_micro ≤ℤ (safer claimed base h).risk_micro)
      × (base.risk_micro ≤ℤ (safer claimed base h).risk_micro)
      × (((safer claimed base h).risk_micro ≡ claimed.risk_micro)
          ⊎ ((safer claimed base h).risk_micro ≡ base.risk_micro))
      × ((safer claimed base h).threshold_micro ≡ claimed.threshold_micro)
unfolding safer
safer_risk claimed base h = ground arith

pub clamp_mono : (a b : ℤ) → a ≤ℤ b → clamp_micro a ≤ℤ clamp_micro b
unfolding clamp_micro
clamp_mono a b h = ground arith
