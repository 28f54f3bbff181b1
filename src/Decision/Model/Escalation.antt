-- ===== src/Decision/Model/Escalation.antt =====
-- `ApplyModel` of pkg/decision/model.go: escalate-only.
use agentic_operator_core.Base.{Option, none, ◌≡◌, arith, ◌≤◌, ◌⊎◌, ◌↔◌}
use agentic_operator_core.Base.Int.{◌<ℤ◌}
use agentic_operator_core.Base.Text.{Text}
use agentic_operator_core.Decision.{allow, require_approval, Layer, Result, strictness}
use agentic_operator_core.Decision.Model.{ModelMode, escalate, Score, clamp_micro, apply_model}

-- The model never loosens an outcome, changes nothing but an allow, turns that into
-- require_approval only, and does so in escalate mode only.
pub apply_model-tightens :
    (base : Result) (s : Score) (e : Option Text) (mode : ModelMode)
    → (strictness base.outcome ≤ strictness (apply_model base s e mode).outcome)
      × ((apply_model base s e mode ≡ base)
          ⊎ (base.outcome ≡ allow)
            × (mode ≡ escalate)
            × ((apply_model base s e mode).outcome ≡ require_approval)
            × ((apply_model base s e mode).layer ≡ Layer.model))
unfolding apply_model strictness
apply_model-tightens base s e mode = ground arith

-- An action stays allowed exactly when it was allowed and, in escalate mode, the scorer gave a risk
-- below the threshold and no error.
apply_model-allow_iff :
    (base : Result) (s : Score) (e : Option Text) (mode : ModelMode)
    → ((apply_model base s e mode).outcome ≡ allow) ↔ (
        (base.outcome ≡ allow)
        × (mode ≡ escalate → (e ≡ none) × (clamp_micro s.risk_micro <ℤ s.threshold_micro)))
unfolding apply_model
apply_model-allow_iff base s e mode = (λ h. (ground arith, λ m. ground arith), λ h. ground arith)
