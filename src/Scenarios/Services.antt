-- ===== src/Scenarios/Services.antt =====
-- Examples for the properties of check digits, circuit breaker, retries and the model in the controller.
use agentic_operator_core.Learned.{micro, sigmoid_micro}
use agentic_operator_core.Learned.Bounds.{sigmoid_micro-bounded}
use agentic_operator_core.Base.{
  ◌≤◌, zero, suc, ℕ, false, none, some, [], ◌∷◌, ◌++◌, ◌≡◌, refl, ◌⊎◌, arith,
}
use agentic_operator_core.Base.Int.{negsuc, pos}
use agentic_operator_core.Base.Text.{txt}
use agentic_operator_core.Base.Try.{Try, ok, err}
use agentic_operator_core.Dataclass.Digits.{
  is_digit, digit_of, luhn_valid, luhn_from, luhn_digit, verhoeff_valid, verhoeff_from,
  verhoeff_step, at,
}
use agentic_operator_core.Dataclass.Digits.Luhn.{luhn_valid-wrong_digit}
use agentic_operator_core.Dataclass.Digits.Verhoeff.{
  verhoeff_valid-wrong_digit, verhoeff_valid-swapped,
}
use agentic_operator_core.Resilience.{CircuitBreaker, new_circuit_breaker, with_retry, failed}
use agentic_operator_core.Resilience.Breaker.{
  IsConfigured, IsValid, ask, success, failure, run, new_circuit_breaker-IsValid,
}
use agentic_operator_core.Resilience.Retry.{with_retry-failure}
use agentic_operator_core.Decision
use agentic_operator_core.Decision.{Result, require_approval, Layer}
use agentic_operator_core.Decision.Model.{Score, escalate, effective_threshold, clamp_micro}
use agentic_operator_core.Controller.Scoring.{DecisionModelConfig, ModelSpec, final_result}
use agentic_operator_core.Controller.Scoring.Tightening.{
  final_result-tightens, neutral_risk-escalates,
}
use agentic_operator_core.Scenarios.{plain_hosts, quiet_input}

luhn_valid-wrong_digit_example : luhn_valid (txt "41111111111" ++ 50 ∷ txt "1111") ≡ false
unfolding luhn_valid luhn_from luhn_digit digit_of is_digit
luhn_valid-wrong_digit_example =
    luhn_valid-wrong_digit (txt "41111111111") (txt "1111") 49 50 refl refl (ground arith) refl

verhoeff_valid-wrong_digit_example : verhoeff_valid (txt "23412341234" ++ 55 ∷ []) ≡ false
unfolding verhoeff_valid verhoeff_from verhoeff_step digit_of is_digit at
verhoeff_valid-wrong_digit_example =
    verhoeff_valid-wrong_digit (txt "23412341234") [] 54 55
      (refl, (refl, (refl, (refl, (refl, (refl, (refl, (refl, (refl, (refl, (refl, tt))))))))))) tt
      refl refl (ground arith) refl

verhoeff_valid-swapped_example : verhoeff_valid (txt "2341234123" ++ 54 ∷ 52 ∷ []) ≡ false
unfolding verhoeff_valid verhoeff_from verhoeff_step digit_of is_digit at
verhoeff_valid-swapped_example =
    verhoeff_valid-swapped (txt "2341234123") [] 52 54
      (refl, (refl, (refl, (refl, (refl, (refl, (refl, (refl, (refl, (refl, tt)))))))))) tt refl
      refl (ground arith) refl

abbrev breaker : CircuitBreaker
breaker = new_circuit_breaker (pos 0) (pos 5) (pos 2) (pos 60000000000)

breaker-IsConfigured : IsConfigured breaker
unfolding new_circuit_breaker
breaker-IsConfigured = ground arith

new_circuit_breaker-IsValid_example :
    IsValid (run breaker (failure (pos 7) ∷ ask (pos 8) ∷ success ∷ []))
new_circuit_breaker-IsValid_example =
    new_circuit_breaker-IsValid (pos 0) (pos 5) (pos 2) (pos 60000000000)
      (failure (pos 7) ∷ ask (pos 8) ∷ success ∷ []) breaker-IsConfigured

-- Attempts 0 and 1 fail, the others succeed.
abbrev flaky : ℕ → Try ℕ
flaky zero = err (txt "timeout")
flaky (suc zero) = err (txt "timeout")
flaky (suc (suc n)) = ok (suc (suc n))

with_retry-failure_example :
    with_retry flaky (λ _. none) (txt "exhausted") (pos 1) ≡ failed (pos 2) (txt "timeout")
with_retry-failure_example =
    with_retry-failure flaky (λ _. none) (txt "exhausted") 1 (txt "timeout")
      ((txt "timeout", refl), refl, tt) refl

abbrev risky : Score
risky = record {
  model_id = txt "m";
  version = txt "1";
  artifact_sha256 = [];
  feature_spec = txt "v1";
  feature_hash = [];
  risk_micro = pos 900000;
  option_micro = record { allow = pos 100000; require_approval = pos 900000 };
  reason_codes = [];
  threshold_micro = pos 500000;
  calibration = [];
  claimed_risk_micro = pos 900000;
  baseline_risk_micro = pos 900000;
  baseline_feature_hash = [];
}

abbrev config : DecisionModelConfig
config = record { scorer = some (λ f. ok risky); unavailable = none }

abbrev spec : ModelSpec
spec = record { mode = escalate; threshold_micro = none; policy_packs = [] }

abbrev base : Result
base = record { outcome = Decision.allow; layer = Layer.threshold; reasons = [] }

final_result-tightens_example :
    (final_result plain_hosts (λ f. []) config spec (txt "send") quiet_input base ≡ base)
    ⊎ (base.outcome ≡ Decision.allow)
      × (escalate ≡ escalate)
      × ((final_result plain_hosts (λ f. []) config spec (txt "send") quiet_input base).outcome
          ≡ require_approval)
final_result-tightens_example =
    final_result-tightens plain_hosts (λ f. []) config spec (txt "send") quiet_input base

neutral_risk-escalates_example :
    (final_result plain_hosts (λ f. []) config spec (txt "send") quiet_input base).outcome
    ≡ require_approval
unfolding effective_threshold clamp_micro
neutral_risk-escalates_example =
    neutral_risk-escalates plain_hosts (λ f. []) config spec (txt "send") quiet_input base
      (λ f. ok risky) risky risky refl refl refl refl refl refl (omega arith)

sigmoid_micro-bounded_example :
    (500000 ≤ sigmoid_micro (pos 1250000))
    × (sigmoid_micro (pos 1250000) ≤ micro)
    × (sigmoid_micro (negsuc 1250000) ≤ 500000)
sigmoid_micro-bounded_example = sigmoid_micro-bounded 1250000
