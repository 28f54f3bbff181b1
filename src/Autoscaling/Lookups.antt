-- ===== src/Autoscaling/Lookups.antt =====
-- pkg/autoscaling: the constructors, the lookups, the estimate of savings, and the scaler with the monitor
-- of pkg/multitenancy. A limit below 0 is 0 here.
use mathlib.Core.List.{reverse}
use agentic_operator_core.Base.{
  ℕ, zero, suc, Bool, true, false, ◌||◌, Option, none, some, List, [], ◌∷◌, is_empty, length, ◌≤◌,
  arith,
}
use agentic_operator_core.Base.Int.{ℤ, pos}
use agentic_operator_core.Base.Float.{Float64, FloatOps, of_bits, rank, zero_rank}
use agentic_operator_core.Base.Text.{Text, text_eq}
use agentic_operator_core.Tenancy.Sla.{SlaMonitor, get_sla_status}
use agentic_operator_core.Autoscaling.{
  ScalingPolicy, ScalingEvent, AutoScaler, ModelTier, ModelSelector, find, evaluate_and_decide,
  downgrade,
}

-- 80.0, 50.0 and 95.0; 300 seconds in nanoseconds.
abbrev default_scaling_policy : ScalingPolicy
default_scaling_policy = record {
  warning_threshold = of_bits 0x4054000000000000;
  critical_threshold = of_bits 0x4049000000000000;
  healthy_threshold = of_bits 0x4057c00000000000;
  max_replicas = pos 10;
  min_replicas = pos 1;
  cooldown = pos 300000000000;
}

unfoldable new_auto_scaler : Option ScalingPolicy → AutoScaler
new_auto_scaler policy = record {
  policy = elim policy [ none ↦ default_scaling_policy | some p ↦ p ];
  last_scaling = [];
  history = [];
  current_replicas = [];
}

-- `EvaluateAndDecide` with the monitor that it reads.
unfoldable evaluate_monitored :
    FloatOps → SlaMonitor → AutoScaler → Text → ℤ → ℤ → Option ScalingEvent × AutoScaler
evaluate_monitored ops sm s name current now =
    evaluate_and_decide s name current now
      (elim (get_sla_status ops sm name) [ none ↦ none | some st ↦ some st.0 ])

abbrev is_of : Text → ScalingEvent → Bool
is_of name e = is_empty name || text_eq e.tenant_name name

-- The first events of the tenant, at most so many.
unfoldable select_events : ℕ → Text → List ScalingEvent → List ScalingEvent
select_events zero name l = []
select_events (suc n) name [] = []
select_events (suc n) name (e ∷ l) = elim (is_of name e) [
  | true ↦ e ∷ select_events n name l
  | false ↦ select_events (suc n) name l
]

unfoldable get_scaling_history : AutoScaler → Text → ℕ → List ScalingEvent
get_scaling_history s name limit = select_events limit name (reverse s.history)

unfoldable get_current_replicas : AutoScaler → Text → ℤ
get_current_replicas s name = elim (find s.current_replicas name) [ none ↦ pos 0 | some n ↦ n ]

-- `CostSavings`, with the price of a tier, 0 where it has none; the constant is 1_000_000.
unfoldable cost_savings : FloatOps → (ModelTier → Float64) → ModelSelector → Float64 × ModelSelector
cost_savings ops price ms =
    let (cheaper, ms') = downgrade ms in
    (
      elim cheaper [
        | none ↦ rank zero_rank
        | some t ↦ ops.mul (ops.sub (price ms.current_tier) (price t)) (of_bits 0x412e848000000000)
      ],
      ms',
    )

-- The history that is shown is never longer than its limit.
select_events-bound :
    (n : ℕ) (name : Text) (l : List ScalingEvent) → length (select_events n name l) ≤ n
unfolding select_events
select_events-bound zero name l = omega arith
select_events-bound (suc n) name [] = omega arith
select_events-bound (suc n) name (e ∷ l) =
    let hit = select_events-bound n name l in
    let miss = select_events-bound (suc n) name l in ground arith
