-- ===== src/Scenarios/Tenants.antt =====
-- Examples for the properties of quotas, of the scaler and of the selector of models.
use agentic_operator_core.Base.{
  ℕ, ◌++◌, inr, inl, if◌then◌else◌, true, false, none, some, [], ◌∷◌, ◌≡◌, ◌≢◌, List, refl, ◌↔◌,
  arith,
}
use agentic_operator_core.Base.Int.{ltb_ℤ, pos, ◌<ℤ◌}
use agentic_operator_core.Base.Float.{zero_rank, fle, Float64, FloatOps, fgt}
use agentic_operator_core.Base.Text.{Text, txt, text_eq}
use agentic_operator_core.Resilience.{since}
use agentic_operator_core.Tenancy.Quota.Daily.{IsBounded, run_day, run_day-IsBounded}
use agentic_operator_core.Tenancy.{
  Date, tenant_not_found, QuotaTracker, QuotaManager, find_tracker, check_and_consume, granted,
  panicked,
}
use agentic_operator_core.Tenancy.Quota.{check_and_consume-granted_iff, check_and_consume-panicked}
use agentic_operator_core.Tenancy.Sla.{hundred, success_rate, new_tracker}
use agentic_operator_core.Tenancy.Sla.Exact.{
  IsMonotone, IsExact, success, failure, after_events, breach-IsExact,
}
use agentic_operator_core.Tenancy.Isolation.{
  Tenant, Resolver, inactive, find_tenant, set_tenant, get_tenant, extract_from_namespace,
  validate_tenant, deactivate_tenant, namespace_prefix,
}
use agentic_operator_core.Tenancy.Isolation.Closed.{deactivate_tenant-refused}
use agentic_operator_core.Autoscaling.{
  ScalingPolicy, AutoScaler, ScalingEvent, ModelSelector, expensive, cooldown, choose,
  is_in_cooldown, evaluate_and_decide, find,
}
use agentic_operator_core.Autoscaling.Scaler.{evaluate_and_decide-cooldown}

-- Floats whose operations return their first argument.
abbrev plain_ops : FloatOps
plain_ops = record {
  add = λ x y. x;
  sub = λ x y. x;
  mul = λ x y. x;
  div = λ x y. x;
  of_int = λ n. Float64.rank 5;
}

abbrev acme : QuotaTracker
acme = record {
  tenant = record { name = txt "acme"; quota_per_day = pos 2; cost_budget_usd = Float64.rank 9 };
  workloads_used = pos 1;
  cost_used = Float64.rank 7;
  last_reset_date = record { year = 2026; year_day = 12 };
}

abbrev tenants : QuotaManager
tenants = (txt "acme", acme) ∷ []

known : find_tracker tenants (txt "acme") ≡ some acme
unfolding find_tracker text_eq
known = refl

abbrev today : Date
today = record { year = 2026; year_day = 12 }

abbrev calls : List (Text × Float64)
calls =
    (txt "acme", Float64.rank 6)
    ∷ (txt "globex", Float64.rank 6)
    ∷ (txt "acme", Float64.rank 6)
    ∷ []

run_day-IsBounded_example :
    IsBounded plain_ops today
      (txt "acme")
      (pos 2)
      1
      (run_day plain_ops today (txt "acme") tenants calls)
run_day-IsBounded_example =
    run_day-IsBounded plain_ops today (txt "acme") calls tenants 1 acme known refl (omega arith)
      (omega arith)

check_and_consume-granted_iff_example :
    (today.year_day ≡ acme.last_reset_date.year_day
      → ((check_and_consume plain_ops tenants today (txt "acme") (Float64.rank 6)).0 ≡ granted)
        ↔ ((pos 1 <ℤ pos 2) × (fgt (Float64.rank 7) (Float64.rank 9) ≡ false)))
    × (today.year_day ≢ acme.last_reset_date.year_day
        → ((check_and_consume plain_ops tenants today (txt "acme") (Float64.rank 6)).0 ≡ granted)
          ↔ ((pos 0 <ℤ pos 2) × (fgt (Float64.rank 7) (Float64.rank 9) ≡ false)))
    × ((check_and_consume plain_ops tenants today (txt "acme") (Float64.rank 6)).0 ≡ granted
        → (u : QuotaTracker) × (find_tracker
              (check_and_consume plain_ops tenants today (txt "acme") (Float64.rank 6)).1
              (txt "acme")
            ≡ some u)
          × (u.cost_used ≡ Float64.rank 7))
    × ((other : Text)
        → text_eq (txt "acme") other ≡ false
        → find_tracker
            (check_and_consume plain_ops tenants today (txt "acme") (Float64.rank 6)).1
            other
          ≡ find_tracker tenants other)
check_and_consume-granted_iff_example =
    check_and_consume-granted_iff plain_ops tenants today (txt "acme") (Float64.rank 6) acme known

check_and_consume-panicked_example :
    ((check_and_consume plain_ops tenants today (txt "nobody") (Float64.rank 6)).0
      ≢ tenant_not_found)
    × (((check_and_consume plain_ops tenants today (txt "nobody") (Float64.rank 6)).0 ≡ panicked)
        ↔ (find_tracker tenants (txt "nobody") ≡ none))
check_and_consume-panicked_example =
    check_and_consume-panicked plain_ops tenants today (txt "nobody") (Float64.rank 6)

abbrev policy : ScalingPolicy
policy = record {
  warning_threshold = Float64.rank 80;
  critical_threshold = Float64.rank 50;
  healthy_threshold = Float64.rank 95;
  max_replicas = pos 10;
  min_replicas = pos 1;
  cooldown = pos 300;
}

abbrev scaler : AutoScaler
scaler = record { policy = policy; last_scaling = []; history = []; current_replicas = [] }

abbrev after : AutoScaler
after = (evaluate_and_decide scaler (txt "acme") (pos 9) (pos 50) (some (Float64.rank 40))).1

evaluate_and_decide-cooldown_example :
    (e : ScalingEvent) × ((evaluate_and_decide after
        (txt "acme")
        (pos 10)
        (pos 60)
        (some (Float64.rank 40))).0
      ≡ some e)
    × (e.trigger ≡ cooldown)
    × ((evaluate_and_decide after (txt "acme") (pos 10) (pos 60) (some (Float64.rank 40))).1.history
        ≡ after.history)
    × ((evaluate_and_decide after
          (txt "acme")
          (pos 10)
          (pos 60)
          (some (Float64.rank 40))).1.last_scaling
        ≡ after.last_scaling)
unfolding is_in_cooldown find choose since
evaluate_and_decide-cooldown_example =
    evaluate_and_decide-cooldown scaler (txt "acme") (pos 9) (pos 10) (pos 50) (pos 60)
      (Float64.rank 40) (Float64.rank 40) refl refl (omega arith)

abbrev selector : ModelSelector
selector = record {
  current_tier = expensive;
  has_cheap = true;
  has_medium = false;
  has_expensive = true;
}

-- Floats that tell no success from some.
abbrev rough_ops : FloatOps
rough_ops = record plain_ops {
  mul = λ x y. if fle x (Float64.rank zero_rank) then x else y;
  of_int = λ n. if ltb_ℤ (pos 0) n then hundred else Float64.rank zero_rank;
}

rough-IsMonotone : IsMonotone rough_ops
unfolding success_rate
rough-IsMonotone = record { up = λ s f b. ground arith; down = λ s f b. ground arith }

breach-IsExact_example :
    IsExact rough_ops
      (after_events rough_ops (failure 3 ∷ success ∷ failure 8 ∷ []) (new_tracker hundred))
breach-IsExact_example =
    breach-IsExact rough_ops rough-IsMonotone (failure 3 ∷ success ∷ failure 8 ∷ []) hundred
      (omega arith) refl

abbrev customer : Tenant
customer = record {
  name = txt "acme";
  namespace = txt "agentic-customer-acme";
  license = some 90;
  updated_at = 3;
  is_active = true;
}

abbrev resolver : Resolver
resolver = (txt "acme", customer) ∷ []

abbrev closed : Resolver
closed = (txt "acme", record customer { is_active = false; updated_at = 7 }) ∷ []

acme-deactivated : deactivate_tenant 7 resolver (txt "acme") ≡ inr closed
unfolding deactivate_tenant get_tenant find_tenant set_tenant text_eq
acme-deactivated = refl

deactivate_tenant-refused_example :
    (get_tenant closed (txt "acme") ≡ inl (inactive (txt "acme")))
    × (extract_from_namespace closed (namespace_prefix ++ txt "acme") ≡ inl (inactive (txt "acme")))
    × ((later : ℕ) → validate_tenant later closed (txt "acme") ≡ inl (inactive (txt "acme")))
    × ((other : Text)
        → text_eq (txt "acme") other ≡ false
        → get_tenant closed other ≡ get_tenant resolver other)
deactivate_tenant-refused_example =
    deactivate_tenant-refused 7 resolver closed (txt "acme") refl acme-deactivated
