-- ===== src/Tenancy.antt =====
-- pkg/multitenancy/quota.go: quotas per tenant and day. The map of trackers is an association list with
-- the newest entry first; the date of the clock is an argument, and the lock makes each operation one
-- step. A panic is the reply `panicked`; the deferred unlock runs and the map stays as it was.
pub mod Quota
pub mod Sla
pub mod Isolation
use agentic_operator_core.Base.{
  ℕ, Bool, true, false, not, ◌||◌, Option, none, some, List, [], ◌∷◌, ◌==◌, if◌then◌else◌,
}
use agentic_operator_core.Base.Int.{ℤ, pos, ◌-ℤ◌, ltb_ℤ, leb_ℤ, incr}
use agentic_operator_core.Base.Float.{Float64, FloatOps, fgt, fge}
use agentic_operator_core.Base.Text.{Text, text_eq}

-- The fields of `TenantContext` that the quotas read.
pub record TenantContext : Type 0 where
  pub name : Text
  pub quota_per_day : ℤ
  pub cost_budget_usd : Float64

-- What is read of a time: its year and its day in the year.
pub record Date : Type 0 where
  pub year : ℕ
  pub year_day : ℕ

pub record QuotaTracker : Type 0 where
  pub tenant : TenantContext
  pub workloads_used : ℤ
  pub cost_used : Float64
  pub last_reset_date : Date

abbrev pub QuotaManager : Type 0
QuotaManager = List (Text × QuotaTracker)

pub data QuotaReply : Type 0 where
  granted tenant_not_found quota_exceeded budget_exceeded panicked : QuotaReply

unfoldable pub find_tracker : QuotaManager → Text → Option QuotaTracker
find_tracker [] name = none
find_tracker ((n, t) ∷ qm) name =
    let rest = find_tracker qm name in if text_eq n name then some t else rest

-- The tracker of a name is changed in place.
unfoldable pub set_tracker : QuotaManager → Text → QuotaTracker → QuotaManager
set_tracker [] name t = []
set_tracker ((n, u) ∷ qm) name t =
    let rest = set_tracker qm name t in if text_eq n name then (n, t) ∷ qm else (n, u) ∷ rest

unfoldable pub add_tenant : Float64 → Date → QuotaManager → TenantContext → QuotaManager
add_tenant zero_cost today qm tenant =
    (
      tenant.name,
      record {
        tenant = tenant;
        workloads_used = pos 0;
        cost_used = zero_cost;
        last_reset_date = today;
      },
    )
    ∷ qm

-- `NewQuotaManager` from the manager so far: a later tenant of the same name takes the place of one before.
unfoldable pub add_tenants : Float64 → Date → QuotaManager → List TenantContext → QuotaManager
add_tenants zero_cost today qm [] = qm
add_tenants zero_cost today qm (t ∷ l) =
    add_tenants zero_cost today (add_tenant zero_cost today qm t) l

-- The rest of `maybeReset` on the tracker that it found.
unfoldable pub start_day : Date → QuotaTracker → QuotaTracker
start_day today t =
    if not (today.year_day == t.last_reset_date.year_day)
    then record t { workloads_used = pos 0; last_reset_date = today }
    else t

-- `maybeReset`: it reads the date of the tracker that the map holds; `none` is the panic on a nil one.
unfoldable pub maybe_reset : QuotaManager → Date → Text → Option QuotaManager
maybe_reset qm today name = elim (find_tracker qm name) [
  | none ↦ none
  | some t ↦ some (set_tracker qm name (start_day today t))
]

module _ (ops : FloatOps) where
  -- The checks after the reset, and the tracker after them.
  unfoldable pub consume : QuotaTracker → Float64 → QuotaReply × QuotaTracker
  consume t cost =
      if leb_ℤ t.tenant.quota_per_day t.workloads_used
      then (quota_exceeded, t)
      else if fgt (ops.add t.cost_used cost) t.tenant.cost_budget_usd
      then (budget_exceeded, t)
      else (
        granted,
        record t { workloads_used = incr t.workloads_used; cost_used = ops.add t.cost_used cost },
      )

  -- `CheckAndConsume` after the call of `maybeReset`.
  unfoldable pub consume_of : QuotaManager → Text → Float64 → QuotaReply × QuotaManager
  consume_of qm name cost = elim (find_tracker qm name) [
    | none ↦ (tenant_not_found, qm)
    | some t ↦ let (reply, u) = consume t cost in (reply, set_tracker qm name u)
  ]

  unfoldable pub check_and_consume :
      QuotaManager → Date → Text → Float64 → QuotaReply × QuotaManager
  check_and_consume qm today name cost = elim (maybe_reset qm today name) [
    | none ↦ (panicked, qm)
    | some qm' ↦ consume_of qm' name cost
  ]

-- `Reset`; `granted` is the nil error
unfoldable pub reset : Float64 → Date → QuotaManager → Text → QuotaReply × QuotaManager
reset zero_cost today qm name = elim (find_tracker qm name) [
  | none ↦ (tenant_not_found, qm)
  | some t ↦ (
    granted,
    set_tracker qm name
        (record t { workloads_used = pos 0; cost_used = zero_cost; last_reset_date = today }),
  )
]

-- `IsExceeded` of `GetStatus`
unfoldable pub is_exceeded : QuotaTracker → Bool
is_exceeded t =
    leb_ℤ t.tenant.quota_per_day t.workloads_used || fge t.cost_used t.tenant.cost_budget_usd
