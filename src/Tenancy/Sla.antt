-- ===== src/Tenancy/Sla.antt =====
-- pkg/multitenancy/sla.go: the service level of a tenant and its breaches. The clock is an argument; the
-- monitor's map of trackers is that of the quotas, and the lock makes each operation one step.
pub mod Exact
use agentic_operator_core.Base.{
  ℕ, suc, ◌+◌, ◌==◌, Bool, true, false, ◌&&◌, Option, none, some, List, [], ◌∷◌, if◌then◌else◌,
}
use agentic_operator_core.Base.Int.{ℤ, pos}
use agentic_operator_core.Base.Float.{Float64, FloatOps, of_bits, flt, fge}
use agentic_operator_core.Base.Text.{Text, text_eq}

pub record SlaTracker : Type 0 where
  pub target : Float64
  pub success_count : ℕ
  pub failure_count : ℕ
  pub breach_count : ℕ
  pub last_breach : Option ℕ
  pub breach_detected : Bool

-- `trackers`: each name has one tracker.
abbrev pub SlaMonitor : Type 0
SlaMonitor = List (Text × SlaTracker)

-- 100.0
abbrev pub hundred : Float64
hundred = of_bits 0x4059000000000000

abbrev pub new_tracker : Float64 → SlaTracker
new_tracker target = record {
  target = target;
  success_count = 0;
  failure_count = 0;
  breach_count = 0;
  last_breach = none;
  breach_detected = false;
}

unfoldable pub find_sla : SlaMonitor → Text → Option SlaTracker
find_sla [] name = none
find_sla ((n, t) ∷ sm) name = let rest = find_sla sm name in if text_eq n name then some t else rest

-- A tracker is changed in place.
unfoldable pub set_sla : SlaMonitor → Text → SlaTracker → SlaMonitor
set_sla [] name t = []
set_sla ((n, u) ∷ sm) name t =
    let rest = set_sla sm name t in if text_eq n name then (n, t) ∷ sm else (n, u) ∷ rest

-- The tracker of a name that is there is replaced.
unfoldable pub add_sla_tenant : SlaMonitor → Text → Float64 → SlaMonitor
add_sla_tenant sm name target = elim (find_sla sm name) [
  | none ↦ (name, new_tracker target) ∷ sm
  | some t ↦ set_sla sm name (new_tracker target)
]

unfoldable pub add_sla_tenants : SlaMonitor → List (Text × Float64) → SlaMonitor
add_sla_tenants sm [] = sm
add_sla_tenants sm ((name, target) ∷ l) = add_sla_tenants (add_sla_tenant sm name target) l

unfoldable pub new_sla_monitor : List (Text × Float64) → SlaMonitor
new_sla_monitor l = add_sla_tenants [] l

unfoldable pub get_breached_tenants : SlaMonitor → List Text
get_breached_tenants [] = []
get_breached_tenants ((n, t) ∷ sm) =
    let rest = get_breached_tenants sm in if t.breach_detected then n ∷ rest else rest

module _ (ops : FloatOps) where
  -- `calcSuccessRate`
  unfoldable pub success_rate : ℕ → ℕ → Float64
  success_rate s f =
      if s + f == 0
      then hundred
      else ops.mul (ops.div (ops.of_int (pos s)) (ops.of_int (pos (s + f)))) hundred

  unfoldable pub succeed : SlaTracker → SlaTracker
  succeed t = record t {
    success_count = suc t.success_count;
    breach_detected =
        t.breach_detected
        && (if fge (success_rate (suc t.success_count) t.failure_count) t.target
            then false
            else true);
  }

  unfoldable pub failed : ℕ → SlaTracker → SlaTracker
  failed now t =
      let t' : SlaTracker = record t { failure_count = suc t.failure_count } in
      if flt (success_rate t.success_count (suc t.failure_count)) t.target
      then record t' {
        last_breach = some now;
        breach_count = suc t.breach_count;
        breach_detected = true;
      }
      else t'

  -- `RecordSuccess` and `RecordFailure`: `none` is ErrTenantNotFound.
  unfoldable pub record_sla_success : SlaMonitor → Text → Option SlaMonitor
  record_sla_success sm name = elim (find_sla sm name) [
    | none ↦ none
    | some t ↦ some (set_sla sm name (succeed t))
  ]

  unfoldable pub record_sla_failure : ℕ → SlaMonitor → Text → Option SlaMonitor
  record_sla_failure now sm name = elim (find_sla sm name) [
    | none ↦ none
    | some t ↦ some (set_sla sm name (failed now t))
  ]

  -- `GetStatus`, but for the name of the tenant.
  unfoldable pub get_sla_status : SlaMonitor → Text → Option (Float64 × SlaTracker)
  get_sla_status sm name = elim (find_sla sm name) [
    | none ↦ none
    | some t ↦ some (success_rate t.success_count t.failure_count, t)
  ]
