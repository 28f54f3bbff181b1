-- ===== src/Autoscaling.antt =====
-- pkg/autoscaling/scaler.go and model_selector.go. The reading of the clock and the tenant's success rate
-- (none where the monitor does not know the tenant) are arguments of a decision; the cooldown is the
-- duration that the source computes from seconds. An event's time and reason are left out.
pub mod Scaler
pub mod Selector
pub mod Lookups
use agentic_operator_core.Base.{
  ℕ, zero, suc, ◌+◌, Bool, true, false, not, ◌&&◌, ◌||◌, Option, none, some, List, [], ◌∷◌, ◌++◌,
  length, ltb, ◌==◌, if◌then◌else◌,
}
use agentic_operator_core.Base.Int.{ℤ, pos, negsuc, ltb_ℤ, incr, max_int64}
use agentic_operator_core.Base.Float.{Float64, flt, fgt}
use agentic_operator_core.Base.Text.{Text, text_eq}
use agentic_operator_core.Resilience.{since}

pub record ScalingPolicy : Type 0 where
  pub warning_threshold : Float64
  pub critical_threshold : Float64
  pub healthy_threshold : Float64
  pub max_replicas : ℤ
  pub min_replicas : ℤ
  pub cooldown : ℤ

pub data Trigger : Type 0 where
  cooldown critical warning healthy normal : Trigger

pub record ScalingEvent : Type 0 where
  pub tenant_name : Text
  pub trigger : Trigger
  pub previous_replicas : ℤ
  pub new_replicas : ℤ
  pub success_rate : Float64

pub record AutoScaler : Type 0 where
  pub policy : ScalingPolicy
  pub last_scaling : List (Text × ℤ)
  pub history : List ScalingEvent
  pub current_replicas : List (Text × ℤ)

-- `x - 1` on a 64-bit int
unfoldable pub decr : ℤ → ℤ
decr (pos zero) = negsuc zero
decr (pos (suc n)) = pos n
decr (negsuc n) = if n == max_int64 then pos max_int64 else negsuc (n + 1)

unfoldable pub clamp : ℤ → ℤ → ℤ → ℤ
clamp value low high = if ltb_ℤ value low then low else if ltb_ℤ high value then high else value

unfoldable pub find {ℓ} : {A : Type ℓ} → List (Text × A) → Text → Option A
find [] name = none
find ((n, a) ∷ l) name = let rest = find l name in if text_eq n name then some a else rest

unfoldable pub is_in_cooldown : AutoScaler → Text → ℤ → Bool
is_in_cooldown s name now = elim (find s.last_scaling name) [
  | none ↦ false
  | some t ↦ ltb_ℤ (since now t) s.policy.cooldown
]

unfoldable pub drop_first {ℓ} : {A : Type ℓ} → ℕ → List A → List A
drop_first zero l = l
drop_first (suc n) [] = []
drop_first (suc n) (a ∷ l) = drop_first n l

-- The history with one more event, trimmed.
unfoldable pub extend : List ScalingEvent → ScalingEvent → List ScalingEvent
extend h e = if ltb 1000 (length (h ++ e ∷ [])) then drop_first 500 (h ++ e ∷ []) else h ++ e ∷ []

-- The trigger of a success rate, and the replicas that it asks for.
unfoldable pub choose : ScalingPolicy → Float64 → ℤ → Trigger × ℤ
choose p rate current =
    if flt rate p.critical_threshold
    then (critical, clamp (incr (incr current)) p.min_replicas p.max_replicas)
    else if flt rate p.warning_threshold
    then (warning, clamp (incr current) p.min_replicas p.max_replicas)
    else if fgt rate p.healthy_threshold
    then (healthy, clamp (decr current) p.min_replicas p.max_replicas)
    else (normal, current)

abbrev pub is_normal : Trigger → Bool
is_normal normal = true
is_normal _ = false

-- The decision outside of a cooldown.
unfoldable pub decide_scaling : AutoScaler → Text → ℤ → ℤ → Float64 → ScalingEvent × AutoScaler
decide_scaling s name current now rate =
    let c = choose s.policy rate current in
    let e : ScalingEvent = record {
      tenant_name = name;
      trigger = c.0;
      previous_replicas = current;
      new_replicas = c.1;
      success_rate = rate;
    } in
    (
      e,
      record s {
        last_scaling = if is_normal c.0 then s.last_scaling else (name, now) ∷ s.last_scaling;
        history = extend s.history e;
      },
    )

-- `EvaluateAndDecide`; `none` is the monitor's error.
unfoldable pub evaluate_and_decide :
    AutoScaler → Text → ℤ → ℤ → Option Float64 → Option ScalingEvent × AutoScaler
evaluate_and_decide s name current now none = (none, s)
evaluate_and_decide s name current now (some rate) =
    let s' = record s { current_replicas = (name, current) ∷ s.current_replicas } in
    if is_in_cooldown s' name now
    then (
      some (record {
        tenant_name = name;
        trigger = cooldown;
        previous_replicas = pos 0;
        new_replicas = pos 0;
        success_rate = rate;
      }),
      s',
    )
    else let d = decide_scaling s' name current now rate in (some d.0, d.1)

-- The tiers of `ModelTier`; `other` is any other string.
pub data ModelTier : Type 0 where
  cheap medium expensive : ModelTier
  other : Text → ModelTier

pub record ModelSelector : Type 0 where
  pub current_tier : ModelTier
  pub has_cheap : Bool
  pub has_medium : Bool
  pub has_expensive : Bool

-- `Downgrade` and `Upgrade`: the tier, or none on an error, and the selector.
unfoldable pub downgrade : ModelSelector → Option ModelTier × ModelSelector
downgrade ms = elim ms.current_tier [
  | expensive ↦
      if ms.has_medium
      then (some medium, record ms { current_tier = medium })
      else if ms.has_cheap
      then (some cheap, record ms { current_tier = cheap })
      else (none, ms)
  | medium ↦ if ms.has_cheap then (some cheap, record ms { current_tier = cheap }) else (none, ms)
  | _ ↦ (none, ms)
]

unfoldable pub upgrade : ModelSelector → Option ModelTier × ModelSelector
upgrade ms = elim ms.current_tier [
  | cheap ↦
      if ms.has_medium
      then (some medium, record ms { current_tier = medium })
      else if ms.has_expensive
      then (some expensive, record ms { current_tier = expensive })
      else (none, ms)
  | medium ↦
      if ms.has_expensive
      then (some expensive, record ms { current_tier = expensive })
      else (none, ms)
  | _ ↦ (none, ms)
]
