-- ===== src/Autoscaling/Scaler.antt =====
-- pkg/autoscaling/scaler.go: bounds, history and cooldown.
use agentic_operator_core.Base.{
  ℕ, zero, suc, ◌≤◌, ◌+◌, Option, none, some, List, [], ◌∷◌, ◌++◌, length, length-append, ◌≡◌, refl,
  arith, true, false, ◌⊎◌,
}
use agentic_operator_core.Base.Int.{incr, ℤ, ◌≤ℤ◌, ◌<ℤ◌}
use agentic_operator_core.Base.Float.{Float64}
use agentic_operator_core.Base.Text.{Text, text_eq_refl}
use agentic_operator_core.Resilience.{since}
use agentic_operator_core.Autoscaling.{
  decr, AutoScaler, ScalingEvent, ScalingPolicy, normal, cooldown, choose, clamp, extend,
  drop_first, find, is_in_cooldown, decide_scaling, evaluate_and_decide, is_normal,
}

clamp-bounds :
    (value low high : ℤ)
    → low ≤ℤ high
    → (low ≤ℤ clamp value low high) × (clamp value low high ≤ℤ high)
unfolding clamp
clamp-bounds value low high h = ground arith

-- Whatever the success rate and the current number of replicas, a decision to scale stays between the
-- policy's smallest and largest number of replicas; a normal one keeps the current number.
choose-bounds :
    (p : ScalingPolicy) (rate : Float64) (current : ℤ)
    → p.min_replicas ≤ℤ p.max_replicas
    → (((choose p rate current).0 ≡ normal) × ((choose p rate current).1 ≡ current))
      ⊎ ((p.min_replicas ≤ℤ (choose p rate current).1)
          × ((choose p rate current).1 ≤ℤ p.max_replicas))
unfolding choose
choose-bounds p rate current h = ground (
  arith,
  clamp-bounds (incr (incr current)) p.min_replicas p.max_replicas h,
  clamp-bounds (incr current) p.min_replicas p.max_replicas h,
  clamp-bounds (decr current) p.min_replicas p.max_replicas h,
)

length-drop_first {ℓ} : {A : Type ℓ} (n : ℕ) (l : List A) → length (drop_first n l) ≤ length l
unfolding drop_first
length-drop_first zero l = omega arith
length-drop_first (suc n) [] = omega arith
length-drop_first (suc n) (a ∷ l) = omega (arith, length-drop_first n l)

drop_first-shorter {ℓ} :
    {A : Type ℓ} (n : ℕ) (l : List A) → n ≤ length l → length (drop_first n l) + n ≡ length l
unfolding drop_first
drop_first-shorter zero l h = omega arith
drop_first-shorter (suc n) [] h = absurd (omega arith)
drop_first-shorter (suc n) (a ∷ l) h = omega (arith, drop_first-shorter n l (omega arith))

length-extend :
    (h : List ScalingEvent) (e : ScalingEvent) → length h ≤ 1000 → length (extend h e) ≤ 1000
unfolding extend
length-extend h e b = ground (arith, length-append h (e ∷ []), drop_first-shorter 500 (h ++ e ∷ []))

-- The history of events never grows past 1000, whatever is decided.
evaluate_and_decide-history :
    (s : AutoScaler) (name : Text) (current now : ℤ) (rate : Option Float64)
    → length s.history ≤ 1000
    → length (evaluate_and_decide s name current now rate).1.history ≤ 1000
unfolding evaluate_and_decide decide_scaling
evaluate_and_decide-history s name current now none h = h
evaluate_and_decide-history s name current now (some rate) h = ground (
  arith,
  length-extend s.history
      (record {
        tenant_name = name;
        trigger = (choose s.policy rate current).0;
        previous_replicas = current;
        new_replicas = (choose s.policy rate current).1;
        success_rate = rate;
      })
      h,
)

scaled :
    (s : AutoScaler) (name : Text) (current now : ℤ) (rate : Float64)
    → is_in_cooldown s name now ≡ false
    → is_normal (choose s.policy rate current).0 ≡ false
    → ((evaluate_and_decide s name current now (some rate)).1.last_scaling
        ≡ (name, now) ∷ s.last_scaling)
      × ((evaluate_and_decide s name current now (some rate)).1.policy ≡ s.policy)
unfolding evaluate_and_decide decide_scaling is_in_cooldown
scaled s name current now rate free big = rw (free, big) (refl, refl)

find-first : (name : Text) (now : ℤ) (l : List (Text × ℤ)) → find ((name, now) ∷ l) name ≡ some now
unfolding find
find-first name now l = ground (arith, text_eq_refl name)

recent :
    (s : AutoScaler) (name : Text) (now later : ℤ) (l : List (Text × ℤ))
    → s.last_scaling ≡ (name, now) ∷ l
    → since later now <ℤ s.policy.cooldown
    → is_in_cooldown s name later ≡ true
unfolding is_in_cooldown
recent s name now later l e soon =
    let f : find s.last_scaling name ≡ some now = rw e (find-first name now l) in ground arith

cooled :
    (s : AutoScaler) (name : Text) (current now : ℤ) (rate : Float64)
    → is_in_cooldown s name now ≡ true
    → (e : ScalingEvent) × ((evaluate_and_decide s name current now (some rate)).0 ≡ some e)
      × (e.trigger ≡ cooldown)
      × ((evaluate_and_decide s name current now (some rate)).1.history ≡ s.history)
      × ((evaluate_and_decide s name current now (some rate)).1.last_scaling ≡ s.last_scaling)
unfolding evaluate_and_decide is_in_cooldown
cooled s name current now rate h = rw h (_, refl, refl, refl, refl)

-- After a decision to scale a tenant at `now`, a decision on that tenant at any time less than the
-- cooldown later scales nothing: it is a cooldown event, and it changes neither the history nor the
-- time of the last scaling.
pub evaluate_and_decide-cooldown :
    (s : AutoScaler) (name : Text) (current again now later : ℤ) (rate next : Float64)
    → is_in_cooldown s name now ≡ false
    → is_normal (choose s.policy rate current).0 ≡ false
    → since later now <ℤ s.policy.cooldown
    → let after = (evaluate_and_decide s name current now (some rate)).1 in
      (e : ScalingEvent) × ((evaluate_and_decide after name again later (some next)).0 ≡ some e)
      × (e.trigger ≡ cooldown)
      × ((evaluate_and_decide after name again later (some next)).1.history ≡ after.history)
      × ((evaluate_and_decide after name again later (some next)).1.last_scaling
          ≡ after.last_scaling)
unfolding find
evaluate_and_decide-cooldown s name current again now later rate next free big soon =
    cooled (evaluate_and_decide s name current now (some rate)).1 name again later next (
      recent _ name now later s.last_scaling (scaled s name current now rate free big).0
        (rw (scaled s name current now rate free big).1 soon))
