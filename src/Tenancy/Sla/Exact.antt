-- ===== src/Tenancy/Sla/Exact.antt =====
-- pkg/multitenancy/sla.go: when a tenant counts as breached.
use agentic_operator_core.Base.{
  ◌+◌, ◌<◌, ◌≤◌, length, ℕ, suc, Bool, true, false, ◌&&◌, List, [], ◌∷◌, ◌≡◌, sym, arith,
  if◌then◌else◌, Bool-cases, inl, inr,
}
use agentic_operator_core.Base.Float.{Float64, FloatOps, nan, rank, flt, fle, fge}
use agentic_operator_core.Tenancy.Sla.{
  SlaTracker, new_tracker, hundred, success_rate, succeed, failed,
}

-- A float64 is exact for the integers up to this one, 2 ^ 53.
abbrev pub exact_limit : ℕ
exact_limit = 9007199254740992

-- A success does not lower the rate and a failure does not raise it, as long as the counts are exact:
-- rounding is monotone, and the rates are no NaN.
pub record IsMonotone (ops : FloatOps) : Type 0 where
  pub up :
      (s f : ℕ)
      → s + f < exact_limit
      → fle (success_rate ops s f) (success_rate ops (suc s) f) ≡ true
  pub down :
      (s f : ℕ)
      → s + f < exact_limit
      → fle (success_rate ops s (suc f)) (success_rate ops s f) ≡ true

recover :
    (x y t : Float64) (b : Bool)
    → fle x y ≡ true
    → b ≡ flt x t
    → (b && (if fge y t then false else true)) ≡ flt y t
recover nan y t b h e = absurd (ground arith)
recover (rank m) nan t b h e = absurd (ground arith)
recover (rank m) (rank n) nan b h e = ground (arith, e)
recover (rank m) (rank n) (rank k) b h e = ground (arith, e, h)

worsen : (x y t : Float64) (b : Bool) → fle y x ≡ true → b ≡ flt x t → flt y t ≡ false → b ≡ flt y t
worsen nan y t b h e g = ground (arith, e, g)
worsen (rank m) nan t b h e g = absurd (ground arith)
worsen (rank m) (rank n) nan b h e g = ground (arith, e)
worsen (rank m) (rank n) (rank k) b h e g = ground (arith, e, h, g)

-- What happens to a tracker: a success, or a failure at a time.
pub data SlaEvent : Type 0 where
  success : SlaEvent
  failure : ℕ → SlaEvent

module _ (ops : FloatOps) where
  unfoldable pub after_events : List SlaEvent → SlaTracker → SlaTracker
  after_events [] t = t
  after_events (success ∷ l) t = after_events l (succeed ops t)
  after_events (failure now ∷ l) t = after_events l (failed ops now t)

  -- Breached exactly if the rate is below the target.
  abbrev pub IsExact : SlaTracker → Type 0
  IsExact t = t.breach_detected ≡ flt (success_rate ops t.success_count t.failure_count) t.target

  module _ (m : IsMonotone ops) where
    succeed-IsExact :
        (t : SlaTracker)
        → t.success_count + t.failure_count < exact_limit
        → IsExact t
        → IsExact (succeed ops t)
    unfolding succeed
    succeed-IsExact t b h =
        recover _ _ t.target t.breach_detected (m.up t.success_count t.failure_count b) h

    failed-IsExact :
        (now : ℕ) (t : SlaTracker)
        → t.success_count + t.failure_count < exact_limit
        → IsExact t
        → IsExact (failed ops now t)
    unfolding failed
    failed-IsExact now t b h =
        elim (Bool-cases (flt (success_rate ops t.success_count (suc t.failure_count)) t.target)) [
          | inl e ↦ rw e (sym e)
          | inr e ↦
              rw e (
                worsen _ _ t.target t.breach_detected (m.down t.success_count t.failure_count b) h
                  e)
        ]

    succeed-count :
        (t : SlaTracker)
        → (succeed ops t).success_count + (succeed ops t).failure_count
          ≡ suc (t.success_count + t.failure_count)
    unfolding succeed
    succeed-count t = omega arith

    failed-count :
        (now : ℕ) (t : SlaTracker)
        → (failed ops now t).success_count + (failed ops now t).failure_count
          ≡ suc (t.success_count + t.failure_count)
    unfolding failed
    failed-count now t = ground arith

    after_events-IsExact :
        (l : List SlaEvent) (t : SlaTracker)
        → t.success_count + t.failure_count + length l ≤ exact_limit
        → IsExact t
        → IsExact (after_events l t)
    unfolding after_events
    after_events-IsExact [] t b h = h
    after_events-IsExact (success ∷ l) t b h =
        let count = succeed-count t in
        after_events-IsExact l _ (omega arith) (succeed-IsExact t (omega arith) h)
    after_events-IsExact (failure now ∷ l) t b h =
        let count = failed-count now t in
        after_events-IsExact l _ (omega arith) (failed-IsExact now t (omega arith) h)

    -- After at most 2 ^ 53 successes and failures of a new tenant whose target is not above 100 percent,
    -- the tenant counts as breached exactly if its success rate is below the target, if within that
    -- number a success never lowers the computed rate and a failure never raises it.
    pub breach-IsExact :
        (l : List SlaEvent) (target : Float64)
        → length l ≤ exact_limit
        → flt hundred target ≡ false
        → IsExact (after_events l (new_tracker target))
    unfolding success_rate
    breach-IsExact l target b h = after_events-IsExact l (new_tracker target) (omega arith) (sym h)
