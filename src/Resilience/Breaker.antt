-- ===== src/Resilience/Breaker.antt =====
-- pkg/resilience/circuit_breaker.go: when the breaker is open.
use agentic_operator_core.Base.{
  Bool-cases, inl, inr, ◌↔◌, length, length, ℕ, suc, zero, ◌≤◌, ◌<◌, ◌+◌, false, ◌≡◌, arith, List,
  [], ◌∷◌, if◌then◌else◌,
}
use agentic_operator_core.Base.Int.{leb_ℤ, leb_ℤ, ℤ, pos, ◌<ℤ◌, ◌≤ℤ◌, max_int64}
use agentic_operator_core.Resilience.{
  closed, opened, half_open, CircuitBreaker, since, new_circuit_breaker, allow, record_success,
  record_failure,
}

-- The thresholds are at least 1 and fit in an int.
pub record IsConfigured (cb : CircuitBreaker) : Type 0 where
  pub failure : pos 1 ≤ℤ cb.failure_threshold
  pub failure_max : cb.failure_threshold ≤ℤ pos max_int64
  pub success : pos 1 ≤ℤ cb.success_threshold
  pub success_max : cb.success_threshold ≤ℤ pos max_int64

-- A closed breaker is below its failure threshold, a half-open one below its success threshold.
pub record IsValid (cb : CircuitBreaker) : Type 0 where
  pub configured : IsConfigured cb
  pub below : cb.state ≡ closed → (pos 0 ≤ℤ cb.failures) × (cb.failures <ℤ cb.failure_threshold)
  pub trying :
      cb.state ≡ half_open → (pos 0 ≤ℤ cb.successes) × (cb.successes <ℤ cb.success_threshold)

pub data Event : Type 0 where
  ask : ℤ → Event
  success : Event
  failure : ℤ → Event

abbrev pub handle : CircuitBreaker → Event → CircuitBreaker
handle cb (ask now) = (allow cb now).1
handle cb success = record_success cb
handle cb (failure now) = record_failure cb now

abbrev pub run : CircuitBreaker → List Event → CircuitBreaker
run cb [] = cb
run cb (e ∷ es) = run (handle cb e) es

handle-IsValid : (cb : CircuitBreaker) (e : Event) → IsValid cb → IsValid (handle cb e)
unfolding allow record_success record_failure
handle-IsValid cb (ask now) v = ground arith
handle-IsValid cb success v = ground arith
handle-IsValid cb (failure now) v = ground arith

run-IsValid : (cb : CircuitBreaker) (es : List Event) → IsValid cb → IsValid (run cb es)
run-IsValid cb [] v = v
run-IsValid cb (e ∷ es) v = run-IsValid (handle cb e) es (handle-IsValid cb e v)

-- Whatever requests, successes and failures come, in any order and at any times, a breaker whose
-- thresholds are between 1 and the largest int is below its failure threshold while it is closed, and
-- below its success threshold while it is half open.
pub new_circuit_breaker-IsValid :
    (zero_time f s t : ℤ) (es : List Event)
    → IsConfigured (new_circuit_breaker zero_time f s t)
    → IsValid (run (new_circuit_breaker zero_time f s t) es)
unfolding new_circuit_breaker
new_circuit_breaker-IsValid zero_time f s t es c =
    run-IsValid (new_circuit_breaker zero_time f s t) es (ground arith)

failure-opened :
    (cb : CircuitBreaker) (now : ℤ) → cb.state ≡ opened → (record_failure cb now).state ≡ opened
unfolding record_failure
failure-opened cb now h = ground arith

-- One failure of a closed breaker.
failure-closed :
    (cb : CircuitBreaker) (now : ℤ) (n : ℕ)
    → cb.state ≡ closed
    → cb.failures ≡ pos n
    → n < max_int64
    → ((record_failure cb now).state
        ≡ (if leb_ℤ cb.failure_threshold (pos (n + 1)) then opened else closed))
      × ((record_failure cb now).failures ≡ pos (n + 1))
      × ((record_failure cb now).failure_threshold ≡ cb.failure_threshold)
unfolding record_failure
failure-closed cb now n h f m = ground arith

abbrev pub fail_times : CircuitBreaker → List ℤ → CircuitBreaker
fail_times cb [] = cb
fail_times cb (now ∷ l) = fail_times (record_failure cb now) l

fail_times-stays :
    (cb : CircuitBreaker) (l : List ℤ) → cb.state ≡ opened → (fail_times cb l).state ≡ opened
fail_times-stays cb [] h = h
fail_times-stays cb (now ∷ l) h =
    fail_times-stays (record_failure cb now) l (failure-opened cb now h)

-- A closed breaker opens exactly when the failures in a row, counted with those before, reach the
-- failure threshold (all below the largest int).
fail_times-opened :
    (cb : CircuitBreaker) (n : ℕ) (l : List ℤ)
    → cb.state ≡ closed
    → cb.failures ≡ pos n
    → pos n <ℤ cb.failure_threshold
    → n + length l ≤ max_int64
    → (fail_times cb l).state
      ≡ (if leb_ℤ cb.failure_threshold (pos (n + length l)) then opened else closed)
fail_times-opened cb n [] s f b m = ground arith
fail_times-opened cb n (now ∷ l) s f b m =
    let (state, count, same) = failure-closed cb now n s f (omega arith) in
    elim (Bool-cases (leb_ℤ cb.failure_threshold (pos (n + 1)))) [
      | inl full ↦ ground (arith, fail_times-stays (record_failure cb now) l (ground arith))
      | inr room ↦ ground (
        arith,
        fail_times-opened (record_failure cb now) (n + 1) l (ground arith) count (ground arith)
            (omega arith),
      )
    ]

-- A request is refused exactly while the breaker is open and no more than the reset timeout has passed
-- since the last failure; and a refused request leaves the breaker as it was.
pub allow-refused :
    (cb : CircuitBreaker) (now : ℤ)
    → (((allow cb now).0 ≡ false)
        ↔ ((cb.state ≡ opened) × (since now cb.last_failure ≤ℤ cb.reset_timeout)))
      × ((allow cb now).0 ≡ false → (allow cb now).1 ≡ cb)
unfolding allow
allow-refused cb now = ((λ h. ground arith, λ h. ground arith), λ h. ground arith)

abbrev pub succeed_times : CircuitBreaker → ℕ → CircuitBreaker
succeed_times cb zero = cb
succeed_times cb (suc n) = succeed_times (record_success cb) n

success-half_open :
    (cb : CircuitBreaker) (n : ℕ)
    → cb.state ≡ half_open
    → cb.successes ≡ pos n
    → n < max_int64
    → ((record_success cb).state
        ≡ (if leb_ℤ cb.success_threshold (pos (n + 1)) then closed else half_open))
      × (leb_ℤ cb.success_threshold (pos (n + 1)) ≡ false
          → (record_success cb).successes ≡ pos (n + 1))
      × ((record_success cb).success_threshold ≡ cb.success_threshold)
unfolding record_success
success-half_open cb n h f m = ground arith

success-closed : (cb : CircuitBreaker) → cb.state ≡ closed → (record_success cb).state ≡ closed
unfolding record_success
success-closed cb h = ground arith

succeed_times-stays :
    (cb : CircuitBreaker) (k : ℕ) → cb.state ≡ closed → (succeed_times cb k).state ≡ closed
succeed_times-stays cb zero h = h
succeed_times-stays cb (suc k) h = succeed_times-stays (record_success cb) k (success-closed cb h)

-- A half-open breaker closes exactly when the successes in a row, counted with those before, reach the
-- success threshold (all below the largest int).
succeed_times-closed :
    (cb : CircuitBreaker) (n k : ℕ)
    → cb.state ≡ half_open
    → cb.successes ≡ pos n
    → pos n <ℤ cb.success_threshold
    → n + k ≤ max_int64
    → (succeed_times cb k).state
      ≡ (if leb_ℤ cb.success_threshold (pos (n + k)) then closed else half_open)
succeed_times-closed cb n zero s f b m = ground arith
succeed_times-closed cb n (suc k) s f b m =
    let (state, count, same) = success-half_open cb n s f (omega arith) in
    elim (Bool-cases (leb_ℤ cb.success_threshold (pos (n + 1)))) [
      | inl full ↦ ground (arith, succeed_times-stays (record_success cb) k (ground arith))
      | inr room ↦ ground (
        arith,
        succeed_times-closed (record_success cb) (n + 1) k (ground arith) (count room)
            (ground arith) (omega arith),
      )
    ]
