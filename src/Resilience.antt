-- ===== src/Resilience.antt =====
-- pkg/resilience: the circuit breaker (circuit_breaker.go) and the retry loop (retry.go). The readings
-- of the clock are arguments, and the lock makes each operation of the breaker one step. Of a retry
-- loop the backoff (a random float) is not modelled: only whether the wait was cancelled.
pub mod Breaker
pub mod Retry
use agentic_operator_core.Base.{
  ℕ, zero, suc, ◌+◌, Bool, true, false, not, Option, none, some, if◌then◌else◌,
}
use agentic_operator_core.Base.Int.{ℤ, pos, negsuc, ◌-ℤ◌, ltb_ℤ, leb_ℤ, incr, max_int64}
use agentic_operator_core.Base.Text.{Text}
use agentic_operator_core.Base.Try.{Try, ok, err}

pub data CircuitState : Type 0 where
  closed opened half_open : CircuitState

pub record CircuitBreaker : Type 0 where
  pub failures : ℤ
  pub successes : ℤ
  pub last_failure : ℤ
  pub state : CircuitState
  pub failure_threshold : ℤ
  pub success_threshold : ℤ
  pub reset_timeout : ℤ

-- `time.Since`, which stops at the ends of an int64.
unfoldable pub since : ℤ → ℤ → ℤ
since now last =
    let d = now -ℤ last in
    if ltb_ℤ (pos max_int64) d
    then pos max_int64
    else if ltb_ℤ d (negsuc max_int64)
    then negsuc max_int64
    else d

-- `zero_time` is the reading of the zero `time.Time`.
unfoldable pub new_circuit_breaker : ℤ → ℤ → ℤ → ℤ → CircuitBreaker
new_circuit_breaker zero_time failure success timeout = record {
  failures = pos 0;
  successes = pos 0;
  last_failure = zero_time;
  state = closed;
  failure_threshold = failure;
  success_threshold = success;
  reset_timeout = timeout;
}

abbrev pub is_opened : CircuitState → Bool
is_opened opened = true
is_opened _ = false

-- `Allow`: whether the request may run (`false` is ErrCircuitOpen), and the breaker after it.
unfoldable pub allow : CircuitBreaker → ℤ → Bool × CircuitBreaker
allow cb now =
    if not (is_opened cb.state)
    then (true, cb)
    else if ltb_ℤ cb.reset_timeout (since now cb.last_failure)
    then (true, record cb { state = half_open; successes = pos 0 })
    else (false, cb)

half_open_success : CircuitBreaker → CircuitBreaker
half_open_success cb =
    if leb_ℤ cb.success_threshold (incr cb.successes)
    then record cb { successes = pos 0; state = closed; failures = pos 0 }
    else record cb { successes = incr cb.successes }

unfoldable pub record_success : CircuitBreaker → CircuitBreaker
unfolding half_open_success
record_success cb = elim cb.state [
  | half_open ↦ half_open_success cb
  | closed ↦ record cb { failures = pos 0 }
  | opened ↦ cb
]

-- The state that `RecordFailure` leaves, at the new number of failures.
state_after_failure : CircuitBreaker → ℤ → CircuitState
state_after_failure cb n = elim cb.state [
  | half_open ↦ opened
  | closed ↦ if leb_ℤ cb.failure_threshold n then opened else closed
  | opened ↦ opened
]

unfoldable pub record_failure : CircuitBreaker → ℤ → CircuitBreaker
unfolding state_after_failure
record_failure cb now = record cb {
  failures = incr cb.failures;
  last_failure = now;
  state = state_after_failure cb (incr cb.failures);
}

pub data Retried {ℓ} (A : Type ℓ) : Type ℓ where
  succeeded : A → ℤ → Retried A
  failed : ℤ → Text → Retried A

module _ {ℓ} {A : Type ℓ} (op : ℕ → Try A) (cancelled : ℕ → Option Text) where
  -- The loop of `WithRetry` from an attempt on, with the number of retries that are left. `op` gives the
  -- reply of each attempt, `cancelled` the error of the context in the wait after it.
  unfoldable pub retry_from : ℕ → ℕ → Retried A
  retry_from zero attempt = elim (op attempt) [
    | ok a ↦ succeeded a (pos (attempt + 1))
    | err e ↦ failed (pos (attempt + 1)) e
  ]
  retry_from (suc left) attempt =
      let rest = retry_from left (suc attempt) in
      elim (op attempt) [
        | ok a ↦ succeeded a (pos (attempt + 1))
        | err e ↦ elim (cancelled attempt) [ none ↦ rest | some x ↦ failed (pos (attempt + 1)) x ]
      ]

  -- `exhausted` is the error after a loop that never ran.
  unfoldable pub with_retry : Text → ℤ → Retried A
  with_retry exhausted (pos n) = retry_from n 0
  with_retry exhausted (negsuc n) = failed (incr (negsuc n)) exhausted
