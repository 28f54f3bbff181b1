-- ===== src/Resilience/Retry.antt =====
-- pkg/resilience/retry.go: which attempt decides.
use agentic_operator_core.Base.{ℕ, zero, suc, ◌+◌, ◌≤◌, Option, none, ◌≡◌, arith}
use agentic_operator_core.Base.Int.{pos}
use agentic_operator_core.Base.Text.{Text}
use agentic_operator_core.Base.Try.{Try, ok, err}
use agentic_operator_core.Resilience.{succeeded, failed, retry_from, with_retry}

module _ {ℓ} {A : Type ℓ} (op : ℕ → Try A) (cancelled : ℕ → Option Text) where
  -- The attempts from `i` on, `n` of them, failed and their waits were not cancelled.
  abbrev pub Failing : ℕ → ℕ → Type ℓ
  Failing i zero = Unit
  Failing i (suc n) = ((e : Text) × (op i ≡ err e)) × (cancelled i ≡ none) × Failing (suc i) n

  retry_from-success :
      (left i n m : ℕ) (a : A)
      → n ≤ left
      → Failing i n
      → m ≡ n + i
      → op m ≡ ok a
      → retry_from op cancelled left i ≡ succeeded a (pos (m + 1))
  unfolding retry_from
  retry_from-success zero i zero m a l f e h = ground arith
  retry_from-success (suc left) i zero m a l f e h = ground arith
  retry_from-success zero i (suc n) m a l f e h = absurd (omega arith)
  retry_from-success (suc left) i (suc n) m a l (bad, quiet, f) e h =
      ground (arith, retry_from-success left (suc i) n m a (omega arith) f (omega arith) h)

  retry_from-failure :
      (left i m : ℕ) (x : Text)
      → Failing i left
      → m ≡ left + i
      → op m ≡ err x
      → retry_from op cancelled left i ≡ failed (pos (m + 1)) x
  unfolding retry_from
  retry_from-failure zero i m x f e h = ground arith
  retry_from-failure (suc left) i m x (bad, quiet, f) e h =
      ground (arith, retry_from-failure left (suc i) m x f (omega arith) h)

  -- The first attempt that succeeds decides, if it is one of the attempts 0 to `retries` and no wait
  -- before it was cancelled: its value is returned, with the number of attempts.
  with_retry-success :
      (exhausted : Text) (retries n : ℕ) (a : A)
      → n ≤ retries
      → Failing 0 n
      → op n ≡ ok a
      → with_retry op cancelled exhausted (pos retries) ≡ succeeded a (pos (n + 1))
  unfolding with_retry
  with_retry-success exhausted retries n a l f h =
      retry_from-success retries 0 n n a l f (omega arith) h

  -- If every attempt fails and no wait is cancelled, the last attempt's error is returned after one
  -- attempt more than there are retries.
  pub with_retry-failure :
      (exhausted : Text) (retries : ℕ) (x : Text)
      → Failing 0 retries
      → op retries ≡ err x
      → with_retry op cancelled exhausted (pos retries) ≡ failed (pos (retries + 1)) x
  unfolding with_retry
  with_retry-failure exhausted retries x f h =
      retry_from-failure retries 0 retries x f (omega arith) h
