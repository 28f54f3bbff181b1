-- ===== src/Learned/Bounds.antt =====
-- pkg/decision/learned/learned.go: the range of the logistic function.
use native.Mathlib.Nat.{div-lt_iff_lt-mul, le-div_iff_mul-le, div-le_of_le-mul, mul-le-mul_left}
use agentic_operator_core.Base.{
  ℕ, zero, suc, ◌+◌, ◌*◌, ◌/◌, ◌%◌, ◌≤◌, ◌<◌, ◌≡◌, ◌⊎◌, arith, min, inl, inr,
}
use agentic_operator_core.Base.Int.{pos, negsuc}
use agentic_operator_core.Learned.{
  exp_scale, micro, next_term, next_sum, taylor, shrink, exp_neg, max_logit_micro, rounded,
  sigmoid_micro,
}

scaled : (a f k : ℕ) → f ≤ exp_scale → a * f ≤ exp_scale * suc k * a
scaled a f k h = let bound = mul-le-mul_left a h in omega arith

next_term-le : (k f term : ℕ) → f ≤ exp_scale → next_term (suc k) f term ≤ term
next_term-le k f term h = div-le_of_le-mul (exp_scale * suc k) (scaled term f k h)

mod-cases : (k : ℕ) → (k % 2 ≡ 0) ⊎ (k % 2 ≡ 1)
mod-cases k = omega arith

module _ (k sum term t : ℕ) (small : t ≤ term) (odd : k % 2 ≡ 0 → term ≤ sum)
    (top : sum ≤ exp_scale) (even : k % 2 ≡ 1 → sum + term ≤ exp_scale) where
  next_sum-top : next_sum (suc k) sum t ≤ exp_scale
  next_sum-top = elim (mod-cases k) [
    | inl e ↦ let b = odd e in ground arith
    | inr e ↦ let b = even e in ground arith
  ]

  next_sum-odd : suc k % 2 ≡ 0 → t ≤ next_sum (suc k) sum t
  next_sum-odd e = ground arith

  next_sum-even : suc k % 2 ≡ 1 → next_sum (suc k) sum t + t ≤ exp_scale
  next_sum-even e = let b = odd (omega arith) in ground arith

-- At most 1 as long as the terms, which shrink, are taken off and put on in turn.
taylor-le :
    (n k f sum term : ℕ)
    → f ≤ exp_scale
    → (k % 2 ≡ 0 → term ≤ sum)
    → sum ≤ exp_scale
    → (k % 2 ≡ 1 → sum + term ≤ exp_scale)
    → taylor n (suc k) f sum term ≤ exp_scale
unfolding taylor
taylor-le zero k f sum term h odd top even = top
taylor-le (suc n) k f sum term h odd top even =
    let small = next_term-le k f term h in
    let rest : taylor n (suc (suc k)) f (next_sum (suc k) sum (next_term (suc k) f term))
          (next_term (suc k) f term)
        ≤ exp_scale =
      taylor-le n (suc k) f (next_sum (suc k) sum (next_term (suc k) f term))
        (next_term (suc k) f term) h (next_sum-odd k sum term _ small odd top even)
        (next_sum-top k sum term _ small odd top even)
        (next_sum-even k sum term _ small odd top even) in
    ground (arith, rest, top)

shrink-le : (n sum : ℕ) → sum ≤ exp_scale → shrink n sum ≤ exp_scale
unfolding shrink
shrink-le zero sum h = h
shrink-le (suc n) sum h = shrink-le n _ (omega arith)

exp_neg-le : (x : ℕ) → exp_neg x ≤ exp_scale
unfolding exp_neg
exp_neg-le x = shrink-le (x / micro) _ (
    taylor-le 25 0 (x % micro * 1000) exp_scale exp_scale (omega arith) (λ e. omega arith)
      (omega arith) (λ e. absurd (omega (arith, e))))

rounded-le : (a den q : ℕ) → 0 < den → a ≤ q * den → rounded a den ≤ q
unfolding rounded
rounded-le a den q d h =
    let total = a + den / 2 in
    let bound : total / den < suc q = (div-lt_iff_lt-mul d).1 (omega arith) in omega arith

le-rounded : (a den q : ℕ) → 0 < den → q * den ≤ a + den / 2 → q ≤ rounded a den
unfolding rounded
le-rounded a den q d h = (le-div_iff_mul-le d).1 h

-- The risk of a logit is between 0 and 1, at least a half from a logit of 0 on and at most a half below.
pub sigmoid_micro-bounded :
    (n : ℕ)
    → (500000 ≤ sigmoid_micro (pos n))
      × (sigmoid_micro (pos n) ≤ micro)
      × (sigmoid_micro (negsuc n) ≤ 500000)
unfolding sigmoid_micro
sigmoid_micro-bounded n =
    let above = exp_neg-le (min n max_logit_micro) in
    let below = exp_neg-le (min (suc n) max_logit_micro) in
    (
      le-rounded _ _ 500000 (omega arith) (omega arith),
      rounded-le _ _ micro (omega arith) (omega arith),
      rounded-le _ _ 500000 (omega arith) (omega arith),
    )
