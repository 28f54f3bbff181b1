-- ===== src/Learned.antt =====
-- pkg/decision/learned/learned.go: the logistic function of the learned model in integers. All numbers are
-- counts of 10 ^ -9 or, with `micro`, of 10 ^ -6.
pub mod Bounds
use agentic_operator_core.Base.{ℕ, zero, suc, ◌+◌, ◌-◌, ◌*◌, ◌/◌, ◌%◌, ◌==◌, min, if◌then◌else◌}
use agentic_operator_core.Base.Int.{ℤ, pos, negsuc}

-- `expScale`, `MicroScale`, `eInv` and `maxLogitMicro`
abbrev pub exp_scale : ℕ
exp_scale = 1000000000

abbrev pub micro : ℕ
micro = 1000000

abbrev pub e_inv : ℕ
e_inv = 367879441

abbrev pub max_logit_micro : ℕ
max_logit_micro = 30000000

abbrev pub next_term : ℕ → ℕ → ℕ → ℕ
next_term k f term = term * f / (exp_scale * k)

-- A term is taken off in the odd rounds and put on in the even ones.
abbrev pub next_sum : ℕ → ℕ → ℕ → ℕ
next_sum k sum term = if k % 2 == 1 then sum - term else sum + term

-- The rounds of the Taylor series of e ^ -f from round k on, `n` of them at most.
unfoldable pub taylor : (n k f sum term : ℕ) → ℕ
taylor zero k f sum term = sum
taylor (suc n) k f sum term =
    let t = next_term k f term in
    let rest = taylor n (suc k) f (next_sum k sum t) t in if t == 0 then sum else rest

-- The product with e ^ -1, n times.
unfoldable pub shrink : (n sum : ℕ) → ℕ
shrink zero sum = sum
shrink (suc n) sum = shrink n (sum * e_inv / exp_scale)

unfoldable pub exp_neg : ℕ → ℕ
exp_neg x = shrink (x / micro) (taylor 25 1 (x % micro * 1000) exp_scale exp_scale)

unfoldable pub rounded : (a den : ℕ) → ℕ
rounded a den = (a + den / 2) / den

unfoldable pub sigmoid_micro : ℤ → ℕ
sigmoid_micro (pos n) = rounded (exp_scale * micro) (exp_scale + exp_neg (min n max_logit_micro))
sigmoid_micro (negsuc n) =
    let e = exp_neg (min (suc n) max_logit_micro) in rounded (e * micro) (exp_scale + e)
