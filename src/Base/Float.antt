-- ===== src/Base/Float.antt =====
-- Go's `float64`, as far as the source compares it. A value that is not a NaN stands for its rank
-- among these values in increasing order, the two zeros with one rank, so the comparisons below are
-- those of IEEE 754 on all values. A literal is given by its bits. Arithmetic is a parameter.
use agentic_operator_core.Base.Tests.{ltb, leb}
use agentic_operator_core.Base.Int.{ℤ}
use Prim.Native.Nat.{ℕ, ◌+◌}
use mathlib.Core.Bool.{Bool, false}

pub data Float64 : Type 0 where
  nan : Float64
  rank : ℕ → Float64

-- The rank of zero: below it stand the negative values, minus infinity first.
abbrev pub zero_rank : ℕ
zero_rank = 0x7ff0000000000000

-- The value with sign bit 0 and these bits.
abbrev pub of_bits : ℕ → Float64
of_bits b = rank (zero_rank + b)

abbrev pub flt : Float64 → Float64 → Bool
flt nan y = false
flt (rank m) nan = false
flt (rank m) (rank n) = ltb m n

abbrev pub fle : Float64 → Float64 → Bool
fle nan y = false
fle (rank m) nan = false
fle (rank m) (rank n) = leb m n

-- `a > b` and `a >= b`.
abbrev pub fgt : Float64 → Float64 → Bool
fgt x y = flt y x

abbrev pub fge : Float64 → Float64 → Bool
fge x y = fle y x

-- Arithmetic of the language on `float64`; none of its laws are assumed.
pub record FloatOps : Type 0 where
  pub add : Float64 → Float64 → Float64
  pub sub : Float64 → Float64 → Float64
  pub mul : Float64 → Float64 → Float64
  pub div : Float64 → Float64 → Float64
  pub of_int : ℤ → Float64
