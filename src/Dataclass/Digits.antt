-- ===== src/Dataclass/Digits.antt =====
-- pkg/dataclass/dataclass.go: the check digits of cards (Luhn) and of Aadhaar numbers (Verhoeff). The
-- loops run from the last character to the first; `table` lookups are in range on digits.
pub mod Luhn
pub mod Verhoeff
use agentic_operator_core.Base.{
  ℕ, zero, suc, ◌+◌, ◌-◌, ◌*◌, ◌%◌, Bool, true, false, not, ◌&&◌, ◌||◌, List, [], ◌∷◌, length, ltb,
  leb, ◌==◌, if◌then◌else◌,
}
use agentic_operator_core.Base.Text.{Text}

-- `isDigit`
unfoldable pub is_digit : ℕ → Bool
is_digit c = leb 48 c && leb c 57

unfoldable pub digits_only : Text → Text
digits_only [] = []
digits_only (c ∷ s) = let rest = digits_only s in if is_digit c then c ∷ rest else rest

-- `int(c - '0')` on a byte
unfoldable pub digit_of : ℕ → ℕ
digit_of c = (c + 208) % 256

unfoldable pub luhn_digit : Bool → ℕ → ℕ
luhn_digit double n = if double then (if ltb 9 (n * 2) then n * 2 - 9 else n * 2) else n

-- The sum, and whether the next digit to the left is doubled.
unfoldable pub luhn_from : Text → ℕ × Bool
luhn_from [] = (0, false)
luhn_from (c ∷ s) =
    let (sum, double) = luhn_from s in (sum + luhn_digit double (digit_of c), not double)

unfoldable pub luhn_valid : Text → Bool
luhn_valid d = if ltb (length d) 13 || ltb 19 (length d) then false else (luhn_from d).0 % 10 == 0

unfoldable pub at {ℓ} : {A : Type ℓ} → A → List A → ℕ → A
at default [] n = default
at default (a ∷ l) zero = a
at default (a ∷ l) (suc n) = at default l n

abbrev pub verhoeff_d : List (List ℕ)
verhoeff_d =
    (0 ∷ 1 ∷ 2 ∷ 3 ∷ 4 ∷ 5 ∷ 6 ∷ 7 ∷ 8 ∷ 9 ∷ [])
    ∷ (1 ∷ 2 ∷ 3 ∷ 4 ∷ 0 ∷ 6 ∷ 7 ∷ 8 ∷ 9 ∷ 5 ∷ [])
    ∷ (2 ∷ 3 ∷ 4 ∷ 0 ∷ 1 ∷ 7 ∷ 8 ∷ 9 ∷ 5 ∷ 6 ∷ [])
    ∷ (3 ∷ 4 ∷ 0 ∷ 1 ∷ 2 ∷ 8 ∷ 9 ∷ 5 ∷ 6 ∷ 7 ∷ [])
    ∷ (4 ∷ 0 ∷ 1 ∷ 2 ∷ 3 ∷ 9 ∷ 5 ∷ 6 ∷ 7 ∷ 8 ∷ [])
    ∷ (5 ∷ 9 ∷ 8 ∷ 7 ∷ 6 ∷ 0 ∷ 4 ∷ 3 ∷ 2 ∷ 1 ∷ [])
    ∷ (6 ∷ 5 ∷ 9 ∷ 8 ∷ 7 ∷ 1 ∷ 0 ∷ 4 ∷ 3 ∷ 2 ∷ [])
    ∷ (7 ∷ 6 ∷ 5 ∷ 9 ∷ 8 ∷ 2 ∷ 1 ∷ 0 ∷ 4 ∷ 3 ∷ [])
    ∷ (8 ∷ 7 ∷ 6 ∷ 5 ∷ 9 ∷ 3 ∷ 2 ∷ 1 ∷ 0 ∷ 4 ∷ [])
    ∷ (9 ∷ 8 ∷ 7 ∷ 6 ∷ 5 ∷ 4 ∷ 3 ∷ 2 ∷ 1 ∷ 0 ∷ [])
    ∷ []

abbrev pub verhoeff_p : List (List ℕ)
verhoeff_p =
    (0 ∷ 1 ∷ 2 ∷ 3 ∷ 4 ∷ 5 ∷ 6 ∷ 7 ∷ 8 ∷ 9 ∷ [])
    ∷ (1 ∷ 5 ∷ 7 ∷ 6 ∷ 2 ∷ 8 ∷ 3 ∷ 0 ∷ 9 ∷ 4 ∷ [])
    ∷ (5 ∷ 8 ∷ 0 ∷ 3 ∷ 7 ∷ 9 ∷ 6 ∷ 1 ∷ 4 ∷ 2 ∷ [])
    ∷ (8 ∷ 9 ∷ 1 ∷ 6 ∷ 0 ∷ 4 ∷ 3 ∷ 5 ∷ 2 ∷ 7 ∷ [])
    ∷ (9 ∷ 4 ∷ 5 ∷ 3 ∷ 1 ∷ 2 ∷ 6 ∷ 8 ∷ 7 ∷ 0 ∷ [])
    ∷ (4 ∷ 2 ∷ 8 ∷ 6 ∷ 5 ∷ 7 ∷ 3 ∷ 9 ∷ 0 ∷ 1 ∷ [])
    ∷ (2 ∷ 7 ∷ 9 ∷ 3 ∷ 8 ∷ 0 ∷ 6 ∷ 4 ∷ 1 ∷ 5 ∷ [])
    ∷ (7 ∷ 0 ∷ 4 ∷ 6 ∷ 9 ∷ 1 ∷ 3 ∷ 2 ∷ 5 ∷ 8 ∷ [])
    ∷ []

unfoldable pub verhoeff_step : ℕ → ℕ → ℕ → ℕ
verhoeff_step c i n = at 0 (at [] verhoeff_d c) (at 0 (at [] verhoeff_p (i % 8)) n)

-- The check value, and how many characters have been read.
unfoldable pub verhoeff_from : Text → ℕ × ℕ
verhoeff_from [] = (0, 0)
verhoeff_from (x ∷ s) = let (c, i) = verhoeff_from s in (verhoeff_step c i (digit_of x), suc i)

unfoldable pub verhoeff_valid : Text → Bool
verhoeff_valid d = if not (length d == 12) then false else (verhoeff_from d).0 == 0
