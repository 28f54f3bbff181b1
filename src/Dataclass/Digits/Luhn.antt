-- ===== src/Dataclass/Digits/Luhn.antt =====
-- pkg/dataclass/dataclass.go: `luhnValid` on a mistyped digit.
use agentic_operator_core.Base.{
  ℕ, ◌+◌, ◌<◌, ◌++◌, Bool, true, false, [], ◌∷◌, ◌≡◌, ◌≢◌, refl, arith,
}
use agentic_operator_core.Base.Text.{Text}
use agentic_operator_core.Dataclass.Digits.{is_digit, digit_of, luhn_digit, luhn_from, luhn_valid}

digit-small : (c : ℕ) → is_digit c ≡ true → (digit_of c < 10) × (c ≡ 48 + digit_of c)
unfolding is_digit digit_of
digit-small c h = ground arith

luhn_digit-injective :
    (double : Bool) (m n : ℕ) → m < 10 → n < 10 → luhn_digit double m ≡ luhn_digit double n → m ≡ n
unfolding luhn_digit
luhn_digit-injective double m n a b h = ground arith

luhn_digit-small : (double : Bool) (m : ℕ) → m < 10 → luhn_digit double m < 10
unfolding luhn_digit
luhn_digit-small double m a = ground arith

-- The two sums differ by the two digits.
luhn_from-differ :
    (p s : Text) (c d : ℕ)
    → ((luhn_from (p ++ c ∷ s)).1 ≡ (luhn_from (p ++ d ∷ s)).1)
      × ((luhn_from (p ++ c ∷ s)).0 + luhn_digit (luhn_from s).1 (digit_of d)
          ≡ (luhn_from (p ++ d ∷ s)).0 + luhn_digit (luhn_from s).1 (digit_of c))
unfolding luhn_from
luhn_from-differ [] s c d = (refl, omega arith)
luhn_from-differ (x ∷ p) s c d =
    let (a, b) = luhn_from-differ p s c d in (ground arith, rw a (omega (arith, b)))

-- One wrong digit in a card number that passes the Luhn check makes it fail.
pub luhn_valid-wrong_digit :
    (p s : Text) (c d : ℕ)
    → is_digit c ≡ true
    → is_digit d ≡ true
    → c ≢ d
    → luhn_valid (p ++ c ∷ s) ≡ true
    → luhn_valid (p ++ d ∷ s) ≡ false
unfolding luhn_valid
luhn_valid-wrong_digit p s c d x y ne h =
    let (same, sums) = luhn_from-differ p s c d in
    let (c10, cd) = digit-small c x in
    let (d10, dd) = digit-small d y in
    ground (
      arith,
      sums,
      luhn_digit-injective (luhn_from s).1 (digit_of c) (digit_of d) c10 d10,
      luhn_digit-small (luhn_from s).1 (digit_of c) c10,
      luhn_digit-small (luhn_from s).1 (digit_of d) d10,
    )
