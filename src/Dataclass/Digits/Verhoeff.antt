-- ===== src/Dataclass/Digits/Verhoeff.antt =====
-- pkg/dataclass/dataclass.go: `verhoeffValid` on a mistyped digit and on two that are swapped.
use agentic_operator_core.Base.{
  ◌∙◌, sym, ap, sym, ap, inl, inr, Bool-cases, All, Bool-cases, ℕ, zero, suc, ◌%◌, ◌<◌, ◌++◌, Bool,
  true, false, not, ◌&&◌, ◌||◌, [], ◌∷◌, ◌≡◌, ◌≢◌, refl, arith, length, ◌==◌, ltb,
}
use agentic_operator_core.Base.Text.{Text}
use agentic_operator_core.Dataclass.Digits.{
  is_digit, digit_of, at, verhoeff_step, verhoeff_from, verhoeff_valid,
}

abbrev all_below : ℕ → (ℕ → Bool) → Bool
all_below zero p = true
all_below (suc n) p = all_below n p && p n

all_below_sound : (n : ℕ) (p : ℕ → Bool) → all_below n p ≡ true → (i : ℕ) → i < n → p i ≡ true
all_below_sound (suc n) p checked i bound = elim (Bool-cases (i == n)) [
  | inr earlier ↦ all_below_sound n p (ground arith) i (ground arith)
  | inl last ↦ let e : i ≡ n = ground arith in rw e (ground arith)
]
all_below_sound zero p checked i bound = absurd (omega arith)

-- In range; a different digit leaves a different check value; so does a different check value; and so
-- does a swap with the digit before.
abbrev step_test : ℕ → ℕ → ℕ → ℕ → Bool
step_test c i m n =
    ltb (verhoeff_step c i m) 10
    && ((m == n || not (verhoeff_step c i m == verhoeff_step c i n))
        && ((c == n || not (verhoeff_step c i m == verhoeff_step n i m))
            && (m == n
                || not (
                    verhoeff_step (verhoeff_step c i m) (suc i) n
                    == verhoeff_step (verhoeff_step c i n) (suc i) m))))

tables-checked :
    all_below 10 (λ c. all_below 8 (λ i. all_below 10 (λ m. all_below 10 (step_test c i m)))) ≡ true
unfolding verhoeff_step at
tables-checked = refl

step-mod : (c i n : ℕ) → verhoeff_step c (i % 8) n ≡ verhoeff_step c i n
unfolding verhoeff_step
step-mod c i n = let e : i % 8 % 8 ≡ i % 8 = omega arith in rw e refl

step-mod_suc : (c i n : ℕ) → verhoeff_step c (suc (i % 8)) n ≡ verhoeff_step c (suc i) n
unfolding verhoeff_step
step-mod_suc c i n = let e : suc (i % 8) % 8 ≡ suc i % 8 = omega arith in rw e refl

step_test-holds : (c i m n : ℕ) → c < 10 → m < 10 → n < 10 → step_test c (i % 8) m n ≡ true
step_test-holds c i m n a b d =
    all_below_sound 10 (step_test c (i % 8) m)
      (all_below_sound 10 (λ m. all_below 10 (step_test c (i % 8) m))
        (all_below_sound 8 (λ i. all_below 10 (λ m. all_below 10 (step_test c i m)))
          (all_below_sound 10
            (λ c. all_below 8 (λ i. all_below 10 (λ m. all_below 10 (step_test c i m))))
            tables-checked c a)
          (i % 8) (omega arith))
        m b)
      n d

record StepLaws (c i m n : ℕ) : Type 0 where
  small : verhoeff_step c i m < 10
  digit : m ≢ n → verhoeff_step c i m ≢ verhoeff_step c i n
  value : c ≢ n → verhoeff_step c i m ≢ verhoeff_step n i m
  swap :
      m ≢ n
      → verhoeff_step (verhoeff_step c i m) (suc i) n
        ≢ verhoeff_step (verhoeff_step c i n) (suc i) m

step-StepLaws : (c i m n : ℕ) → c < 10 → m < 10 → n < 10 → StepLaws c i m n
step-StepLaws c i m n a b d =
    let t = step_test-holds c i m n a b d in
    let e1 = step-mod c i m in
    let e2 = step-mod c i n in
    let e3 = step-mod n i m in
    let e4 = step-mod_suc (verhoeff_step c i m) i n in
    let e5 = step-mod_suc (verhoeff_step c i n) i m in
    let u : step_test c i m n ≡ true = rw (← e4, ← e5, ← e1, ← e2, ← e3) t in
    record {
      small = ground arith;
      digit = λ ne. ground arith;
      value = λ ne. ground arith;
      swap = λ ne. ground arith;
    }

digit-small : (c : ℕ) → is_digit c ≡ true → digit_of c < 10
unfolding is_digit digit_of
digit-small c h = ground arith

digit-injective :
    (c d : ℕ) → is_digit c ≡ true → is_digit d ≡ true → c ≢ d → digit_of c ≢ digit_of d
unfolding is_digit digit_of
digit-injective c d h k ne = ground arith

verhoeff_from-small : (s : Text) → All (λ c. is_digit c ≡ true) s → (verhoeff_from s).0 < 10
unfolding verhoeff_from
verhoeff_from-small [] h = omega arith
verhoeff_from-small (x ∷ s) (dx, h) =
    (step-StepLaws (verhoeff_from s).0 (verhoeff_from s).1 (digit_of x) 0 (verhoeff_from-small s h)
      (digit-small x dx) (omega arith)).small

-- Two texts of one length whose check values differ.
record IsApart (s t : Text) : Type 0 where
  left : (verhoeff_from s).0 < 10
  right : (verhoeff_from t).0 < 10
  index : (verhoeff_from s).1 ≡ (verhoeff_from t).1
  value : (verhoeff_from s).0 ≢ (verhoeff_from t).0
  long : length s ≡ length t

cons-IsApart : (x : ℕ) (s t : Text) → is_digit x ≡ true → IsApart s t → IsApart (x ∷ s) (x ∷ t)
unfolding verhoeff_from
cons-IsApart x s t h a =
    let m = digit-small x h in
    let i = (verhoeff_from s).1 in
    let c = (verhoeff_from s).0 in
    let n = (verhoeff_from t).0 in
    let here = step-StepLaws c i (digit_of x) n a.left m a.right in
    record {
      left = here.small;
      right = (step-StepLaws n (verhoeff_from t).1 (digit_of x) c a.right m a.left).small;
      index = ap suc a.index;
      value = λ q. here.value a.value (q ∙ ap (λ j. verhoeff_step n j (digit_of x)) (sym a.index));
      long = omega (arith, a.long);
    }

append-IsApart :
    (p s t : Text) → All (λ c. is_digit c ≡ true) p → IsApart s t → IsApart (p ++ s) (p ++ t)
append-IsApart [] s t h a = a
append-IsApart (x ∷ p) s t (dx, h) a =
    cons-IsApart x (p ++ s) (p ++ t) dx (append-IsApart p s t h a)

valid-apart : (s t : Text) → IsApart s t → verhoeff_valid s ≡ true → verhoeff_valid t ≡ false
unfolding verhoeff_valid
valid-apart s t a h = ground (arith, a.long, a.value)

-- One wrong digit in a number that passes the Verhoeff check makes it fail.
pub verhoeff_valid-wrong_digit :
    (p s : Text) (c d : ℕ)
    → All (λ x. is_digit x ≡ true) p
    → All (λ x. is_digit x ≡ true) s
    → is_digit c ≡ true
    → is_digit d ≡ true
    → c ≢ d
    → verhoeff_valid (p ++ c ∷ s) ≡ true
    → verhoeff_valid (p ++ d ∷ s) ≡ false
unfolding verhoeff_from
verhoeff_valid-wrong_digit p s c d hp hs x y ne =
    let small = verhoeff_from-small s hs in
    let i = (verhoeff_from s).1 in
    let one =
      step-StepLaws (verhoeff_from s).0 i (digit_of c) (digit_of d) small (digit-small c x)
        (digit-small d y) in
    let two =
      step-StepLaws (verhoeff_from s).0 i (digit_of d) (digit_of c) small (digit-small d y)
        (digit-small c x) in
    let apart : IsApart (c ∷ s) (d ∷ s) = record {
      left = one.small;
      right = two.small;
      index = refl;
      value = one.digit (digit-injective c d x y ne);
      long = refl;
    } in
    valid-apart (p ++ c ∷ s) (p ++ d ∷ s) (append-IsApart p (c ∷ s) (d ∷ s) hp apart)

-- Two different neighbouring digits that are swapped in a number that passes the Verhoeff check make
-- it fail.
pub verhoeff_valid-swapped :
    (p s : Text) (c d : ℕ)
    → All (λ x. is_digit x ≡ true) p
    → All (λ x. is_digit x ≡ true) s
    → is_digit c ≡ true
    → is_digit d ≡ true
    → c ≢ d
    → verhoeff_valid (p ++ c ∷ d ∷ s) ≡ true
    → verhoeff_valid (p ++ d ∷ c ∷ s) ≡ false
unfolding verhoeff_from
verhoeff_valid-swapped p s c d hp hs x y ne =
    let small = verhoeff_from-small s hs in
    let i = (verhoeff_from s).1 in
    let laws =
      step-StepLaws (verhoeff_from s).0 i (digit_of d) (digit_of c) small (digit-small d y)
        (digit-small c x) in
    let apart : IsApart (c ∷ d ∷ s) (d ∷ c ∷ s) = record {
      left = verhoeff_from-small (c ∷ d ∷ s) (x, (y, hs));
      right = verhoeff_from-small (d ∷ c ∷ s) (y, (x, hs));
      index = refl;
      value = laws.swap (digit-injective d c y x (λ q. ne (sym q)));
      long = refl;
    } in
    valid-apart (p ++ c ∷ d ∷ s) (p ++ d ∷ c ∷ s)
      (append-IsApart p (c ∷ d ∷ s) (d ∷ c ∷ s) hp apart)
