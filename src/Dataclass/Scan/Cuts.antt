-- ===== src/Dataclass/Scan/Cuts.antt =====
-- pkg/dataclass/dataclass.go: the loop of `anyIBAN` over the cuts of a match.
use agentic_operator_core.Base.{
  ℕ, zero, suc, ◌≤◌, ◌<◌, Bool, true, false, none, some, [], ◌∷◌, ◌≡◌, refl, length, take,
  length-take, is_empty, if◌then◌else◌, arith, ap, ◌==◌,
}
use agentic_operator_core.Base.Text.{Text}
use agentic_operator_core.Dataclass.Scan.{
  any_cut, cut_round, last_space, iban_valid, without_spaces,
}

last_space-bound : (m : Text) (i : ℕ) → last_space m ≡ some i → i < length m
unfolding last_space
last_space-bound [] i h = absurd (cc h)
last_space-bound (c ∷ m) i h =
    elim (last_space m)
        as (λ x.
          last_space m ≡ x
          → elim x [ some j ↦ some (suc j) | none ↦ if c == 32 then some 0 else none ] ≡ some i
          → i < suc (length m)) [
            | none ↦ λ e g. ground (arith, g)
            | some j ↦
                λ e g. let same : suc j ≡ i = cc g in omega (arith, last_space-bound m j e, same)
          ]
      refl h

cut_round-ext :
    (f g : ℕ → Bool) (m : Text)
    → ((i : ℕ) → last_space m ≡ some i → f i ≡ g i)
    → cut_round f m ≡ cut_round g m
unfolding cut_round
cut_round-ext f g m h =
    let at_space : elim (last_space m) [ none ↦ false | some i ↦ f i ]
        ≡ elim (last_space m) [ none ↦ false | some i ↦ g i ] =
      elim (last_space m)
          as (λ x.
            last_space m ≡ x
            → elim x [ none ↦ false | some i ↦ f i ] ≡ elim x [ none ↦ false | some i ↦ g i ]) [
              | none ↦ λ e. refl
              | some i ↦ λ e. h i e
            ]
        refl in
    ap (λ b. if is_empty m then false else if iban_valid (without_spaces m) then true else b)
      at_space

-- With a fuel of at least the length of the text, one more round changes nothing: the loop ends by itself.
any_cut-fuel : (fuel : ℕ) (m : Text) → length m ≤ fuel → any_cut (suc fuel) m ≡ any_cut fuel m
unfolding any_cut cut_round
any_cut-fuel zero [] h = refl
any_cut-fuel zero (c ∷ m) h = absurd (omega (arith, h))
any_cut-fuel (suc fuel) m h = cut_round-ext _ _ m (λ i e.
    any_cut-fuel fuel (take i m) (omega (arith, h, last_space-bound m i e, length-take i m)))
