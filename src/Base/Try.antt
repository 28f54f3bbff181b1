-- ===== src/Base/Try.antt =====
-- Go's `(value, error)` results: a value, or an error by its message.
use agentic_operator_core.Base.Text.{Text}
use mathlib.Core.Path.{◌≡◌, refl}
use mathlib.Core.Path.{subst}

pub data Try {ℓ} (A : Type ℓ) : Type ℓ where
  ok : A → Try A
  err : Text → Try A

infixl 5 ◌>>=◌
-- `if err != nil { return err }`
abbrev pub ◌>>=◌ {ℓ κ} : {A : Type ℓ} {B : Type κ} (result : Try A) (rest : A → Try B) → Try B
err message >>= rest = err message
ok value >>= rest = rest value

pub ok_injective {ℓ} : {A : Type ℓ} (a b : A) → ok a ≡ ok b → a ≡ b
ok_injective a b h = cc h

>>=-ok {ℓ κ} :
    {A : Type ℓ} {B : Type κ} (t : Try A) (k : A → Try B) (b : B)
    → (t >>= k) ≡ ok b
    → (a : A) × (t ≡ ok a) × (k a ≡ ok b)
>>=-ok (ok a) k b h = (a, refl, h)
>>=-ok (err e) k b h = absurd (cc h)

-- Whatever the result, if it is no error, has the property.
pub record Holds {ℓ κ} {A : Type ℓ} (P : A → Type κ) (t : Try A) : Type (ℓ ⊔ κ) where
  pub holds : (a : A) → t ≡ ok a → P a

pub ok-Holds {ℓ κ} : {A : Type ℓ} {P : A → Type κ} (a : A) → P a → Holds P (ok a)
ok-Holds {P} a p = record { holds = λ b h. subst P (ok_injective a b h) p }

pub err-Holds {ℓ κ} : {A : Type ℓ} {P : A → Type κ} (e : Text) → Holds P (err e)
err-Holds e = record { holds = λ b h. absurd (cc h) }

pub >>=-Holds {ℓ κ μ} :
    {A : Type ℓ} {B : Type κ} {P : B → Type μ} (t : Try A) (k : A → Try B)
    → ((a : A) → t ≡ ok a → Holds P (k a))
    → Holds P (t >>= k)
>>=-Holds t k f = record { holds = λ b h. let (a, e, g) = >>=-ok t k b h in (f a e).holds b g }
