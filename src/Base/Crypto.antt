-- ===== src/Base/Crypto.antt =====
-- SHA-256 and HMAC-SHA-256 as parameters, what is documented of their outputs, and package hex.
use agentic_operator_core.Base.Tests.{ltb, leb, if◌then◌else◌}
use agentic_operator_core.Base.Lists.{length, All}
use agentic_operator_core.Base.Text.{Text, text-dec}
use Prim.Native.Nat.{ℕ, ◌+◌, ◌-◌, ◌*◌, ◌/◌, ◌%◌, ◌<◌}
use mathlib.Core.Path.{◌≡◌, refl, ap}
use mathlib.Core.Logic.{◌≢◌, ◌⊎◌, inl, inr}
use mathlib.Core.Bool.{◌&&◌}
use mathlib.Core.List.{[], ◌∷◌}
use mathlib.Core.Option.{Option, none, some}
use native.Mathlib.Omega.{arith}

pub record Crypto : Type 0 where
  pub sha256 : Text → Text
  pub hmac : Text → Text → Text

-- A digest is 32 bytes.
pub record IsDigest (s : Text) : Type 0 where
  pub size : length s ≡ 32
  pub bytes : All (λ b. b < 256) s

-- Two texts with one digest.
abbrev pub Collision : (Text → Text) → Type 0
Collision f = (s : Text) × (t : Text) × (s ≢ t) × (f s ≡ f t)

pub equal_or_Collision : (f : Text → Text) (s t : Text) → f s ≡ f t → (s ≡ t) ⊎ Collision f
equal_or_Collision f s t e = elim (text-dec s t) [ inl p ↦ inl p | inr n ↦ inr (s, t, n, e) ]

digit : ℕ → ℕ
digit n = if ltb n 10 then 48 + n else 87 + n

undigit : ℕ → Option ℕ
undigit c =
    if leb 48 c && leb c 57
    then some (c - 48)
    else if leb 97 c && leb c 102
    then some (c - 87)
    else if leb 65 c && leb c 70
    then some (c - 55)
    else none

-- hex.EncodeToString
unfoldable pub hex_encode : Text → Text
unfolding digit
hex_encode [] = []
hex_encode (b ∷ s) = digit (b / 16) ∷ digit (b % 16) ∷ hex_encode s

byte_of : Option ℕ → Option ℕ → Option Text → Option Text
byte_of (some h) (some l) (some s) = some ((h * 16 + l) ∷ s)
byte_of _ _ _ = none

-- hex.DecodeString, `none` on an error
unfoldable pub hex_decode : Text → Option Text
unfolding byte_of undigit
hex_decode [] = some []
hex_decode (h ∷ []) = none
hex_decode (h ∷ l ∷ s) = byte_of (undigit h) (undigit l) (hex_decode s)

undigit-digit : (n : ℕ) → n < 16 → undigit (digit n) ≡ some n
unfolding undigit digit
undigit-digit n h = ground arith

pub hex_decode-encode : (s : Text) → All (λ b. b < 256) s → hex_decode (hex_encode s) ≡ some s
unfolding hex_decode hex_encode
hex_decode-encode [] h = refl
hex_decode-encode (b ∷ s) h = rw (undigit-digit (b / 16) (omega arith)) (
    rw (undigit-digit (b % 16) (omega arith))
      (rw (hex_decode-encode s h.1) (ap (λ x. some (x ∷ s)) (omega arith))))

pub length-hex_encode : (s : Text) → length (hex_encode s) ≡ 2 * length s
unfolding hex_encode
length-hex_encode [] = omega arith
length-hex_encode (b ∷ s) = omega (arith, length-hex_encode s)

digit-pos : (n : ℕ) → 0 < digit n
unfolding digit
digit-pos n = ground arith

-- No byte of a hexadecimal text is NUL.
pub hex_encode-pos : (s : Text) → All (λ b. 0 < b) (hex_encode s)
unfolding hex_encode
hex_encode-pos [] = tt
hex_encode-pos (b ∷ s) = (digit-pos (b / 16), (digit-pos (b % 16), hex_encode-pos s))

digit-ascii : (n : ℕ) → n < 16 → digit n < 128
unfolding digit
digit-ascii n h = ground arith

pub hex_encode-ascii : (s : Text) → All (λ b. b < 256) s → All (λ b. b < 128) (hex_encode s)
unfolding hex_encode
hex_encode-ascii [] h = tt
hex_encode-ascii (b ∷ s) h = (
  digit-ascii (b / 16) (omega arith),
  (digit-ascii (b % 16) (omega arith), hex_encode-ascii s h.1),
)
