-- ===== src/Base/Json.antt =====
-- The values that encoding/json decodes into `interface{}` and that the source passes on as
-- `map[string]interface{}`; an `integer` is a Go integer that the source puts there itself, a `numeral` a
-- json.Number, and `other` a value of any other type. A `[]string` is an array of strings, and a
-- `map[string]string` an object of strings.
pub mod Equal
use agentic_operator_core.Base.Tests.{if◌then◌else◌}
use agentic_operator_core.Base.Int.{ℤ}
use agentic_operator_core.Base.Float.{Float64}
use agentic_operator_core.Base.Text.{Text, text_eq}
use mathlib.Core.Path.{◌≡◌, refl, ap}
use mathlib.Core.Bool.{Bool}
use mathlib.Core.Option.{Option, none, some}
use mathlib.Core.List.{List, [], ◌∷◌}

mutual
  pub data Json : Type 0 where
    null : Json
    boolean : Bool → Json
    number : Float64 → Json
    integer : ℤ → Json
    numeral : Text → Json
    string : Text → Json
    array : Items → Json
    object : Members → Json
    other : Json

  pub data Items : Type 0 where
    nil : Items
    item : Json → Items → Items

  -- A map: its members in the increasing order of their keys.
  pub data Members : Type 0 where
    empty : Members
    member : Text → Json → Members → Members

-- `v, ok := m[key]`
unfoldable pub member_of : Text → Members → Option Json
unfolding text_eq
member_of key empty = none
member_of key (member k v m) = let rest = member_of key m in if text_eq k key then some v else rest

-- `v, ok := j.(string)`
unfoldable pub as_string : Option Json → Option Text
as_string (some (string s)) = some s
as_string _ = none

-- A `[]string` as a JSON array.
unfoldable pub strings : List Text → Items
strings [] = nil
strings (s ∷ l) = item (string s) (strings l)

texts_of : Items → List Text
texts_of nil = []
texts_of (item (string s) l) = s ∷ texts_of l
texts_of (item _ l) = texts_of l

texts_of-strings : (l : List Text) → texts_of (strings l) ≡ l
unfolding strings texts_of
texts_of-strings [] = refl
texts_of-strings (s ∷ l) = ap (λ m. s ∷ m) (texts_of-strings l)

pub strings_injective : (l m : List Text) → strings l ≡ strings m → l ≡ m
strings_injective l m e = rw (← texts_of-strings l, ← texts_of-strings m) (ap texts_of e)
