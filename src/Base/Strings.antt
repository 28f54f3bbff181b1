-- ===== src/Base/Strings.antt =====
-- What the source calls of package strings and package sort. White space is that of ASCII.
use agentic_operator_core.Base.Tests.{ltb, leb, ◌==◌, if◌then◌else◌}
use agentic_operator_core.Base.Lists.{length, drop, any}
use agentic_operator_core.Base.Text.{Text, text_eq}
use Prim.Native.Nat.{ℕ, zero, suc, ◌+◌, ◌-◌, ◌/◌, ◌%◌}
use mathlib.Core.Bool.{Bool, true, false, ◌&&◌, ◌||◌}
use mathlib.Core.Option.{Option, none, some}
use mathlib.Core.List.{List, [], ◌∷◌, ◌++◌, reverse}

is_upper : ℕ → Bool
is_upper c = leb b'A' c && leb c b'Z'

lower : ℕ → ℕ
unfolding is_upper
lower c = if is_upper c then c + 32 else c

-- the white space of ASCII
unfoldable pub is_space : ℕ → Bool
is_space c = c == 32 || (leb 9 c && leb c 13)

-- drops the leading bytes that pass
unfoldable pub trim_left : (ℕ → Bool) → Text → Text
trim_left p [] = []
trim_left p (c ∷ s) = let rest = trim_left p s in if p c then rest else c ∷ s

-- drops the trailing bytes that pass
unfoldable pub trim_right : (ℕ → Bool) → Text → Text
unfolding trim_left
trim_right p s = reverse (trim_left p (reverse s))

-- strings.TrimSpace
unfoldable pub trim_space : Text → Text
unfolding trim_left trim_right is_space
trim_space s = trim_right is_space (trim_left is_space s)

-- strings.HasPrefix s p
unfoldable pub has_prefix : Text → Text → Bool
has_prefix s [] = true
has_prefix [] (c ∷ p) = false
has_prefix (a ∷ s) (c ∷ p) = (a == c) && has_prefix s p

-- The case of letters: those of ASCII byte by byte, and the runes of other bytes that have a letter of
-- ASCII for a counterpart, each with its letter. Any other rune stays as it is.
special : List (Text × ℕ) → Text → Option (ℕ × ℕ)
unfolding has_prefix
special [] s = none
special ((r, c) ∷ l) s =
    let rest = special l s in if has_prefix s r then some (length r, c) else rest

fold_case : List (Text × ℕ) → Text → Text
unfolding special lower
fold_case l [] = []
fold_case l (c ∷ s) =
    let rest = fold_case l s in
    elim (special l (c ∷ s)) [ none ↦ lower c ∷ rest | some (size, d) ↦ d ∷ drop (size - 1) rest ]

-- The signs of Kelvin (U+212A), of the dotted capital i (U+0130) and of the long s (U+017F).
abbrev kelvin : Text × ℕ
kelvin = (226 ∷ 132 ∷ 170 ∷ [], b'k')

abbrev dotted_i : Text × ℕ
dotted_i = (196 ∷ 176 ∷ [], b'i')

abbrev long_s : Text × ℕ
long_s = (197 ∷ 191 ∷ [], b's')

-- strings.ToLower
unfoldable pub to_lower : Text → Text
unfolding fold_case
to_lower s = fold_case (kelvin ∷ dotted_i ∷ []) s

-- strings.EqualFold
unfoldable pub equal_fold : Text → Text → Bool
unfolding fold_case text_eq
equal_fold s t = text_eq (fold_case (kelvin ∷ long_s ∷ []) s) (fold_case (kelvin ∷ long_s ∷ []) t)

-- strings.HasSuffix s p
unfoldable pub has_suffix : Text → Text → Bool
unfolding has_prefix
has_suffix s p = has_prefix (reverse s) (reverse p)

-- strings.Contains s p
unfoldable pub contains : Text → Text → Bool
unfolding has_prefix
contains [] p = has_prefix [] p
contains (c ∷ s) p = has_prefix (c ∷ s) p || contains s p

-- strings.Join
unfoldable pub join : Text → List Text → Text
join sep [] = []
join sep (s ∷ []) = s
join sep (s ∷ t ∷ l) = s ++ (sep ++ join sep (t ∷ l))

-- the byte-wise order of strings
unfoldable pub text_le : Text → Text → Bool
text_le [] t = true
text_le (a ∷ s) [] = false
text_le (a ∷ s) (b ∷ t) = let rest = text_le s t in if a == b then rest else ltb a b

unfoldable pub insert_text : Text → List Text → List Text
unfolding text_le
insert_text s [] = s ∷ []
insert_text s (t ∷ l) = let rest = insert_text s l in if text_le s t then s ∷ t ∷ l else t ∷ rest

-- sort.Strings
unfoldable pub sort_strings : List Text → List Text
unfolding insert_text
sort_strings [] = []
sort_strings (s ∷ l) = insert_text s (sort_strings l)

-- Membership of a text in a list, as the source's loops test it.
unfoldable pub elem : Text → List Text → Bool
unfolding text_eq
elem t = any (text_eq t)

decimal_from : ℕ → ℕ → Text → Text
decimal_from zero n acc = acc
decimal_from (suc f) n acc =
    let rest = decimal_from f (n / 10) ((48 + n % 10) ∷ acc) in
    if ltb n 10 then (48 + n) ∷ acc else rest

-- A number below 10 ^ 20 in decimal, as `%d` prints it.
unfoldable pub decimal : ℕ → Text
unfolding decimal_from
decimal n = decimal_from 20 n []

-- strings.Cut s sep: the parts around the first separator, or all of the text and nothing.
unfoldable pub cut : Text → Text → Text × Text × Bool
unfolding has_prefix
cut [] sep = if has_prefix [] sep then ([], [], true) else ([], [], false)
cut (c ∷ s) sep =
    let (before, after, found) = cut s sep in
    if has_prefix (c ∷ s) sep
    then ([], drop (length sep) (c ∷ s), true)
    else (c ∷ before, after, found)

push_word : Text → List Text → List Text
push_word [] words = words
push_word (c ∷ w) words = (c ∷ w) ∷ words

fields_from : (ℕ → Bool) → Text → Text → List Text
unfolding push_word
fields_from sep word [] = push_word (reverse word) []
fields_from sep word (c ∷ s) =
    let stop = push_word (reverse word) (fields_from sep [] s) in
    let go = fields_from sep (c ∷ word) s in if sep c then stop else go

-- strings.FieldsFunc
unfoldable pub fields : (ℕ → Bool) → Text → List Text
unfolding fields_from
fields sep = fields_from sep []
