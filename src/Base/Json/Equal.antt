-- ===== src/Base/Json/Equal.antt =====
-- Equality of JSON values is decided.
use agentic_operator_core.Base.Tests.{◌==◌, ==_iff}
use agentic_operator_core.Base.Int.{ℤ, pos, negsuc}
use agentic_operator_core.Base.Float.{Float64, nan, rank}
use agentic_operator_core.Base.Text.{text_eq, eq_of_text_eq, text_eq_refl}
use agentic_operator_core.Base.Json.{
  Json, Items, Members, null, boolean, number, integer, numeral, string, array, object, other, nil,
  item, empty, member,
}
use mathlib.Core.Path.{◌≡◌, refl, ap}
use mathlib.Core.Logic.{◌≢◌, ◌⊎◌, inl, inr}
use mathlib.Core.Bool.{Bool, true, false, ◌&&◌}
use native.Mathlib.Omega.{arith}

abbrev bool_eq : Bool → Bool → Bool
bool_eq true true = true
bool_eq false false = true
bool_eq _ _ = false

abbrev float_eq : Float64 → Float64 → Bool
float_eq nan nan = true
float_eq (rank m) (rank n) = m == n
float_eq _ _ = false

abbrev int_eq : ℤ → ℤ → Bool
int_eq (pos m) (pos n) = m == n
int_eq (negsuc m) (negsuc n) = m == n
int_eq _ _ = false

unfoldable mutual
  json_eq : Json → Json → Bool
  json_eq null null = true
  json_eq (boolean a) (boolean b) = bool_eq a b
  json_eq (number x) (number y) = float_eq x y
  json_eq (integer a) (integer b) = int_eq a b
  json_eq (string s) (string t) = text_eq s t
  json_eq (numeral s) (numeral t) = text_eq s t
  json_eq other other = true
  json_eq (array l) (array m) = items_eq l m
  json_eq (object l) (object m) = members_eq l m
  json_eq _ _ = false

  items_eq : Items → Items → Bool
  items_eq nil nil = true
  items_eq (item a l) (item b m) = json_eq a b && items_eq l m
  items_eq _ _ = false

  members_eq : Members → Members → Bool
  members_eq empty empty = true
  members_eq (member k a l) (member q b m) = text_eq k q && (json_eq a b && members_eq l m)
  members_eq _ _ = false

bool_eq_refl : (a : Bool) → bool_eq a a ≡ true
bool_eq_refl true = refl
bool_eq_refl false = refl

float_eq_refl : (x : Float64) → float_eq x x ≡ true
float_eq_refl nan = refl
float_eq_refl (rank n) = ground arith

int_eq_refl : (a : ℤ) → int_eq a a ≡ true
int_eq_refl (pos n) = ground arith
int_eq_refl (negsuc n) = ground arith

mutual
  unfolding json_eq items_eq members_eq

  json_eq_refl : (j : Json) → json_eq j j ≡ true
  json_eq_refl null = refl
  json_eq_refl (boolean a) = bool_eq_refl a
  json_eq_refl (number x) = float_eq_refl x
  json_eq_refl (integer a) = int_eq_refl a
  json_eq_refl (string s) = text_eq_refl s
  json_eq_refl (numeral s) = text_eq_refl s
  json_eq_refl other = refl
  json_eq_refl (array l) = items_eq_refl l
  json_eq_refl (object m) = members_eq_refl m

  items_eq_refl : (l : Items) → items_eq l l ≡ true
  items_eq_refl nil = refl
  items_eq_refl (item a l) = rw (json_eq_refl a, items_eq_refl l) refl

  members_eq_refl : (m : Members) → members_eq m m ≡ true
  members_eq_refl empty = refl
  members_eq_refl (member k a m) = rw (text_eq_refl k, json_eq_refl a, members_eq_refl m) refl

eq_of_bool_eq : (a b : Bool) → bool_eq a b ≡ true → a ≡ b
eq_of_bool_eq true true h = refl
eq_of_bool_eq false false h = refl
eq_of_bool_eq true false h = absurd (ground arith)
eq_of_bool_eq false true h = absurd (ground arith)

eq_of_float_eq : (x y : Float64) → float_eq x y ≡ true → x ≡ y
eq_of_float_eq nan nan h = refl
eq_of_float_eq (rank m) (rank n) h = ap rank ((==_iff m n).0 h)
eq_of_float_eq nan (rank n) h = absurd (ground arith)
eq_of_float_eq (rank m) nan h = absurd (ground arith)

eq_of_int_eq : (a b : ℤ) → int_eq a b ≡ true → a ≡ b
eq_of_int_eq (pos m) (pos n) h = ap pos ((==_iff m n).0 h)
eq_of_int_eq (negsuc m) (negsuc n) h = ap negsuc ((==_iff m n).0 h)
eq_of_int_eq (pos m) (negsuc n) h = absurd (ground arith)
eq_of_int_eq (negsuc m) (pos n) h = absurd (ground arith)

both : (a b : Bool) → (a && b) ≡ true → (a ≡ true) × (b ≡ true)
both a b h = ground arith

mutual
  unfolding json_eq items_eq members_eq

  eq_of_json_eq : (j k : Json) → json_eq j k ≡ true → j ≡ k
  eq_of_json_eq null null h = refl
  eq_of_json_eq (boolean a) (boolean b) h = ap boolean (eq_of_bool_eq a b h)
  eq_of_json_eq (number x) (number y) h = ap number (eq_of_float_eq x y h)
  eq_of_json_eq (integer a) (integer b) h = ap integer (eq_of_int_eq a b h)
  eq_of_json_eq (string s) (string t) h = ap string (eq_of_text_eq s t h)
  eq_of_json_eq (numeral s) (numeral t) h = ap numeral (eq_of_text_eq s t h)
  eq_of_json_eq other other h = refl
  eq_of_json_eq (array l) (array m) h = ap array (eq_of_items_eq l m h)
  eq_of_json_eq (object l) (object m) h = ap object (eq_of_members_eq l m h)
  eq_of_json_eq _ _ h = absurd (ground arith)

  eq_of_items_eq : (l m : Items) → items_eq l m ≡ true → l ≡ m
  eq_of_items_eq nil nil h = refl
  eq_of_items_eq (item a l) (item b m) h =
      let (x, y) = both (json_eq a b) (items_eq l m) h in
      rw (eq_of_json_eq a b x, eq_of_items_eq l m y) refl
  eq_of_items_eq _ _ h = absurd (ground arith)

  eq_of_members_eq : (l m : Members) → members_eq l m ≡ true → l ≡ m
  eq_of_members_eq empty empty h = refl
  eq_of_members_eq (member k a l) (member q b m) h =
      let (x, yz) = both (text_eq k q) (json_eq a b && members_eq l m) h in
      let (y, z) = both (json_eq a b) (members_eq l m) yz in
      rw (eq_of_text_eq k q x, eq_of_json_eq a b y, eq_of_members_eq l m z) refl
  eq_of_members_eq _ _ h = absurd (ground arith)

pub json-dec : (j k : Json) → (j ≡ k) ⊎ (j ≢ k)
json-dec j k =
    elim (json_eq j k) as (λ b. json_eq j k ≡ b → (j ≡ k) ⊎ (j ≢ k)) [
      | true ↦ λ h. inl (eq_of_json_eq j k h)
      | false ↦ λ h. inr (λ e. ground (arith, json_eq_refl j, ap (λ x. json_eq j x) e))
    ]
      refl
