-- ===== src/Dataclass/Scan.antt =====
-- pkg/dataclass/dataclass.go: `Scan`, the search for data classes in a JSON value under a budget of
-- bytes and nodes. The regular expressions (package regexp) and the verbs of package fmt that print
-- numbers are a parameter. The set of classes is a list without order.
pub mod Complete
pub mod Cuts
use agentic_operator_core.Base.{
  ℕ, zero, suc, ◌+◌, ◌-◌, ◌*◌, ◌%◌, Bool, true, false, not, ◌&&◌, ◌||◌, ◌==◌, Option, none, some,
  List, [], ◌∷◌, ◌++◌, length, take, drop, get_elem?, any, is_empty, ltb, leb, if◌then◌else◌,
}
use agentic_operator_core.Base.Int.{ℤ}
use agentic_operator_core.Base.Float.{Float64}
use agentic_operator_core.Base.Text.{Text, txt}
use agentic_operator_core.Base.Strings.{elem, sort_strings}
use agentic_operator_core.Base.Json.{
  Json, Items, Members, null, boolean, number, integer, numeral, string, array, object, other, nil,
  item, empty, member,
}
use agentic_operator_core.Dataclass.Digits.{is_digit, digits_only, luhn_valid, verhoeff_valid}

-- The regular expressions of the file.
pub data Pattern : Type 0 where
  email phone_intl phone_in phone_us aadhaar pan iban card : Pattern
  credential : ℕ → Pattern

-- `MatchString`, `FindAllStringIndex`, and `%.0f` and `fmt.Sprint` of numbers.
pub record Patterns : Type 0 where
  pub matches : Pattern → Text → Bool
  pub find_all : Pattern → Text → List (ℕ × ℕ)
  pub print_float : Float64 → Text
  pub print_int : ℤ → Text

abbrev pub max_depth : ℕ
max_depth = 8

abbrev pub max_string_bytes : ℕ
max_string_bytes = 65536

abbrev pub max_total_bytes : ℕ
max_total_bytes = 1048576

abbrev pub max_nodes : ℕ
max_nodes = 10000

abbrev pub is_digit_at : Text → ℕ → Bool
is_digit_at s i = elim (get_elem? s i) [ none ↦ false | some c ↦ is_digit c ]

abbrev pub is_separator_at : Text → ℕ → Bool
is_separator_at s i = elim (get_elem? s i) [ none ↦ false | some c ↦ c == 32 || c == 45 ]

-- `s[start:end]`
abbrev pub slice : Text → ℕ → ℕ → Text
slice s start stop = take (stop - start) (drop start s)

unfoldable pub isolated : Text → ℕ → ℕ → Bool
isolated s start stop =
    not (ltb 0 start && is_digit_at s (start - 1))
    && (not (ltb 1 start && (is_separator_at s (start - 1) && is_digit_at s (start - 2)))
        && (not (is_digit_at s stop) && not (is_separator_at s stop && is_digit_at s (suc stop))))

abbrev pub is_letter : ℕ → Bool
is_letter c = leb 65 c && leb c 90

-- The loop of `ibanValid`: `none` at a character that is neither digit nor capital letter.
unfoldable pub iban_rem : ℕ → Text → Option ℕ
iban_rem rem [] = some rem
iban_rem rem (c ∷ s) =
    let digit = iban_rem ((rem * 10 + (c - 48)) % 97) s in
    let letter = iban_rem ((rem * 100 + (c - 65 + 10)) % 97) s in
    if is_digit c then digit else if is_letter c then letter else none

unfoldable pub iban_valid : Text → Bool
iban_valid s =
    if ltb (length s) 15 || ltb 34 (length s)
    then false
    else elim (iban_rem 0 (drop 4 s ++ take 4 s)) [ none ↦ false | some n ↦ n == 1 ]

unfoldable pub without_spaces : Text → Text
without_spaces [] = []
without_spaces (c ∷ s) = let rest = without_spaces s in if c == 32 then rest else c ∷ rest

-- `strings.LastIndexByte` of a space.
unfoldable pub last_space : Text → Option ℕ
last_space [] = none
last_space (c ∷ s) = elim (last_space s) [
  | some i ↦ some (suc i)
  | none ↦ if c == 32 then some 0 else none
]

-- One round of the loop on `cut`; `shorter` is what follows at the space that is found.
unfoldable pub cut_round : (ℕ → Bool) → Text → Bool
cut_round shorter m =
    if is_empty m
    then false
    else if iban_valid (without_spaces m)
    then true
    else elim (last_space m) [ none ↦ false | some i ↦ shorter i ]

-- The loop; each round cuts at least one byte.
unfoldable pub any_cut : ℕ → Text → Bool
any_cut zero m = false
any_cut (suc fuel) m = cut_round (λ i. any_cut fuel (take i m)) m

-- A scan that runs: what is left of the budget, whether it was cut, and the classes found.
pub record Scanning : Type 0 where
  pub bytes : ℕ
  pub nodes : ℕ
  pub truncated : Bool
  pub found : List Text

unfoldable pub add_class : Text → List Text → List Text
add_class c l = if elem c l then l else c ∷ l

abbrev pub start : Scanning
start = record { bytes = max_total_bytes; nodes = max_nodes; truncated = false; found = [] }

module _ (p : Patterns) where
  unfoldable pub any_isolated : Text → Pattern → (Text → Bool) → Bool
  any_isolated s re ok =
      any (λ loc. isolated s loc.0 loc.1 && ok (digits_only (slice s loc.0 loc.1)))
        (p.find_all re s)

  unfoldable pub any_iban : Text → Bool
  any_iban s = any (λ loc. let m = slice s loc.0 loc.1 in any_cut (length m) m) (p.find_all iban s)

  -- The tests of `detectInto`, each with its class, in their order.
  unfoldable pub detectors : List (Text × (Text → Bool))
  detectors =
      (txt "email", p.matches email)
      ∷ (
        txt "phone",
        λ s.
            p.matches phone_intl s || (p.matches phone_us s || any_isolated s phone_in (λ d. true)),
      )
      ∷ (txt "aadhaar", λ s. any_isolated s aadhaar verhoeff_valid)
      ∷ (txt "pan", p.matches pan)
      ∷ (txt "iban", any_iban)
      ∷ (txt "card", λ s. any_isolated s card luhn_valid)
      ∷ (txt "credential", λ s. any (λ n. p.matches (credential n) s) (0 ∷ 1 ∷ 2 ∷ 3 ∷ 4 ∷ 5 ∷ []))
      ∷ []

  unfoldable pub add_detected : List (Text × (Text → Bool)) → Text → List Text → List Text
  add_detected [] s set = set
  add_detected ((c, test) ∷ l) s set = add_detected l s (if test s then add_class c set else set)

  unfoldable pub detect_into : Text → List Text → List Text × Bool
  detect_into s set =
      (add_detected detectors (take max_string_bytes s) set, leb (length s) max_string_bytes)

  -- The guard at the head of `walk`, and the node that is counted.
  unfoldable pub enter : ℕ → Scanning → (Scanning → Scanning) → Scanning
  enter depth st k =
      if ltb max_depth depth || (st.nodes == 0 || st.bytes == 0)
      then record st { truncated = true }
      else k (record st { nodes = st.nodes - 1 })

  -- The case of a string.
  unfoldable pub read_text : Text → Scanning → Scanning
  read_text s st =
      let t = take st.bytes s in
      let (found, complete) = detect_into t st.found in
      record st {
        bytes = st.bytes - length t;
        truncated = st.truncated || (ltb st.bytes (length s) || not complete);
        found = found;
      }

  -- A number is printed, and the text walked at the same depth.
  unfoldable mutual
    pub walk : Json → ℕ → Scanning → Scanning
    walk null depth st = enter depth st (λ st'. st')
    walk (boolean b) depth st = enter depth st (λ st'. st')
    walk (number x) depth st = enter depth st (λ st'. enter depth st' (read_text (p.print_float x)))
    walk (integer n) depth st = enter depth st (λ st'. enter depth st' (read_text (p.print_int n)))
    walk (numeral s) depth st = enter depth st (λ st'. enter depth st' (read_text s))
    walk other depth st = enter depth st (λ st'. record st' { truncated = true })
    walk (string s) depth st = enter depth st (read_text s)
    walk (array l) depth st = enter depth st (λ st'. walk_items l (suc depth) st')
    walk (object m) depth st = enter depth st (λ st'. walk_members m (suc depth) st')

    pub walk_items : Items → ℕ → Scanning → Scanning
    walk_items nil depth st = st
    walk_items (item j l) depth st = walk_items l depth (walk j depth st)

    pub walk_members : Members → ℕ → Scanning → Scanning
    walk_members empty depth st = st
    walk_members (member k j m) depth st = walk_members m depth (walk j depth st)

  -- The classes in order, and whether all was scanned.
  unfoldable pub scan : Json → List Text × Bool
  scan j = let st = walk j 0 start in (sort_strings st.found, not st.truncated)
