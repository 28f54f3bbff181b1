-- ===== src/Threshold/Verbs.antt =====
-- No action is both destructive and read-only: both lists are compared with the first word.
use agentic_operator_core.Base.{
  Bool, true, false, not, ◌&&◌, List, [], ◌∷◌, ◌++◌, ◌≡◌, refl, arith, inl, inr, All, if◌then◌else◌,
  ◌==◌, Bool-cases,
}
use agentic_operator_core.Base.Text.{Text, txt, text_eq, text_eq_iff, eq_of_text_eq}
use agentic_operator_core.Base.Strings.{has_prefix, elem, to_lower}
use agentic_operator_core.Threshold.{
  destructive_verbs, readonly_verbs, verb_of, is_destructive_action, is_read_only_action,
}

-- The bytes before the first `_`.
word : Text → Text
word [] = []
word (c ∷ s) = let rest = c ∷ word s in if c == 95 then [] else rest

abbrev is_word : Text → Bool
is_word [] = true
is_word (c ∷ s) = not (c == 95) && is_word s

word_self : (d : Text) → is_word d ≡ true → word d ≡ d
unfolding word
word_self [] h = refl
word_self (c ∷ d) h = ground (arith, word_self d)

word-prefix : (a d : Text) → is_word d ≡ true → has_prefix a (d ++ txt "_") ≡ true → word a ≡ d
unfolding word has_prefix
word-prefix [] [] w h = refl
word-prefix [] (c ∷ d) w h = ground arith
word-prefix (b ∷ a) [] w h = ground arith
word-prefix (b ∷ a) (c ∷ d) w h = ground (arith, word-prefix a d)

elem-word :
    (a : Text) (verbs : List Text)
    → All (λ d. is_word d ≡ true) verbs
    → verb_of a verbs ≡ true
    → elem (word a) verbs ≡ true
unfolding verb_of elem
elem-word a [] w h = ground arith
elem-word a (d ∷ verbs) w h = elim (Bool-cases (text_eq a d)) [
  | inl e ↦
      let same : word a ≡ d = rw (eq_of_text_eq a d e) (word_self d w.0) in
      ground (arith, text_eq_iff (word a) d)
  | inr n ↦ elim (Bool-cases (has_prefix a (d ++ txt "_"))) [
    | inl p ↦ ground (arith, word-prefix a d, text_eq_iff (word a) d)
    | inr q ↦ ground (arith, elem-word a verbs w.1)
  ]
]

-- A text of one list is in no other, if no member of the first is.
disjoint :
    (w : Text) (l r : List Text)
    → All (λ d. elem d r ≡ false) l
    → elem w l ≡ true
    → elem w r ≡ false
unfolding elem
disjoint w [] r h e = ground arith
disjoint w (d ∷ l) r h e = elim (Bool-cases (text_eq w d)) [
  | inl p ↦ rw (eq_of_text_eq w d p) h.0
  | inr n ↦ disjoint w l r h.1 (ground arith)
]

destructive-words : All (λ d. is_word d ≡ true) destructive_verbs
destructive-words = (refl, (refl, (refl, (refl, (refl, (refl, (refl, tt)))))))

readonly-words : All (λ d. is_word d ≡ true) readonly_verbs
readonly-words = (refl, (refl, (refl, (refl, (refl, (refl, (refl, (refl, tt))))))))

verbs-disjoint : All (λ d. elem d readonly_verbs ≡ false) destructive_verbs
unfolding elem
verbs-disjoint = (refl, (refl, (refl, (refl, (refl, (refl, (refl, tt)))))))

pub destructive-not-readonly :
    (action : Text) → is_destructive_action action ≡ true → is_read_only_action action ≡ false
unfolding is_destructive_action is_read_only_action
destructive-not-readonly action h =
    let a = to_lower action in
    let d = elem-word a destructive_verbs destructive-words h in
    let not_listed = disjoint (word a) destructive_verbs readonly_verbs verbs-disjoint d in
    elim (Bool-cases (verb_of a readonly_verbs)) [
      | inl r ↦ absurd (ground (arith, elem-word a readonly_verbs readonly-words r))
      | inr n ↦ n
    ]
