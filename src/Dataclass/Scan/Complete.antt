-- ===== src/Dataclass/Scan/Complete.antt =====
-- pkg/dataclass/dataclass.go: what a complete scan has seen.
use agentic_operator_core.Base.{
  leb→le, take-all, ◌⊎◌, ℕ, suc, ◌≤◌, Bool, true, false, not, ◌&&◌, ◌||◌, ◌==◌, List, [], ◌∷◌, ◌≡◌,
  refl, sym, length, take, any, ltb, leb, inl, inr, Bool-cases, arith,
}
use mathlib.Core.Path.{subst}
use agentic_operator_core.Base.Text.{Text, text_eq, text_eq_refl, eq_of_text_eq}
use agentic_operator_core.Base.Strings.{elem, sort_strings, insert_text, text_le}
use agentic_operator_core.Base.Json.{
  Json, Items, Members, null, boolean, number, integer, numeral, string, array, object, other, nil,
  item, empty, member,
}
use agentic_operator_core.Dataclass.Scan.{
  Patterns, Scanning, max_string_bytes, max_depth, add_class, add_detected, detectors, detect_into,
  enter, read_text, walk, walk_items, walk_members, scan, start,
}

-- A text that a scan reads: a string, or a number as it is printed, at any depth. A value of a type that
-- is not known may hold any text.
unfoldable mutual
  pub Reads : Patterns → Text → Json → Type 0
  Reads p t (number x) = p.print_float x ≡ t
  Reads p t (integer n) = p.print_int n ≡ t
  Reads p t (numeral s) = s ≡ t
  Reads p t (string s) = s ≡ t
  Reads p t other = Unit
  Reads p t (array l) = ReadsItems p t l
  Reads p t (object m) = ReadsMembers p t m
  Reads p t _ = ⊥

  pub ReadsItems : Patterns → Text → Items → Type 0
  ReadsItems p t nil = ⊥
  ReadsItems p t (item j l) = Reads p t j ⊎ ReadsItems p t l

  pub ReadsMembers : Patterns → Text → Members → Type 0
  ReadsMembers p t empty = ⊥
  ReadsMembers p t (member k j m) = Reads p t j ⊎ ReadsMembers p t m

-- Some test for the class finds it in the text.
unfoldable pub detects : List (Text × (Text → Bool)) → Text → Text → Bool
detects l c s = any (λ d. text_eq c d.0 && d.1 s) l

-- From one state of a scan to a later one.
record IsRun (a b : Scanning) : Type 0 where
  keeps : (c : Text) → elem c a.found ≡ true → elem c b.found ≡ true
  stays : a.truncated ≡ true → b.truncated ≡ true

IsRun-refl : (a : Scanning) → IsRun a a
IsRun-refl a = record { keeps = λ c h. h; stays = λ h. h }

IsRun-trans : (a b d : Scanning) → IsRun a b → IsRun b d → IsRun a d
IsRun-trans a b d x y = record {
  keeps = λ c h. y.keeps c (x.keeps c h);
  stays = λ h. y.stays (x.stays h);
}

elem-add : (c d : Text) (l : List Text) → elem c l ≡ true → elem c (add_class d l) ≡ true
unfolding add_class elem
elem-add c d l h = elim (Bool-cases (any (text_eq d) l)) [
  | inl e ↦ rw e h
  | inr e ↦ rw e (ground (arith, h))
]

elem-added : (c : Text) (l : List Text) → elem c (add_class c l) ≡ true
unfolding add_class elem
elem-added c l = ground (arith, text_eq_refl c)

elem-add_detected :
    (p : Patterns) (ds : List (Text × (Text → Bool))) (s c : Text) (l : List Text)
    → elem c l ≡ true
    → elem c (add_detected p ds s l) ≡ true
unfolding add_detected
elem-add_detected p [] s c l h = h
elem-add_detected p ((d, test) ∷ ds) s c l h = elim (Bool-cases (test s)) [
  | inl e ↦ rw e (elem-add_detected p ds s c _ (elem-add c d l h))
  | inr e ↦ rw e (elem-add_detected p ds s c l h)
]

elem-detected :
    (p : Patterns) (ds : List (Text × (Text → Bool))) (s c : Text) (l : List Text)
    → detects ds c s ≡ true
    → elem c (add_detected p ds s l) ≡ true
unfolding add_detected detects
elem-detected p [] s c l h = absurd (ground arith)
elem-detected p ((d, test) ∷ ds) s c l h = elim (Bool-cases (text_eq c d && test s)) [
  | inl e ↦
      let c=d : c ≡ d = eq_of_text_eq c d (ground (arith, e)) in
      let found : test s ≡ true = ground (arith, e) in
      rw found (elem-add_detected p ds s c _ (rw c=d (elem-added d l)))
  | inr e ↦ elem-detected p ds s c _ (ground (arith, e, h))
]

-- A text that is not cut.
fits :
    (t : Bool) (n m : ℕ) (s : Text)
    → (t || (ltb n (length s) || not (leb (length (take n s)) m))) ≡ false
    → (take n s ≡ s) × (length s ≤ m)
fits t n m s h =
    let whole : take n s ≡ s = take-all n s (ground (arith, h)) in
    let short : leb (length (take n s)) m ≡ true = ground (arith, h) in
    (whole, leb→le (length s) m (subst (λ x. leb (length x) m ≡ true) whole short))

elem-insert : (c s : Text) (l : List Text) → elem c (s ∷ l) ≡ true → elem c (insert_text s l) ≡ true
unfolding insert_text elem
elem-insert c s [] h = h
elem-insert c s (t ∷ l) h = elim (Bool-cases (text_le s t)) [
  | inl e ↦ rw e h
  | inr e ↦ rw e (ground (arith, h, elem-insert c s l))
]

elem-cons :
    (c s : Text) (l m : List Text)
    → elem c (s ∷ l) ≡ true
    → (elem c l ≡ true → elem c m ≡ true)
    → elem c (s ∷ m) ≡ true
unfolding elem
elem-cons c s l m h f = ground (arith, h, f)

elem-sort : (c : Text) (l : List Text) → elem c l ≡ true → elem c (sort_strings l) ≡ true
unfolding sort_strings
elem-sort c [] h = h
elem-sort c (s ∷ l) h = elem-insert c s (sort_strings l) (elem-cons c s l _ h (elem-sort c l))

module _ (p : Patterns) where
  -- If the scan was not cut, the text is short enough, and its classes are found.
  record IsSeen (t : Text) (a : Scanning) : Type 0 where
    short : a.truncated ≡ false → length t ≤ max_string_bytes
    classes :
        a.truncated ≡ false → (c : Text) → detects (detectors p) c t ≡ true → elem c a.found ≡ true

  IsSeen-run : (t : Text) (a b : Scanning) → IsRun a b → IsSeen t a → IsSeen t b
  IsSeen-run t a b r s =
      let open_before : b.truncated ≡ false → a.truncated ≡ false = λ h.
        elim (Bool-cases a.truncated) [
          | inl e ↦ absurd (ground (arith, r.stays e, h))
          | inr e ↦ e
        ] in
      record {
        short = λ h. s.short (open_before h);
        classes = λ h c d. r.keeps c (s.classes (open_before h) c d);
      }

  read_text-Run : (s : Text) (a : Scanning) → IsRun a (read_text p s a)
  unfolding read_text detect_into
  read_text-Run s a = record {
    keeps = λ c h. elem-add_detected p (detectors p) _ c a.found h;
    stays = λ h. rw h refl;
  }

  read_text-Seen : (s : Text) (a : Scanning) → IsSeen s (read_text p s a)
  unfolding read_text detect_into
  read_text-Seen s a = record {
    short = λ h. (fits a.truncated a.bytes max_string_bytes s h).1;
    classes = λ h c d.
        let (whole, short) = fits a.truncated a.bytes max_string_bytes s h in
        let same : take max_string_bytes (take a.bytes s) ≡ s =
          rw whole (take-all max_string_bytes s short) in
        subst (λ t. elem c (add_detected p (detectors p) t a.found) ≡ true) (sym same)
          (elem-detected p (detectors p) s c a.found d);
  }

  enter-Run :
      (depth : ℕ) (a : Scanning) (k : Scanning → Scanning)
      → ((b : Scanning) → IsRun b (k b))
      → IsRun a (enter p depth a k)
  unfolding enter
  enter-Run depth a k h =
      elim (Bool-cases (ltb max_depth depth || (a.nodes == 0 || a.bytes == 0))) [
        | inl e ↦ rw e (record { keeps = λ c x. x; stays = λ x. refl })
        | inr e ↦ rw e (record { keeps = (h _).keeps; stays = (h _).stays })
      ]

  enter-Seen :
      (t : Text) (depth : ℕ) (a : Scanning) (k : Scanning → Scanning)
      → ((b : Scanning) → IsSeen t (k b))
      → IsSeen t (enter p depth a k)
  unfolding enter
  enter-Seen t depth a k h =
      elim (Bool-cases (ltb max_depth depth || (a.nodes == 0 || a.bytes == 0))) [
        | inl e ↦ rw e (record { short = λ x. absurd (cc x); classes = λ x. absurd (cc x) })
        | inr e ↦ rw e (h _)
      ]

  mutual
    unfolding walk walk_items walk_members

    walk-Run : (j : Json) (depth : ℕ) (a : Scanning) → IsRun a (walk p j depth a)
    walk-Run null depth a = enter-Run depth a _ IsRun-refl
    walk-Run (boolean b) depth a = enter-Run depth a _ IsRun-refl
    walk-Run (number x) depth a =
        enter-Run depth a _ (λ b. enter-Run depth b _ (read_text-Run (p.print_float x)))
    walk-Run (integer n) depth a =
        enter-Run depth a _ (λ b. enter-Run depth b _ (read_text-Run (p.print_int n)))
    walk-Run (numeral s) depth a = enter-Run depth a _ (λ b. enter-Run depth b _ (read_text-Run s))
    walk-Run other depth a =
        enter-Run depth a _ (λ b. record { keeps = λ c h. h; stays = λ h. refl })
    walk-Run (string s) depth a = enter-Run depth a _ (read_text-Run s)
    walk-Run (array l) depth a = enter-Run depth a _ (λ b. walk_items-Run l (suc depth) b)
    walk-Run (object m) depth a = enter-Run depth a _ (λ b. walk_members-Run m (suc depth) b)

    walk_items-Run : (l : Items) (depth : ℕ) (a : Scanning) → IsRun a (walk_items p l depth a)
    walk_items-Run nil depth a = IsRun-refl a
    walk_items-Run (item j l) depth a =
        IsRun-trans a _ _ (walk-Run j depth a) (walk_items-Run l depth (walk p j depth a))

    walk_members-Run : (m : Members) (depth : ℕ) (a : Scanning) → IsRun a (walk_members p m depth a)
    walk_members-Run empty depth a = IsRun-refl a
    walk_members-Run (member k j m) depth a =
        IsRun-trans a _ _ (walk-Run j depth a) (walk_members-Run m depth (walk p j depth a))

  mutual
    unfolding walk walk_items walk_members Reads ReadsItems ReadsMembers

    walk-Seen :
        (t : Text) (j : Json) (depth : ℕ) (a : Scanning) → Reads p t j → IsSeen t (walk p j depth a)
    walk-Seen t null depth a r = absurd r
    walk-Seen t (boolean b) depth a r = absurd r
    walk-Seen t (number x) depth a r =
        enter-Seen t depth a _ (λ b. enter-Seen t depth b _ (λ d. rw (← r) (read_text-Seen _ d)))
    walk-Seen t (integer n) depth a r =
        enter-Seen t depth a _ (λ b. enter-Seen t depth b _ (λ d. rw (← r) (read_text-Seen _ d)))
    walk-Seen t (numeral s) depth a r =
        enter-Seen t depth a _ (λ b. enter-Seen t depth b _ (λ d. rw (← r) (read_text-Seen s d)))
    walk-Seen t other depth a r =
        enter-Seen t depth a _
          (λ b. record { short = λ x. absurd (cc x); classes = λ x. absurd (cc x) })
    walk-Seen t (string s) depth a r = enter-Seen t depth a _ (λ d. rw (← r) (read_text-Seen s d))
    walk-Seen t (array l) depth a r =
        enter-Seen t depth a _ (λ b. walk_items-Seen t l (suc depth) b r)
    walk-Seen t (object m) depth a r =
        enter-Seen t depth a _ (λ b. walk_members-Seen t m (suc depth) b r)

    walk_items-Seen :
        (t : Text) (l : Items) (depth : ℕ) (a : Scanning)
        → ReadsItems p t l
        → IsSeen t (walk_items p l depth a)
    walk_items-Seen t nil depth a r = absurd r
    walk_items-Seen t (item j l) depth a (inl r) =
        IsSeen-run t _ _ (walk_items-Run l depth _) (walk-Seen t j depth a r)
    walk_items-Seen t (item j l) depth a (inr r) = walk_items-Seen t l depth _ r

    walk_members-Seen :
        (t : Text) (m : Members) (depth : ℕ) (a : Scanning)
        → ReadsMembers p t m
        → IsSeen t (walk_members p m depth a)
    walk_members-Seen t empty depth a r = absurd r
    walk_members-Seen t (member k j m) depth a (inl r) =
        IsSeen-run t _ _ (walk_members-Run m depth _) (walk-Seen t j depth a r)
    walk_members-Seen t (member k j m) depth a (inr r) = walk_members-Seen t m depth _ r

  -- If a scan reports that it was complete, then each text of the value, at any depth, whether a string
  -- or a printed number, is within the limit of a string, and each class that one of the tests finds in
  -- the whole text is among the classes reported; a value of another type counts as holding any text.
  pub scan_thorough :
      (j : Json) (t : Text)
      → (scan p j).1 ≡ true
      → Reads p t j
      → (length t ≤ max_string_bytes)
        × ((c : Text) → detects (detectors p) c t ≡ true → elem c (scan p j).0 ≡ true)
  unfolding scan
  scan_thorough j t h r =
      let s = walk-Seen t j 0 start r in
      let full : (walk p j 0 start).truncated ≡ false = ground (arith, h) in
      (s.short full, λ c d. elem-sort c _ (s.classes full c d))
