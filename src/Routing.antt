-- ===== src/Routing.antt =====
-- pkg/routing/classifier.go: which class of model a prompt is sent to. The count of runes of package utf8
-- is a parameter.
pub mod Cheapest
use agentic_operator_core.Base.{
  ℕ, ◌+◌, ◌*◌, Bool, true, false, ◌&&◌, ◌||◌, ◌==◌, List, [], ◌∷◌, length, is_empty, ltb, leb,
  if◌then◌else◌,
}
use agentic_operator_core.Base.Text.{Text, txt}
use agentic_operator_core.Base.Strings.{to_lower, contains, fields, is_space}

pub data TaskCategory : Type 0 where
  validation analysis reasoning : TaskCategory

pub record TaskClassifier : Type 0 where
  pub validation_threshold : ℕ
  pub analysis_threshold : ℕ
  pub validation_keywords : List Text
  pub analysis_keywords : List Text
  pub reasoning_keywords : List Text

abbrev pub new_default_classifier : TaskClassifier
new_default_classifier = record {
  validation_threshold = 200;
  analysis_threshold = 800;
  validation_keywords =
      txt "verify"
      ∷ txt "check"
      ∷ txt "validate"
      ∷ txt "parse"
      ∷ txt "format"
      ∷ txt "extract"
      ∷ txt "split"
      ∷ txt "join"
      ∷ txt "convert"
      ∷ txt "normalize"
      ∷ txt "match"
      ∷ txt "search"
      ∷ txt "find"
      ∷ [];
  analysis_keywords =
      txt "analyze"
      ∷ txt "summarize"
      ∷ txt "summarise"
      ∷ txt "synthesis"
      ∷ txt "extract"
      ∷ txt "identify"
      ∷ txt "classify"
      ∷ txt "categorize"
      ∷ txt "compare"
      ∷ txt "contrast"
      ∷ txt "evaluate"
      ∷ txt "assess"
      ∷ txt "break"
      ∷ txt "decompose"
      ∷ txt "explain"
      ∷ [];
  reasoning_keywords =
      txt "reason"
      ∷ txt "think"
      ∷ txt "decide"
      ∷ txt "determine"
      ∷ txt "novel"
      ∷ txt "unique"
      ∷ txt "infer"
      ∷ txt "deduce"
      ∷ txt "novel"
      ∷ txt "creative"
      ∷ txt "generate"
      ∷ txt "design"
      ∷ txt "complex"
      ∷ txt "elaborate"
      ∷ txt "discuss"
      ∷ [];
}

-- The keywords that the prompt contains, each as often as it is listed.
unfoldable pub keyword_matches : Text → List Text → ℕ
unfolding contains
keyword_matches s [] = 0
keyword_matches s (k ∷ l) = (if contains s k then 1 else 0) + keyword_matches s l

-- `strings.Count` of a question mark.
unfoldable pub question_marks : Text → ℕ
question_marks [] = 0
question_marks (c ∷ s) = (if c == 63 then 1 else 0) + question_marks s

abbrev pub points : Bool → ℕ → ℕ
points b n = if b then n else 0

-- The choice among the three scores.
unfoldable pub highest : ℕ → ℕ → ℕ → TaskCategory
highest v a r =
    let (score, best) = if ltb v a then (a, analysis) else (v, validation) in
    let (score', best') = if ltb score r then (r, reasoning) else (score, best) in
    if score' == 0 then reasoning else best'

module _ (c : TaskClassifier) where
  unfoldable pub score_validation : Text → ℕ → ℕ → ℕ
  score_validation s words chars =
      keyword_matches s c.validation_keywords * 25
      + (points (ltb chars c.validation_threshold) 10 + points (ltb words 20) 10)

  unfoldable pub score_analysis : Text → ℕ → ℕ → ℕ
  score_analysis s words chars =
      keyword_matches s c.analysis_keywords * 25
      + (points (leb c.validation_threshold chars && ltb chars c.analysis_threshold) 15
          + points (leb 20 words && ltb words 200) 15)

  unfoldable pub score_reasoning : Text → ℕ → ℕ → ℕ
  score_reasoning s words chars =
      keyword_matches s c.reasoning_keywords * 25
      + (points (contains s (txt "why") || contains s (txt "how")) 20
          + (question_marks s * 8
              + (points (leb c.analysis_threshold chars) 10 + points (leb 100 words) 10)))

  unfoldable pub classify : (Text → ℕ) → Text → TaskCategory
  classify rune_count [] = reasoning
  classify rune_count (b ∷ p) =
      let s = to_lower (b ∷ p) in
      let words = length (fields is_space (b ∷ p)) in
      let chars = rune_count (b ∷ p) in
      highest (score_validation s words chars) (score_analysis s words chars)
        (score_reasoning s words chars)
