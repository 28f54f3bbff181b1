-- ===== src/Routing/Cheapest.antt =====
-- pkg/routing/classifier.go: the category of a prompt among its scores.
use agentic_operator_core.Base.{ℕ, ◌≤◌, ◌<◌, ◌∷◌, ◌≡◌, ◌⊎◌, arith, length}
use agentic_operator_core.Base.Text.{Text}
use agentic_operator_core.Base.Strings.{to_lower, fields, is_space}
use agentic_operator_core.Routing.{
  TaskCategory, validation, analysis, reasoning, TaskClassifier, score_validation, score_analysis,
  score_reasoning, highest, classify,
}

-- When each of the categories is right for the scores: the highest score, the cheaper category on a
-- tie, and reasoning where all are zero.
abbrev pub IsBest : TaskCategory → ℕ → ℕ → ℕ → Type 0
IsBest x v a r =
    ((x ≡ validation) × (0 < v) × (a ≤ v) × (r ≤ v))
    ⊎ (((x ≡ analysis) × (v < a) × (r ≤ a))
        ⊎ ((x ≡ reasoning) × (((v < r) × (a < r)) ⊎ ((v ≡ 0) × (a ≡ 0) × (r ≡ 0)))))

highest-IsBest : (v a r : ℕ) → IsBest (highest v a r) v a r
unfolding highest
highest-IsBest v a r = ground arith

module _ (c : TaskClassifier) (rune_count : Text → ℕ) where
  -- A prompt that is not empty is sent to the category with the highest score: to the cheaper one where
  -- two are equal, and to reasoning only where it has more than each of the others or where all are zero.
  pub classify-IsBest :
      (b : ℕ) (p : Text)
      → IsBest
          (classify c rune_count (b ∷ p))
          (score_validation c
            (to_lower (b ∷ p))
            (length (fields is_space (b ∷ p)))
            (rune_count (b ∷ p)))
          (score_analysis c
            (to_lower (b ∷ p))
            (length (fields is_space (b ∷ p)))
            (rune_count (b ∷ p)))
          (score_reasoning c
            (to_lower (b ∷ p))
            (length (fields is_space (b ∷ p)))
            (rune_count (b ∷ p)))
  unfolding classify
  classify-IsBest b p = highest-IsBest _ _ _
