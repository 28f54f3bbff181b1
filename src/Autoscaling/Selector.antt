-- ===== src/Autoscaling/Selector.antt =====
-- pkg/autoscaling/model_selector.go: the order of the tiers.
use agentic_operator_core.Base.{ℕ, ◌<◌, none, some, ◌≡◌, arith, true, false, ◌⊎◌}
use agentic_operator_core.Autoscaling.{
  ModelTier, cheap, medium, expensive, other, ModelSelector, downgrade,
}

-- The place of a tier by cost.
abbrev pub cost_rank : ModelTier → ℕ
cost_rank cheap = 1
cost_rank medium = 2
cost_rank expensive = 3
cost_rank (other s) = 0

-- `Downgrade` moves to an available tier that is strictly cheaper, and to the most expensive of
-- those; where it reports an error the selector is unchanged and no tier below is available.
downgrade-cheaper :
    (ms : ModelSelector)
    → ((t : ModelTier) × ((downgrade ms).0 ≡ some t)
        × ((downgrade ms).1 ≡ record ms { current_tier = t })
        × (cost_rank t < cost_rank ms.current_tier)
        × (t ≡ cheap
            → (ms.has_cheap ≡ true) × (ms.current_tier ≡ expensive → ms.has_medium ≡ false))
        × (t ≡ medium → ms.has_medium ≡ true))
      ⊎ (((downgrade ms).0 ≡ none)
          × ((downgrade ms).1 ≡ ms)
          × (ms.current_tier ≡ expensive → (ms.has_medium ≡ false) × (ms.has_cheap ≡ false))
          × (ms.current_tier ≡ medium → ms.has_cheap ≡ false))
unfolding downgrade
downgrade-cheaper ms = ground arith
