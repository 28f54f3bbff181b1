-- ===== src/Decision/Merge.antt =====
-- `Decide` of pkg/decision/decision.go: the strictest layer sets the outcome.
use agentic_operator_core.Base.{true, false, ℕ, is_empty, ◌≡◌, ◌≤◌, max, arith, if◌then◌else◌}
use agentic_operator_core.Decision.{Layers, is_some, decide, strictness}

-- What each layer asks for by itself.
abbrev pub invariant_demand : Layers → ℕ
invariant_demand l = if is_empty l.invariants then 0 else 2

abbrev pub pack_demand : Layers → ℕ
pack_demand l =
    max (if is_some l.pack_err then 2 else 0)
      (max (if is_empty l.pack_deny then 0 else 2) (if is_empty l.pack_approval then 0 else 1))

abbrev pub threshold_demand : Layers → ℕ
threshold_demand l = if l.threshold_allowed then 0 else 2

-- The outcome is as strict as the strictest of the three layers, and no stricter.
pub strictness-decide :
    (l : Layers)
    → strictness (decide l).outcome
      ≡ max (invariant_demand l) (max (pack_demand l) (threshold_demand l))
unfolding decide strictness
strictness-decide l = ground arith

-- `l` finds at least what `k` finds, layer by layer.
pub record IsTighter (k l : Layers) : Type 0 where
  pub invariants : is_empty l.invariants ≡ true → is_empty k.invariants ≡ true
  pub pack_err : is_some l.pack_err ≡ false → is_some k.pack_err ≡ false
  pub pack_deny : is_empty l.pack_deny ≡ true → is_empty k.pack_deny ≡ true
  pub pack_approval : is_empty l.pack_approval ≡ true → is_empty k.pack_approval ≡ true
  pub threshold : l.threshold_allowed ≡ true → k.threshold_allowed ≡ true

-- No layer can loosen another: more findings in any layer never make the outcome less strict.
pub decide_mono :
    (k l : Layers) → IsTighter k l → strictness (decide k).outcome ≤ strictness (decide l).outcome
unfolding decide strictness
decide_mono k l t = ground arith
