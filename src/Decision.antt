-- ===== src/Decision.antt =====
-- pkg/decision/decision.go: the layers of a decision and how they are merged.
pub mod Merge
pub mod Features
pub mod Model
use agentic_operator_core.Base.{
  Bool, true, false, not, ◌&&◌, ◌||◌, Option, none, some, List, [], ◌∷◌, ◌++◌, ℕ, is_empty,
  if◌then◌else◌,
}
use agentic_operator_core.Base.Text.{Text, txt}

unfoldable pub combine : Bool → Bool → Bool
combine rules_denied threshold_allowed = not rules_denied && threshold_allowed

-- `unknown` stands for the strings that are no declared outcome.
pub data Outcome : Type 0 where
  allow require_approval deny : Outcome
  unknown : Text → Outcome

-- The names of layers; `unset` is the empty string, `unknown` any string that is not declared.
pub data Layer : Type 0 where
  unset invariant pack threshold model rules : Layer
  unknown : Text → Layer

pub record Layers : Type 0 where
  pub invariants : List Text
  pub pack_err : Option Text
  pub pack_deny : List Text
  pub pack_approval : List Text
  pub threshold_allowed : Bool
  pub threshold_reasons : List Text

pub record Result : Type 0 where
  pub outcome : Outcome
  pub layer : Layer
  pub reasons : List Text

abbrev pub is_some {ℓ} : {A : Type ℓ} → Option A → Bool
is_some none = false
is_some (some a) = true

pack_err_reason : Option Text → List Text
pack_err_reason none = []
pack_err_reason (some e) = (txt "policy pack error: " ++ e) ∷ []

-- The reasons of every layer, in the order of the layers.
unfoldable pub all_reasons : Layers → List Text
unfolding pack_err_reason
all_reasons l =
    l.invariants
    ++ (pack_err_reason l.pack_err ++ (l.pack_deny ++ (l.pack_approval ++ l.threshold_reasons)))

-- The `switch` of `Decide`.
unfoldable pub classify : Layers → Outcome × Layer
classify l =
    if not (is_empty l.invariants)
    then (deny, invariant)
    else if is_some l.pack_err || not (is_empty l.pack_deny)
    then (deny, pack)
    else if not l.threshold_allowed
    then (deny, threshold)
    else if not (is_empty l.pack_approval)
    then (require_approval, pack)
    else (allow, threshold)

unfoldable pub decide : Layers → Result
unfolding classify all_reasons
decide l = record { outcome = (classify l).0; layer = (classify l).1; reasons = all_reasons l }

-- `Strictness` of model.go
unfoldable pub strictness : Outcome → ℕ
strictness allow = 0
strictness require_approval = 1
strictness _ = 2
