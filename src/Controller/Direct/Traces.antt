-- ===== src/Controller/Direct/Traces.antt =====
-- internal/controller/agentworkload_controller.go: what precedes a call on the direct path.
use agentic_operator_core.Base.{
  Bool, true, false, Option, none, some, List, ◌∷◌, ◌≡◌, refl, if◌then◌else◌,
}
use agentic_operator_core.Base.Text.{Text}
use agentic_operator_core.Base.Json.{Members}
use agentic_operator_core.Receipts.{DecisionRecord}
use agentic_operator_core.Controller.{Status}
use agentic_operator_core.Controller.Direct.{Turn, finish, tool, save, append, Logged, Refusal}

-- An effect that has taken place: a status that was accepted, a receipt that was written, a call.
pub data Event : Type 0 where
  saved : Status → Event
  written : DecisionRecord → Logged → Event
  called : Text → Members → Event

-- Each call in the tree meets `P`, which reads the events before it, the last one first.
abbrev pub Before : (List Event → Text → Members → Type 0) → List Event → Turn → Type 0
Before P h (finish q) = Unit
Before P h (tool name args k) =
    P h name args × ((x : Option Members) → Before P (called name args ∷ h) (k x))
Before P h (save st k) =
    Before P (saved st ∷ h) (k none) × ((e : Refusal) → Before P h (k (some e)))
Before P h (append rec k) =
    ((l : Logged) → Before P (written rec l ∷ h) (k (some l))) × Before P h (k none)

pub record Meets (P : List Event → Text → Members → Type 0) (h : List Event) (t : Turn)
    : Type 0 where
  pub calls : Before P h t

pub if-Meets :
    (P : List Event → Text → Members → Type 0) (b : Bool) (h : List Event) (t u : Turn)
    → (b ≡ true → Meets P h t)
    → (b ≡ false → Meets P h u)
    → Meets P h (if b then t else u)
if-Meets P true h t u f g = f refl
if-Meets P false h t u f g = g refl
