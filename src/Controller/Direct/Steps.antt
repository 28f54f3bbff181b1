-- ===== src/Controller/Direct/Steps.antt =====
-- internal/controller/agentworkload_controller.go: the direct path's updates among the steps of the world
-- of internal/controller/approvals.go.
use agentic_operator_core.Base.{true, none, some, ◌≡◌, ◌⊎◌, refl, ◌∙◌, inl, inr, Bool-cases}
use agentic_operator_core.Base.Strings.{elem}
use agentic_operator_core.Controller.{Status, PendingApproval}
use agentic_operator_core.Controller.Actions.{Reconciler}
use agentic_operator_core.Controller.World.{World, Step, keep, clear, propose, fresh_pending}
use agentic_operator_core.Controller.Direct.{Spec, Outside, Turn, finish, tool, save, append}
use agentic_operator_core.Controller.Direct.Acting.{reconcile_direct}
use agentic_operator_core.Controller.Direct.Writes.{
  Saves, IsWritten, keeps, ends, holds, reconcile_direct-IsWritten,
}

Saves-map :
    (P Q : Status → Type 0) (t : Turn) → ((st : Status) → P st → Q st) → Saves P t → Saves Q t
Saves-map P Q (finish q) f s = tt
Saves-map P Q (tool name args k) f s = λ x. Saves-map P Q (k x) f (s x)
Saves-map P Q (save st k) f s =
    (f st s.0, Saves-map P Q (k none) f s.1, λ e. Saves-map P Q (k (some e)) f (s.2 e))
Saves-map P Q (append rec k) f s =
    (λ l. Saves-map P Q (k (some l)) f (s.0 l), Saves-map P Q (k none) f s.1)

-- The pending action of the status has an id that was proposed before.
abbrev pub Repeats : World → Status → Type 0
Repeats w st =
    (p : PendingApproval) × (st.pending ≡ some (fresh_pending p)) × (elem p.id w.proposed ≡ true)

-- A step of the world that stores the status.
abbrev pub Stores : Outside → Reconciler → World → Status → Type 0
Stores out r w st =
    (w' : World) × Step out.base r w w' × (w'.stored ≡ record (w.stored) { status = st })

module _ (out : Outside) (r : Reconciler) (spec : Spec) where
  IsWritten-Step :
      (w : World) (before st : Status)
      → before.pending ≡ w.stored.status.pending
      → IsWritten before st
      → Stores out r w st ⊎ Repeats w st
  IsWritten-Step w before _ h (keeps st e f) = inl (_, keep w st (e ∙ h), refl)
  IsWritten-Step w before _ h (ends st e f) = inl (_, clear w st f, refl)
  IsWritten-Step w before _ h (holds st p e f) = elim (Bool-cases (elem p.id w.proposed)) [
    | inl g ↦ inr (p, f, g)
    | inr g ↦ inl (_, propose w st p g f, refl)
  ]

  -- Where the direct path runs on a status with the pending action that is stored, each status that it
  -- may write is stored by a step of the world in which an approved action is executed at most once,
  -- unless it proposes a pending action under an id that was proposed before.
  pub reconcile_direct-Step :
      (w : World) (st : Status)
      → st.pending ≡ w.stored.status.pending
      → Saves (λ st'. Stores out r w st' ⊎ Repeats w st') (reconcile_direct out r spec st)
  reconcile_direct-Step w st h =
      Saves-map (IsWritten st) _ _ (λ st' x. IsWritten-Step w st st' h x)
        (reconcile_direct-IsWritten out r spec st)
