-- ===== src/Controller/Direct/Writes.antt =====
-- internal/controller/agentworkload_controller.go: the statuses that the direct path writes.
use agentic_operator_core.Base.{
  Bool, true, false, not, Option, none, some, ◌≡◌, ◌⊎◌, refl, inl, inr, if◌then◌else◌, Bool-cases,
}
use agentic_operator_core.Base.Float.{Float64}
use agentic_operator_core.Base.Text.{Text, txt, text_eq, eq_of_text_eq}
use agentic_operator_core.Base.Strings.{elem}
use agentic_operator_core.Base.Json.{Members}
use agentic_operator_core.Base.Try.{Try, ok, err}
use agentic_operator_core.Decision.{Result}
use agentic_operator_core.Decision.Model.{is_allow}
use agentic_operator_core.Receipts.{DecisionRecord}
use agentic_operator_core.Controller.{Status, PendingApproval}
use agentic_operator_core.Controller.Actions.{Reconciler}
use agentic_operator_core.Controller.World.{fresh_pending}
use agentic_operator_core.Controller.Direct.{
  Spec, Outside, Turn, finish, tool, save, append, Recorded, Logged, Requeue, Refusal,
}
use agentic_operator_core.Controller.Direct.Proposal.{Proposed}
use agentic_operator_core.Controller.Direct.Deciding.{
  Deciding, blank_record, new_record, unrecorded, record_decision, new_pending_approval,
  pending_with, pending_of,
}
use agentic_operator_core.Controller.Direct.Acting.{
  Offer, save_or_log, publish, settle, reserved, execute_offer, hold_offer, act_on, decide_offer,
  on_read, on_proposal, on_status, reconcile_direct, fail, is_approval, is_strict, final_phases,
}

-- Each status that the tree may write meets `P`.
abbrev pub Saves : (Status → Type 0) → Turn → Type 0
Saves P (finish q) = Unit
Saves P (tool name args k) = (x : Option Members) → Saves P (k x)
Saves P (save st k) = P st × Saves P (k none) × ((e : Refusal) → Saves P (k (some e)))
Saves P (append rec k) = ((l : Logged) → Saves P (k (some l))) × Saves P (k none)

pub record Writes (P : Status → Type 0) (t : Turn) : Type 0 where
  pub saves : Saves P t

-- A status that is written over `before`: it keeps the pending action, and the phase is the same or
-- Failed; or the phase is one of those that end the reconcile, and a pending action is there only under
-- PendingApproval, undecided.
pub data IsWritten (before : Status) : Status → Type 0 where
  keeps :
      (st : Status)
      → st.pending ≡ before.pending
      → (st.phase ≡ before.phase) ⊎ (st.phase ≡ txt "Failed")
      → IsWritten before st
  ends : (st : Status) → elem st.phase final_phases ≡ true → st.pending ≡ none → IsWritten before st
  holds :
      (st : Status) (p : PendingApproval)
      → st.phase ≡ txt "PendingApproval"
      → st.pending ≡ some (fresh_pending p)
      → IsWritten before st

if-Writes :
    (P : Status → Type 0) (b : Bool) (t u : Turn)
    → Writes P t
    → Writes P u
    → Writes P (if b then t else u)
if-Writes P true t u x y = x
if-Writes P false t u x y = y

save_or_log-Writes :
    (P : Status → Type 0) (st : Status) (x y : Requeue) → P st → Writes P (save_or_log st x y)
unfolding save_or_log
save_or_log-Writes P st x y h = record { saves = (h, tt, λ e. tt) }

fail-Writes : (st : Status) → Writes (IsWritten st) (fail st)
unfolding fail
fail-Writes st = save_or_log-Writes (IsWritten st) _ _ _ (keeps _ refl (inr refl))

module _ (out : Outside) (r : Reconciler) (spec : Spec) where
  -- No pending action, or one that is undecided.
  abbrev IsFresh : Option PendingApproval → Type 0
  IsFresh x = (x ≡ none) ⊎ ((p : PendingApproval) × (x ≡ some (fresh_pending p)))

  pending_with-IsFresh :
      (p : Proposed) (confidence : Text) (health : Float64) (claimed : Option Float64)
      (rec : Recorded) (x y : Try Text)
      → IsFresh (pending_with out r spec p confidence health claimed rec x y)
  unfolding pending_with pending_of
  pending_with-IsFresh p confidence health claimed rec (err e) y = inl refl
  pending_with-IsFresh p confidence health claimed rec (ok prop) (err e) = inl refl
  pending_with-IsFresh p confidence health claimed rec (ok prop) (ok canon) =
      inr (pending_of out r spec p confidence health claimed rec prop canon, refl)

  held-Written :
      (before st : Status) (x : Option PendingApproval)
      → st.phase ≡ txt "PendingApproval"
      → IsFresh x
      → IsWritten before (record st { pending = x })
  unfolding elem text_eq
  held-Written before st x e (inl n) = ends _ (rw e refl) n
  held-Written before st x e (inr (p, s)) = holds _ p e s

  publish-Writes :
      (before st : Status) (o : Offer) (rec : Recorded)
      → elem st.phase final_phases ≡ true
      → Writes (IsWritten before) (publish out r spec st o rec)
  unfolding publish new_pending_approval
  publish-Writes before st o rec h = elim (Bool-cases (text_eq st.phase (txt "PendingApproval"))) [
    | inl e ↦
        rw (e, h)
          (save_or_log-Writes (IsWritten before) _ _ _ (
            held-Written before st _ (eq_of_text_eq _ _ e)
              (pending_with-IsFresh o.proposed _ o.health o.claimed_health rec _ _)))
    | inr e ↦ rw (e, h) (save_or_log-Writes (IsWritten before) _ _ _ (ends _ h refl))
  ]

  settle-Writes :
      (before st : Status) (o : Offer) (rec : Recorded) (x : Option Members)
      → Writes (IsWritten before) (settle out r spec st o rec x)
  unfolding settle elem text_eq
  settle-Writes before st o rec none = publish-Writes before _ o rec refl
  settle-Writes before st o rec (some m) = publish-Writes before _ o rec refl

  execute_offer-Writes :
      (st : Status) (o : Offer) (rec : Recorded)
      → Writes (IsWritten st) (execute_offer out r spec st o rec)
  unfolding execute_offer reserved
  execute_offer-Writes st o rec = record {
    saves = (
      keeps _ refl (inl refl),
      λ x. (settle-Writes st (reserved out r spec st o.proposed.action rec) o rec x).saves,
      λ e. tt,
    );
  }

  hold_offer-Writes :
      (st : Status) (o : Offer) (result : Result) (rec : Recorded)
      → Writes (IsWritten st) (hold_offer out r spec st o result rec)
  unfolding hold_offer elem text_eq
  hold_offer-Writes st o result rec =
      if-Writes _ (is_approval result.outcome) _ _ (publish-Writes st _ o rec refl) (
        if-Writes _ (is_strict spec.opa_policy) _ _ (publish-Writes st _ o rec refl)
          (publish-Writes st _ o rec refl))

  act_on-Writes :
      (st : Status) (o : Offer) (result : Result) (rec : Recorded)
      → Writes (IsWritten st) (act_on out r spec st o result rec)
  unfolding act_on
  act_on-Writes st o result rec =
      if-Writes _ (is_allow result.outcome) _ _ (execute_offer-Writes st o rec)
        (hold_offer-Writes st o result rec)

  module _ (P : Status → Type 0) (d : Deciding) (k : Result → Recorded → Turn)
      (each : (result : Result) (rec : Recorded) → Writes P (k result rec)) where
    unrecorded-Writes : (made : DecisionRecord) → Writes P (unrecorded out r spec d made k)
    unfolding unrecorded
    unrecorded-Writes made = if-Writes P r.receipts_required _ _ (each _ _) (each _ _)

    -- Whatever is done with the result, `recordDecision` writes no status itself.
    record_decision-Writes : Writes P (record_decision out r spec d k)
    unfolding record_decision
    record_decision-Writes =
        if-Writes P (not r.receipts_enabled) _ _ (each _ _)
          (elim (new_record out r spec d)
            as (λ t. Writes P (elim t [
              | err e ↦ unrecorded out r spec d blank_record k
              | ok rec ↦
                  if not out.writer
                  then unrecorded out r spec d rec k
                  else append rec (λ reply. elim reply [
                    | none ↦ unrecorded out r spec d rec k
                    | some l ↦ k d.result (record { made = rec; receipt = some l })
                  ])
            ])) [
              | err e ↦ unrecorded-Writes blank_record
              | ok rec ↦
                  if-Writes P (not out.writer) _ _ (unrecorded-Writes rec)
                    (record { saves = (λ l. (each _ _).saves, (unrecorded-Writes rec).saves) })
            ])

  on_read-Writes :
      (st : Status) (status m : Members) (p : Option Proposed)
      → Writes (IsWritten st) (on_read out r spec st status m p)
  unfolding on_read decide_offer
  on_read-Writes st status m none = fail-Writes st
  on_read-Writes st status m (some p) = record_decision-Writes _ _ _ (act_on-Writes st _)

  on_proposal-Writes :
      (st : Status) (status : Members) (x : Option Members)
      → Writes (IsWritten st) (on_proposal out r spec st status x)
  unfolding on_proposal
  on_proposal-Writes st status none = fail-Writes st
  on_proposal-Writes st status (some m) = on_read-Writes st status m _

  on_status-Saves :
      (st : Status) (x : Option Members) → Saves (IsWritten st) (on_status out r spec st x)
  unfolding on_status
  on_status-Saves st none = (fail-Writes st).saves
  on_status-Saves st (some status) = λ x. (on_proposal-Writes st status x).saves

  -- Each status that the direct path may write keeps the pending action, with the phase as it was or
  -- Failed (the reservation and the early failures); or its phase is Completed, Failed, PendingApproval
  -- or PolicyDenied, never Running, and a pending action is there only under PendingApproval, and is
  -- undecided.
  pub reconcile_direct-IsWritten :
      (st : Status) → Saves (IsWritten st) (reconcile_direct out r spec st)
  unfolding reconcile_direct
  reconcile_direct-IsWritten st = on_status-Saves st
