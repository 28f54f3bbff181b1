-- ===== src/Controller/Direct/Running.antt =====
-- internal/controller/agentworkload_controller.go: a run of the direct path that no one disturbs.
use agentic_operator_core.Base.{
  Bool, true, false, not, Option, none, some, List, [], ◌∷◌, ◌++◌, ◌≡◌, refl, sym, if◌then◌else◌,
  arith, ap,
}
use agentic_operator_core.Base.Text.{Text, txt, text_eq}
use agentic_operator_core.Base.Strings.{elem}
use agentic_operator_core.Base.Json.{Members}
use agentic_operator_core.Base.Try.{ok, err}
use agentic_operator_core.Decision.Model.{is_allow}
use agentic_operator_core.Receipts.{DecisionRecord}
use agentic_operator_core.Controller.{Status}
use agentic_operator_core.Controller.Actions.{Reconciler}
use agentic_operator_core.Controller.Direct.{
  Spec, Outside, Turn, finish, tool, save, append, Recorded, Logged, Requeue, after, Refusal,
}
use agentic_operator_core.Controller.Direct.Deciding.{
  blank_record, new_record, unrecorded, record_decision,
}
use agentic_operator_core.Controller.Direct.Acting.{
  Offer, save_or_log, publish, settle, reserved, payload_of, execute_offer, act_on, deciding,
  decide_offer, requeue_of, after_refusal,
}
use agentic_operator_core.Controller.Direct.Traces.{Event, saved, written, called}
use mathlib.Core.Path.{subst}

-- The replies of the MCP server, the API server and the receipt writer.
pub record Answers : Type 0 where
  pub reply : Text → Members → Option Members
  pub refusal : Status → Option Refusal
  pub log : DecisionRecord → Option Logged

abbrev pub then_event : Event → List Event × Requeue → List Event × Requeue
then_event e (l, q) = (e ∷ l, q)

-- The events of a run, in their order, and its result.
unfoldable pub run : Answers → Turn → List Event × Requeue
run a (finish q) = ([], q)
run a (tool name args k) = then_event (called name args) (run a (k (a.reply name args)))
run a (save st k) = elim (a.refusal st) [
  | none ↦ then_event (saved st) (run a (k none))
  | some e ↦ run a (k (some e))
]
run a (append rec k) = elim (a.log rec) [
  | none ↦ run a (k none)
  | some l ↦ then_event (written rec l) (run a (k (some l)))
]

-- The run ends with the call of execute_action and a status that says that it was executed.
pub record IsExecuted (payload : Members) (x : List Event × Requeue) : Type 0 where
  pub earlier : List Event
  pub final : Status
  pub events : x.0 ≡ earlier ++ called (txt "execute_action") payload ∷ saved final ∷ []
  pub completed : final.phase ≡ txt "Completed"
  pub unheld : final.pending ≡ none
  pub requeued : x.1 ≡ after 30

if-Executed :
    {payload : Members} (a : Answers) (b : Bool) (t u : Turn)
    → (b ≡ true → IsExecuted payload (run a t))
    → (b ≡ false → IsExecuted payload (run a u))
    → IsExecuted payload (run a (if b then t else u))
if-Executed a true t u f g = f refl
if-Executed a false t u f g = g refl

then-Executed :
    {payload : Members} (e : Event) (x : List Event × Requeue)
    → IsExecuted payload x
    → IsExecuted payload (then_event e x)
then-Executed e x h = record {
  earlier = e ∷ h.earlier;
  final = h.final;
  events = ap (λ l. e ∷ l) h.events;
  completed = h.completed;
  unheld = h.unheld;
  requeued = h.requeued;
}

append-Executed :
    {payload : Members} (a : Answers) (rec : DecisionRecord) (k : Option Logged → Turn) (l : Logged)
    → a.log rec ≡ some l
    → IsExecuted payload (run a (k (some l)))
    → IsExecuted payload (run a (append rec k))
unfolding run
append-Executed a rec k l g h = rw (g, run) (then-Executed (written rec l) _ h)

module _ (out : Outside) (r : Reconciler) (spec : Spec) (a : Answers)
    (accepts : (st : Status) → a.refusal st ≡ none) where
  save-Executed :
      {payload : Members} (st : Status) (k : Option Refusal → Turn)
      → IsExecuted payload (run a (k none))
      → IsExecuted payload (run a (save st k))
  unfolding run
  save-Executed st k h = rw (accepts st, run) (then-Executed (saved st) _ h)

  settle-Executed :
      (st : Status) (o : Offer) (rec : Recorded) (m : Members)
      → IsExecuted (payload_of out r spec o) (
          then_event
            (called (txt "execute_action") (payload_of out r spec o))
            (run a (settle out r spec st o rec (some m))))
  unfolding settle publish save_or_log run elem text_eq requeue_of
  settle-Executed st o rec m = rw (accepts _) (record {
    earlier = [];
    final = _;
    events = refl;
    completed = refl;
    unheld = refl;
    requeued = refl;
  })

  module _ (st : Status) (o : Offer) (m : Members)
      (answer : a.reply (txt "execute_action") (payload_of out r spec o) ≡ some m) where
    execute_offer-Executed :
        (rec : Recorded)
        → IsExecuted (payload_of out r spec o) (run a (execute_offer out r spec st o rec))
    unfolding execute_offer run
    execute_offer-Executed rec =
        let st' = reserved out r spec st o.proposed.action rec in
        let k : Option Refusal → Turn = λ x. elim x [
          | some e ↦ finish (after_refusal e)
          | none ↦
              tool (txt "execute_action") (payload_of out r spec o) (settle out r spec st' o rec)
        ] in
        save-Executed st' k (
          subst
            (λ x. IsExecuted (payload_of out r spec o) (
              then_event (called (txt "execute_action") (payload_of out r spec o))
                (run a (settle out r spec st' o rec x))))
            (sym answer) (settle-Executed st' o rec m))

    act_on-Executed :
        (rec : Recorded)
        → is_allow (deciding out r spec st o).result.outcome ≡ true
        → IsExecuted
            (payload_of out r spec o)
            (run a (act_on out r spec st o (deciding out r spec st o).result rec))
    unfolding act_on
    act_on-Executed rec h =
        if-Executed a (is_allow (deciding out r spec st o).result.outcome) _ _
          (λ e. execute_offer-Executed rec) (λ e. absurd (ground (arith, e, h)))

    -- An allowed offer is executed: if the record of its decision can be made, a receipt writer is
    -- configured and writes, the API server accepts each update and the MCP server executes the action,
    -- then the path from the decision on ends with the call of execute_action, with the payload that was
    -- decided on, followed by a status in phase Completed without a pending action, and it is queued
    -- again after 30 seconds.
    pub decide_offer-IsExecuted :
        (made : DecisionRecord) (l : Logged)
        → is_allow (deciding out r spec st o).result.outcome ≡ true
        → new_record out r spec (deciding out r spec st o) ≡ ok made
        → out.writer ≡ true
        → a.log made ≡ some l
        → IsExecuted (payload_of out r spec o) (run a (decide_offer out r spec st o))
    unfolding decide_offer record_decision run
    decide_offer-IsExecuted made l allowed e w g =
        let k : Option Logged → Turn = λ reply. elim reply [
          | none ↦ unrecorded out r spec (deciding out r spec st o) made (act_on out r spec st o)
          | some l' ↦
              act_on out r spec st o (deciding out r spec st o).result
                (record { made = made; receipt = some l' })
        ] in
        if-Executed a (not r.receipts_enabled) _ _ (λ x. act_on-Executed _ allowed)
          (λ x.
            subst
              (λ t. IsExecuted (payload_of out r spec o) (
                run a (elim t [
                  | err e ↦
                      unrecorded out r spec (deciding out r spec st o) blank_record
                        (act_on out r spec st o)
                  | ok rec ↦
                      if not out.writer
                      then unrecorded out r spec (deciding out r spec st o) rec
                          (act_on out r spec st o)
                      else append rec (λ reply. elim reply [
                        | none ↦
                            unrecorded out r spec (deciding out r spec st o) rec
                              (act_on out r spec st o)
                        | some l' ↦
                            act_on out r spec st o (deciding out r spec st o).result
                              (record { made = rec; receipt = some l' })
                      ])
                ])))
              (sym e)
              (if-Executed a (not out.writer) _ _ (λ y. absurd (ground (arith, w, y)))
                (λ y.
                  append-Executed a made k l g
                    (act_on-Executed (record { made = made; receipt = some l }) allowed))))
