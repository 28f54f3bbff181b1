-- ===== src/Controller/Direct/Cleared.antt =====
-- internal/controller/agentworkload_controller.go: what clears an action that the direct path executes.
use agentic_operator_core.Base.{
  true, false, not, Option, none, some, List, [], ◌∷◌, ◌≡◌, refl, is_empty, if◌then◌else◌, arith,
}
use agentic_operator_core.Base.Text.{Text, txt, text_eq}
use agentic_operator_core.Controller.Direct.Proposal.{Proposed, read_proposal}
use agentic_operator_core.Base.Json.{Members}
use agentic_operator_core.Base.Try.{ok, err}
use agentic_operator_core.Invariants.Floor.{IsPermitted}
use agentic_operator_core.Decision.{Result}
use agentic_operator_core.Decision.Model.{is_allow}
use agentic_operator_core.Controller.{Status}
use agentic_operator_core.Controller.Actions.{Reconciler, human_blocked}
use agentic_operator_core.Controller.Direct.{
  DecisionRecord, Spec, Outside, append, Recorded, Logged,
}
use agentic_operator_core.Controller.Direct.Deciding.{
  blank_record, new_record, unrecorded, record_decision,
}
use agentic_operator_core.Controller.Direct.Acting.{
  layers_offered, input_of, Offer, save_or_log, publish, settle, reserved, payload_of,
  execute_offer, hold_offer, act_on, deciding, decide_offer, on_read, on_proposal, on_status,
  reconcile_direct, fail, is_approval, is_strict,
}
use agentic_operator_core.Controller.Direct.Closing.{fail_closed-denies}
use agentic_operator_core.Controller.Direct.Permits.{deciding-allow}
use agentic_operator_core.Controller.Direct.Traces.{Event, saved, written, Before, Meets, if-Meets}

module _ (out : Outside) (r : Reconciler) (spec : Spec) where
  -- What holds of an action, with these arguments, that is executed after the events `h`.
  pub record IsCleared (st : Status) (h : List Event) (args : Members) : Type 0 where
    pub offer : Offer
    pub rec : Recorded
    pub sent : args ≡ payload_of out r spec offer
    pub allowed : is_allow (deciding out r spec st offer).result.outcome ≡ true
    pub permitted : IsPermitted out.base.net (input_of out r spec st offer) r.context
    pub unblocked : human_blocked (layers_offered out r spec st offer) ≡ false
    pub within_threshold : (layers_offered out r spec st offer).threshold_allowed ≡ true
    pub unheld : is_empty (layers_offered out r spec st offer).pack_approval ≡ true
    pub earlier : List Event
    pub reservation : h ≡ saved (reserved out r spec st offer.proposed.action rec) ∷ earlier
    pub recorded :
        r.receipts_enabled ≡ true
        → r.receipts_required ≡ true
        → (l : Logged) × (e : List Event) × (new_record out r spec (deciding out r spec st offer)
            ≡ ok rec.made)
          × (rec.receipt ≡ some l)
          × (earlier ≡ written rec.made l ∷ e)

  abbrev pub ClearsExecution : Status → List Event → Text → Members → Type 0
  ClearsExecution st h name args = text_eq name (txt "execute_action") ≡ true → IsCleared st h args

  publish-Meets :
      (P : List Event → Text → Members → Type 0) (st : Status) (o : Offer) (rec : Recorded)
      (h : List Event)
      → Meets P h (publish out r spec st o rec)
  unfolding publish save_or_log
  publish-Meets P st o rec h = record { calls = (tt, λ e. tt) }

  fail-Meets :
      (P : List Event → Text → Members → Type 0) (st : Status) (h : List Event)
      → Meets P h (fail st)
  unfolding fail save_or_log
  fail-Meets P st h = record { calls = (tt, λ e. tt) }

  settle-Meets :
      (P : List Event → Text → Members → Type 0) (st : Status) (o : Offer) (rec : Recorded)
      (h : List Event) (x : Option Members)
      → Meets P h (settle out r spec st o rec x)
  unfolding settle
  settle-Meets P st o rec h none = publish-Meets P _ o rec h
  settle-Meets P st o rec h (some m) = publish-Meets P _ o rec h

  hold_offer-Meets :
      (P : List Event → Text → Members → Type 0) (st : Status) (o : Offer) (result : Result)
      (rec : Recorded) (h : List Event)
      → Meets P h (hold_offer out r spec st o result rec)
  unfolding hold_offer
  hold_offer-Meets P st o result rec h =
      if-Meets P (is_approval result.outcome) h _ _ (λ e. publish-Meets P _ o rec h)
        (λ e.
          if-Meets P (is_strict spec.opa_policy) h _ _ (λ f. publish-Meets P _ o rec h)
            (λ f. publish-Meets P _ o rec h))

  execute_offer-Meets :
      (P : List Event → Text → Members → Type 0) (st : Status) (o : Offer) (rec : Recorded)
      (h : List Event)
      → P
          (saved (reserved out r spec st o.proposed.action rec) ∷ h)
          (txt "execute_action")
          (payload_of out r spec o)
      → Meets P h (execute_offer out r spec st o rec)
  unfolding execute_offer
  execute_offer-Meets P st o rec h p = record {
    calls = ((p, λ x. (settle-Meets P _ o rec _ x).calls), λ e. tt);
  }

  module _ (st : Status) (o : Offer) where
    -- The receipt that must stand before the reservation.
    abbrev IsRecorded : List Event → Recorded → Type 0
    IsRecorded h rec =
        r.receipts_enabled ≡ true
        → r.receipts_required ≡ true
        → (l : Logged) × (e : List Event) × (new_record out r spec (deciding out r spec st o)
            ≡ ok rec.made)
          × (rec.receipt ≡ some l)
          × (h ≡ written rec.made l ∷ e)

    act_on-Meets :
        (h : List Event) (result : Result) (rec : Recorded)
        → (is_allow result.outcome ≡ true
            → (is_allow (deciding out r spec st o).result.outcome ≡ true) × IsRecorded h rec)
        → Meets (ClearsExecution st) h (act_on out r spec st o result rec)
    unfolding act_on
    act_on-Meets h result rec f =
        if-Meets (ClearsExecution st) (is_allow result.outcome) h _ _
          (λ a.
            let (allowed, written_before) = f a in
            let (permitted, blocked, th, held) = deciding-allow out r spec st o allowed in
            execute_offer-Meets (ClearsExecution st) st o rec h (λ e. record {
              offer = o;
              rec = rec;
              sent = refl;
              allowed = allowed;
              permitted = permitted;
              unblocked = blocked;
              within_threshold = th;
              unheld = held;
              earlier = h;
              reservation = refl;
              recorded = written_before;
            }))
          (λ a. hold_offer-Meets (ClearsExecution st) st o result rec h)

    unrecorded-Meets :
        (h : List Event) (made : DecisionRecord)
        → Meets
            (ClearsExecution st)
            h
            (unrecorded out r spec (deciding out r spec st o) made (act_on out r spec st o))
    unfolding unrecorded
    unrecorded-Meets h made =
        if-Meets (ClearsExecution st) r.receipts_required h _ _
          (λ q. act_on-Meets h _ _ (λ a.
            absurd (ground (arith, fail_closed-denies out r spec (deciding out r spec st o), a))))
          (λ q. act_on-Meets h _ _ (λ a. (a, λ x y. absurd (ground (arith, q, y)))))

    decide_offer-Meets :
        (h : List Event) → Meets (ClearsExecution st) h (decide_offer out r spec st o)
    unfolding decide_offer record_decision
    decide_offer-Meets h =
        let d = deciding out r spec st o in
        if-Meets (ClearsExecution st) (not r.receipts_enabled) h _ _
          (λ q. act_on-Meets h _ _ (λ a. (a, λ x y. absurd (ground (arith, q, x)))))
          (λ q.
            elim (new_record out r spec d)
                as (λ t.
                  new_record out r spec d ≡ t
                  → Meets (ClearsExecution st) h (elim t [
                    | err e ↦ unrecorded out r spec d blank_record (act_on out r spec st o)
                    | ok rec ↦
                        if not out.writer
                        then unrecorded out r spec d rec (act_on out r spec st o)
                        else append rec (λ reply. elim reply [
                          | none ↦ unrecorded out r spec d rec (act_on out r spec st o)
                          | some l ↦
                              act_on out r spec st o d.result
                                (record { made = rec; receipt = some l })
                        ])
                  ])) [
                    | err e ↦ λ t. unrecorded-Meets h blank_record
                    | ok rec ↦ λ t.
                        if-Meets (ClearsExecution st) (not out.writer) h _ _
                          (λ w. unrecorded-Meets h rec)
                          (λ w. record {
                            calls = (
                              λ l.
                                  (act_on-Meets (written rec l ∷ h) d.result
                                    (record { made = rec; receipt = some l })
                                    (λ a. (a, λ x y. (l, h, t, refl, refl)))).calls,
                              (unrecorded-Meets h rec).calls,
                            );
                          })
                  ]
              refl)

  on_read-Meets :
      (st : Status) (status m : Members) (p : Option Proposed) (h : List Event)
      → Meets (ClearsExecution st) h (on_read out r spec st status m p)
  unfolding on_read
  on_read-Meets st status m none h = fail-Meets _ st h
  on_read-Meets st status m (some p) h = decide_offer-Meets st _ h

  on_proposal-Meets :
      (st : Status) (status : Members) (x : Option Members) (h : List Event)
      → Meets (ClearsExecution st) h (on_proposal out r spec st status x)
  unfolding on_proposal
  on_proposal-Meets st status none h = fail-Meets _ st h
  on_proposal-Meets st status (some m) h = on_read-Meets st status m (read_proposal out m) h

  on_status-Meets :
      (st : Status) (x : Option Members) (h : List Event)
      → Meets (ClearsExecution st) h (on_status out r spec st x)
  unfolding on_status text_eq
  on_status-Meets st none h = fail-Meets _ st h
  on_status-Meets st (some status) h = record {
    calls = (λ e. absurd (ground (arith, e)), λ x. (on_proposal-Meets st status x _).calls);
  }

  -- Each call of execute_action that the direct path can make, whatever the replies to its effects,
  -- sends the payload of an offer on which the decision, the decision model's result included, is to
  -- allow it: the invariants permit its input, no pack denies it, fails or asks for an approval, and the
  -- threshold allows it. The last effect before the call is an accepted status that reserves the action;
  -- and if receipts are enabled and required, the effect before that is the receipt of this decision.
  pub reconcile_direct-IsCleared :
      (st : Status) → Before (ClearsExecution st) [] (reconcile_direct out r spec st)
  unfolding reconcile_direct text_eq
  reconcile_direct-IsCleared st =
      (λ e. absurd (ground (arith, e)), λ x. (on_status-Meets st x _).calls)
