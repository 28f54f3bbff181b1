-- ===== src/Controller/Direct/Acting.antt =====
-- internal/controller/agentworkload_controller.go: the direct path, from the status of the cluster to the
-- status that it writes; internal/controller/reservation.go.
use agentic_operator_core.Base.{
  Bool, true, false, ◌||◌, Option, none, some, List, [], ◌∷◌, ◌++◌, if◌then◌else◌,
}
use agentic_operator_core.Base.Float.{Float64}
use agentic_operator_core.Base.Text.{Text, txt, text_eq}
use agentic_operator_core.Base.Strings.{elem, join, decimal}
use agentic_operator_core.Base.Json.{Members, object, string, member, empty}
use agentic_operator_core.Decision.{Layers, Layer, Result, Outcome, decide}
use agentic_operator_core.Decision.Model.{is_allow}
use agentic_operator_core.Receipts.{Model}
use agentic_operator_core.Receipts.Record.{execution_payload, new_model_block}
use agentic_operator_core.Controller.{Input, Status}
use agentic_operator_core.Controller.Actions.{
  upsert_condition, Reconciler, evaluate_threshold, evaluate_layers, last_of, max_actions,
}
use agentic_operator_core.Controller.Scoring.{apply_decision_model, Applied}
use agentic_operator_core.Controller.Direct.{
  Refusal, Spec, Outside, Turn, finish, tool, save, Recorded, Requeue, retry, after, conflict,
  failure,
}
use agentic_operator_core.Controller.Direct.Proposal.{
  Proposed, read_proposal, cluster_health, decision_input, safe_log_text,
}
use agentic_operator_core.Controller.Direct.Deciding.{
  Deciding, record_decision, new_pending_approval,
}

-- A status update whose refusal is only logged.
unfoldable pub save_or_log : Status → Requeue → Requeue → Turn
save_or_log st refused accepted =
    save st (λ x. elim x [ none ↦ finish accepted | some e ↦ finish refused ])

-- The early returns of `Reconcile`.
unfoldable pub fail : Status → Turn
fail st = save_or_log (record st { phase = txt "Failed" }) (after 30) (after 30)

-- A conflict is decided again at once; any other error is returned.
unfoldable pub after_refusal : Refusal → Requeue
after_refusal conflict = after 1
after_refusal failure = retry

abbrev pub is_approval : Outcome → Bool
is_approval Outcome.require_approval = true
is_approval _ = false

abbrev pub is_model : Layer → Bool
is_model Layer.model = true
is_model _ = false

abbrev pub layer_name : Layer → Text
layer_name Layer.unset = []
layer_name Layer.invariant = txt "invariant"
layer_name Layer.pack = txt "pack"
layer_name Layer.threshold = txt "threshold"
layer_name Layer.model = txt "model"
layer_name Layer.rules = txt "rules"
layer_name (Layer.unknown s) = s

-- The phases that the last step leaves as they are.
abbrev pub final_phases : List Text
final_phases = txt "Completed" ∷ txt "Failed" ∷ txt "PendingApproval" ∷ txt "PolicyDenied" ∷ []

unfoldable pub requeue_of : Text → Requeue
requeue_of phase =
    if text_eq phase (txt "PendingApproval") || text_eq phase (txt "PolicyDenied")
    then after 3600
    else after 30

-- The mode in force: strict where the spec names none.
unfoldable pub policy_mode : Option Text → Text
policy_mode none = txt "strict"
policy_mode (some m) = m

unfoldable pub is_strict : Option Text → Bool
is_strict none = false
is_strict (some m) = text_eq m (txt "strict")

-- The decision model's result, and its block for the receipt.
unfoldable pub model_block : Result → Option Applied → Result × Option Model
model_block base none = (base, none)
model_block base (some a) = (a.result, some (new_model_block a.mode a.score a.error base a.result))

-- An action that is taken up: the claims of the MCP server beside the proposal as it was sent.
pub record Offer : Type 0 where
  pub proposal : Members
  pub proposed : Proposed
  pub health : Float64
  pub claimed_health : Option Float64

unfoldable pub approval_reason : Layer → Text
approval_reason l = if is_model l then txt "ModelEscalation" else txt "PolicyPackApproval"

module _ (out : Outside) (r : Reconciler) (spec : Spec) where
  -- The end of `Reconcile`: the pending action, the phase and the status.
  unfoldable pub publish : Status → Offer → Recorded → Turn
  publish st o rec =
      let confidence = out.base.format.two_digits o.proposed.confidence in
      let held =
        if text_eq st.phase (txt "PendingApproval")
        then new_pending_approval out r spec o.proposed confidence o.proposal o.health
            o.claimed_health rec
        else none in
      let phase = if elem st.phase final_phases then st.phase else txt "Running" in
      save_or_log (record st { pending = held; phase = phase }) (after 30) (requeue_of phase)

  -- After `execute_action`.
  unfoldable pub settle : Status → Offer → Recorded → Option Members → Turn
  settle st o rec none =
      publish
        (record st {
          phase = txt "Failed";
          proposed_actions =
              last_of max_actions (st.proposed_actions ++ (o.proposed.action, false) ∷ []);
        })
        o rec
  settle st o rec (some reply) =
      publish
        (record st {
          phase = txt "Completed";
          executed_actions =
              last_of max_actions (st.executed_actions ++ (o.proposed.action, true) ∷ []);
        })
        o rec

  -- `reserveExecution`: the status that reserves the action.
  unfoldable pub reserved : Status → Text → Recorded → Status
  reserved st action rec = record st {
    conditions = upsert_condition st.conditions (record {
      kind = txt "ExecutionReserved";
      status = true;
      reason = txt "Reserved";
      message =
          txt "action "
          ++ (out.base.quote action ++ elim rec.receipt [
            | none ↦ txt " reserved for execution"
            | some l ↦ txt " reserved for execution after receipt " ++ decimal l.seq
          ]);
    });
  }

  unfoldable pub payload_of : Offer → Members
  payload_of o =
      execution_payload o.proposed.action o.proposal
        (out.base.format.two_digits o.proposed.confidence)

  -- The action is allowed: reserve, execute, settle.
  unfoldable pub execute_offer : Status → Offer → Recorded → Turn
  execute_offer st o rec =
      let st' = reserved st o.proposed.action rec in
      save st' (λ x. elim x [
        | some e ↦ finish (after_refusal e)
        | none ↦ tool (txt "execute_action") (payload_of o) (settle st' o rec)
      ])

  unfoldable pub log_safe : Text → Text
  log_safe = safe_log_text out.patterns

  -- The action is not allowed.
  unfoldable pub hold_offer : Status → Offer → Result → Recorded → Turn
  hold_offer st o result rec =
      let action = o.proposed.action in
      let st' : Status = record st {
        proposed_actions = last_of max_actions (st.proposed_actions ++ (action, false) ∷ []);
      } in
      let why = log_safe (join (txt "; ") result.reasons) in
      let named = out.base.quote (log_safe action) in
      if is_approval result.outcome
      then publish
          (record st' {
            phase = txt "PendingApproval";
            conditions = upsert_condition st.conditions (record {
              kind = txt "ApprovalRequired";
              status = true;
              reason = approval_reason result.layer;
              message = txt "action " ++ (named ++ (txt " needs human approval: " ++ why));
            });
          })
          o rec
      else if is_strict spec.opa_policy
      then publish
          (record st' {
            phase = txt "PolicyDenied";
            conditions = upsert_condition st.conditions (record {
              kind = txt "PolicyDenied";
              status = true;
              reason = txt "OPADenied";
              message =
                  txt "OPA denied action "
                  ++ (named ++ (txt " (" ++ (layer_name result.layer ++ (txt " layer): " ++ why))));
            });
          })
          o rec
      else publish (record st' { phase = txt "PendingApproval" }) o rec

  unfoldable pub act_on : Status → Offer → Result → Recorded → Turn
  act_on st o result rec =
      if is_allow result.outcome then execute_offer st o rec else hold_offer st o result rec

  unfoldable pub input_of : Status → Offer → Input
  input_of st o =
      decision_input out spec st.executed_actions st.proposed_actions o.proposal o.proposed
        o.claimed_health

  unfoldable pub layers_offered : Status → Offer → Layers
  layers_offered st o = evaluate_layers out.base r spec.model.policy_packs (input_of st o) (
      evaluate_threshold out.base r (policy_mode spec.opa_policy) o.proposed.action
        o.proposed.confidence o.health)

  -- The decision on an offer, the model's included, before it is recorded.
  unfoldable pub deciding : Status → Offer → Deciding
  deciding st o =
      let layers = layers_offered st o in
      let scored = model_block (decide layers) (
        apply_decision_model out.base.net out.hash_features out.model spec.model o.proposed.action
          (input_of st o) (decide layers)) in
      record {
        action = o.proposed.action;
        input = input_of st o;
        payload = payload_of o;
        layers = layers;
        result = scored.0;
        mode = policy_mode spec.opa_policy;
        model = scored.1;
      }

  unfoldable pub decide_offer : Status → Offer → Turn
  decide_offer st o = record_decision out r spec (deciding st o) (act_on st o)

  -- What follows the reading of the proposal, and the replies to `propose_action` and `get_status`.
  unfoldable pub on_read : Status → Members → Members → Option Proposed → Turn
  on_read st status m none = fail st
  on_read st status m (some p) =
      let health = cluster_health out status in
      decide_offer st
        (record { proposal = m; proposed = p; health = health.0; claimed_health = health.1 })

  unfoldable pub on_proposal : Status → Members → Option Members → Turn
  on_proposal st status none = fail st
  on_proposal st status (some m) = on_read st status m (read_proposal out m)

  unfoldable pub on_status : Status → Option Members → Turn
  on_status st none = fail st
  on_status st (some status) =
      tool (txt "propose_action")
        (member (txt "objective") (string spec.objective)
          (member (txt "status") (object status) empty))
        (on_proposal st status)

  -- The direct path of `Reconcile`.
  unfoldable pub reconcile_direct : Status → Turn
  reconcile_direct st = tool (txt "get_status") empty (on_status st)
