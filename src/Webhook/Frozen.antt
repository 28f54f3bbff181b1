-- ===== src/Webhook/Frozen.antt =====
-- api/v1alpha1/agentworkload_webhook.go: what an update cannot change while an approval is pending.
use agentic_operator_core.Base.{
  true, not, ◌||◌, Option, none, some, List, [], ◌∷◌, ◌++◌, ◌≡◌, refl, ◌∙◌, ap, is_empty, arith,
  if◌then◌else◌,
}
use agentic_operator_core.Base.Int.{ℤ}
use agentic_operator_core.Base.Text.{Text, txt, text_eq, eq_of_text_eq}
use agentic_operator_core.Base.Strings.{join}
use agentic_operator_core.Input.{Declared}
use agentic_operator_core.Decision.Model.{ModelMode}
use agentic_operator_core.Receipts.{WorkloadRef}
use agentic_operator_core.Controller.{Status}
use agentic_operator_core.Controller.Actions.{Reconciler}
use agentic_operator_core.Controller.Direct.{Spec, Outside}
use agentic_operator_core.Controller.Direct.Acting.{
  Offer, deciding, layers_offered, input_of, payload_of,
}
use agentic_operator_core.Controller.Direct.Proposal.{decision_input}
use agentic_operator_core.Webhook.{
  or_empty, WorkloadSpec, HeldStatus, ModelSettings, WebhookOutside, string_ptr_equal, validate,
  validate_update, approval_freeze, changed_fields, is_held, immutable_error,
}
use agentic_operator_core.Webhook.Accepted.{append_empty, unless_empty, refuse_empty}

-- `DecisionModelMode`
unfoldable pub mode_of : Option ModelSettings → ModelMode
mode_of none = ModelMode.shadow
mode_of (some m) =
    if is_empty m.mode || text_eq m.mode (txt "shadow")
    then ModelMode.shadow
    else if text_eq m.mode (txt "off")
    then ModelMode.off
    else if text_eq m.mode (txt "escalate")
    then ModelMode.escalate
    else ModelMode.unknown m.mode

unfoldable pub micro_of : Option ModelSettings → Option ℤ
micro_of none = none
micro_of (some m) = m.threshold_micro

-- The spec as the direct path of the reconciler reads it.
unfoldable pub direct_spec : WorkloadRef → WorkloadSpec → Spec
direct_spec ref s = record {
  ref = ref;
  endpoint = or_empty s.mcp_server_endpoint;
  objective = or_empty s.objective;
  opa_policy = s.opa_policy;
  declared = s.declared_intent;
  model = record {
    mode = mode_of s.decision_model;
    threshold_micro = micro_of s.decision_model;
    policy_packs = s.policy_packs;
  };
}

-- The objective plays no part in a decision.
deciding_objective :
    (env : Outside) (r : Reconciler) (s : Spec) (objective : Text) (st : Status) (o : Offer)
    → deciding env r (record s { objective = objective }) st o ≡ deciding env r s st o
unfolding deciding layers_offered input_of payload_of decision_input
deciding_objective env r s objective st o = refl

-- The semantic DeepEqual holds of equal values only; a nil slice and an empty one are one list here.
pub record IsDeepEqual (out : WebhookOutside) : Type 0 where
  pub declared : (a b : Option Declared) → out.same_declared a b ≡ true → a ≡ b
  pub packs : (a b : List Text) → out.same_packs a b ≡ true → a ≡ b
  pub model : (a b : Option ModelSettings) → out.same_model a b ≡ true → a ≡ b

eq_of_string_ptr_equal : (a b : Option Text) → string_ptr_equal a b ≡ true → a ≡ b
unfolding string_ptr_equal
eq_of_string_ptr_equal none none h = refl
eq_of_string_ptr_equal (some a) (some b) h = ap some (eq_of_text_eq a b h)
eq_of_string_ptr_equal none (some b) h = absurd (cc h)
eq_of_string_ptr_equal (some a) none h = absurd (cc h)

module _ (out : WebhookOutside) (art : ℤ) (st : HeldStatus) (old new : WorkloadSpec) where
  freeze-unchanged :
      approval_freeze out st old new ≡ [] → is_held out st ≡ true → changed_fields out old new ≡ []
  unfolding approval_freeze
  freeze-unchanged h held =
      elim (changed_fields out old new)
          as (λ x.
            (if not (is_held out st) || is_empty x
                then []
                else (txt "spec."
                    ++ (join (txt ", spec.") x
                        ++ txt
                            " cannot change while an approval is pending. Approve, reject or edit the pending action first"))
                  ∷ [])
              ≡ []
            → x ≡ []) [ [] ↦ λ e. refl | f ∷ l ↦ λ e. absurd (cc (rw held at e)) ]
        h

  update-parts :
      validate_update out art st old new ≡ []
      → (string_ptr_equal new.mcp_server_endpoint old.mcp_server_endpoint ≡ true)
        × (approval_freeze out st old new ≡ [])
  unfolding validate_update
  update-parts h =
      elim (validate out art new)
          as (λ x.
            (if not (is_empty x)
                then x
                else if not (string_ptr_equal new.workload_type old.workload_type)
                then immutable_error out (txt "spec.workloadType") new.workload_type
                    old.workload_type
                  ∷ []
                else if not (string_ptr_equal new.mcp_server_endpoint old.mcp_server_endpoint)
                then immutable_error out (txt "spec.mcpServerEndpoint") new.mcp_server_endpoint
                    old.mcp_server_endpoint
                  ∷ []
                else approval_freeze out st old new)
              ≡ []
            → (string_ptr_equal new.mcp_server_endpoint old.mcp_server_endpoint ≡ true)
              × (approval_freeze out st old new ≡ [])) [
                | [] ↦ λ e.
                    let (a, b) =
                      (refuse_empty (not (string_ptr_equal new.workload_type old.workload_type)) _
                          _).0
                        e in
                    let (c, d) =
                      (refuse_empty
                          (not (string_ptr_equal new.mcp_server_endpoint old.mcp_server_endpoint)) _
                          _).0
                        b in
                    (ground (arith, c), d)
                | m ∷ l ↦ λ e. absurd (cc e)
              ]
        h

  module _ (equality : IsDeepEqual out) where
    changed-same :
        changed_fields out old new ≡ []
        → (old.declared_intent ≡ new.declared_intent)
          × (old.policy_packs ≡ new.policy_packs)
          × (old.opa_policy ≡ new.opa_policy)
          × (old.decision_model ≡ new.decision_model)
    unfolding changed_fields
    changed-same h =
        let (a, h1) = (append_empty _ _).0 h in
        let (b, h2) = (append_empty _ _).0 h1 in
        let (c, h3) = (append_empty _ _).0 h2 in
        let (d, e) = (append_empty _ _).0 h3 in
        (
          equality.declared _ _ ((unless_empty _ _).0 a),
          equality.packs _ _ ((unless_empty _ _).0 b),
          eq_of_string_ptr_equal _ _ ((unless_empty _ _).0 c),
          equality.model _ _ ((unless_empty _ _).0 d),
        )

    direct_spec-same :
        (ref : WorkloadRef)
        → validate_update out art st old new ≡ []
        → is_held out st ≡ true
        → direct_spec ref new
          ≡ record (direct_spec ref old) { objective = (direct_spec ref new).objective }
    unfolding direct_spec
    direct_spec-same ref h held =
        let (endpoint, freeze) = update-parts h in
        let (declared, packs, policy, model) = changed-same (freeze-unchanged freeze held) in
        let host = eq_of_string_ptr_equal _ _ endpoint in
        rw (host, declared, packs, policy, model) refl

    -- While an approval is pending, no update that the webhook accepts changes what is decided: on every
    -- offer the layers, the result with the decision model and what is recorded of them are the same under
    -- the new spec as under the old, if the semantic equality of the API machinery holds of equal values
    -- only.
    pub validate_update-deciding :
        (env : Outside) (r : Reconciler) (ref : WorkloadRef) (status : Status) (o : Offer)
        → validate_update out art st old new ≡ []
        → is_held out st ≡ true
        → deciding env r (direct_spec ref new) status o
          ≡ deciding env r (direct_spec ref old) status o
    validate_update-deciding env r ref status o h held =
        ap (λ s. deciding env r s status o) (direct_spec-same ref h held)
        ∙ deciding_objective env r (direct_spec ref old) _ status o
