-- ===== src/Receipts/Record.antt =====
-- pkg/receipts/record.go: `NewDecisionRecord`, `NewHumanRecord` and what they are made of.
use agentic_operator_core.Base.{
  Bool, false, not, ◌&&◌, ◌||◌, ◌==◌, Option, none, some, List, [], ◌∷◌, ◌++◌, length, any,
  is_empty, if◌then◌else◌, map,
}
use agentic_operator_core.Base.Float.{Float64}
use agentic_operator_core.Base.Text.{Text, txt, text_eq}
use agentic_operator_core.Base.Strings.{cut, sort_strings}
use agentic_operator_core.Base.Crypto.{hex_encode}
use agentic_operator_core.Base.Json.{
  Json, integer, string, array, object, Members, empty, member, strings,
}
use agentic_operator_core.Base.Try.{Try, ok, err, ◌>>=◌}
use agentic_operator_core.Input.{Input, Declared, Observed, AgentClaimed, host}
use agentic_operator_core.Decision.{Layers, Result, Outcome, Layer}
use agentic_operator_core.Decision.Model.{ModelMode, Score}
use agentic_operator_core.Receipts.{
  Reason, Model, ApprovalBlock, DecisionRecord, Params, HumanParams, Codecs,
}

-- The strings of `Outcome` and `ModelMode`.
abbrev pub outcome_text : Outcome → Text
outcome_text Outcome.allow = txt "allow"
outcome_text Outcome.require_approval = txt "require_approval"
outcome_text Outcome.deny = txt "deny"
outcome_text (Outcome.unknown s) = s

abbrev pub mode_text : ModelMode → Text
mode_text ModelMode.off = txt "off"
mode_text ModelMode.shadow = txt "shadow"
mode_text ModelMode.escalate = txt "escalate"
mode_text (ModelMode.unknown s) = s

-- An error and its message.
unfoldable pub error_message : Option Text → Text
error_message none = []
error_message (some e) = e

unfoldable pub new_model_block : ModelMode → Score → Option Text → Result → Result → Model
new_model_block mode s e base final = record {
  schema_version = 2;
  mode = mode_text mode;
  id = s.model_id;
  version = s.version;
  artifact_sha256 = s.artifact_sha256;
  feature_spec = s.feature_spec;
  feature_hash = s.feature_hash;
  option_set = txt "allow" ∷ txt "require_approval" ∷ [];
  option_micro = s.option_micro.allow ∷ s.option_micro.require_approval ∷ [];
  risk_micro = s.risk_micro;
  claimed_risk_micro = s.claimed_risk_micro;
  baseline_risk_micro = s.baseline_risk_micro;
  baseline_feature_hash = s.baseline_feature_hash;
  threshold_micro = s.threshold_micro;
  calibration = s.calibration;
  reason_codes = s.reason_codes;
  base_outcome = outcome_text base.outcome;
  outcome = outcome_text final.outcome;
  error = error_message e;
}

unfoldable pub outcome_for_label : Text → Try Text
outcome_for_label l =
    if text_eq l (txt "approve")
    then ok (txt "approved")
    else if text_eq l (txt "reject")
    then ok (txt "rejected")
    else if text_eq l (txt "edit")
    then ok (txt "edited")
    else err (txt "receipts: unknown approval label")

unfoldable pub split_reason : Text → Text → Reason
split_reason s fallback =
    let (id, rest, found) = cut s (txt ": ") in
    if found && not (is_empty id) && not (any (λ c. c == 32 || c == 9) id)
    then record { rule_id = id; reason = rest }
    else record { rule_id = fallback; reason = s }

unfoldable pub pack_error_reason : Option Text → List Reason
pack_error_reason none = []
pack_error_reason (some e) = record { rule_id = txt "pack-error"; reason = e } ∷ []

unfoldable pub reasons_from_layers : Layers → List Reason
reasons_from_layers l =
    map (λ s. split_reason s (txt "invariant")) l.invariants
    ++ (pack_error_reason l.pack_err
        ++ (map (λ s. split_reason s (txt "pack")) l.pack_deny
            ++ (map (λ s. split_reason s (txt "pack")) l.pack_approval
                ++ map (λ s. record { rule_id = txt "threshold"; reason = s })
                    l.threshold_reasons)))

unfoldable pub map_outcome : Outcome → Try Text
map_outcome (Outcome.unknown s) = err (txt "receipts: unknown outcome")
map_outcome o = ok (outcome_text o)

unfoldable pub map_layer : Layer → Try Text
map_layer Layer.invariant = ok (txt "invariant")
map_layer Layer.pack = ok (txt "rules")
map_layer Layer.threshold = ok (txt "threshold")
map_layer Layer.model = ok (txt "model")
map_layer _ = err (txt "receipts: unknown layer")

unfoldable pub map_result : Result → Try (Text × Text)
map_result r = map_outcome r.outcome >>= λ o. map_layer r.layer >>= λ l. ok (o, l)

unfoldable pub execution_payload : Text → Members → Text → Members
execution_payload action params confidence =
    member (txt "action") (string action)
      (member (txt "confidence") (string confidence) (member (txt "params") (object params) empty))

unfoldable pub canon_declared : Declared → Json
canon_declared d = object (
    member (txt "allowed_data_classes") (array (strings d.allowed_data_classes)) (
      member (txt "allowed_destinations") (array (strings d.allowed_destinations)) (
        member (txt "decision_type") (string d.decision_type)
          (member (txt "purpose") (string d.purpose) empty))))

unfoldable pub canon_observed : Observed → Json
canon_observed o = object (
    member (txt "caller_identity") (string o.caller_identity) (
      member (txt "data_classes") (array (strings o.data_classes)) (
        member (txt "destination") (string o.destination) (
          member (txt "prior_action_count") (integer o.prior_action_count) (
            member (txt "prior_denied_count") (integer o.prior_denied_count)
              (member (txt "tool") (string o.tool) empty))))))

module _ (c : Codecs) where
  -- `decimal`: nil is the empty text.
  unfoldable pub decimal_of : Option Float64 → Text
  decimal_of none = []
  decimal_of (some f) = c.format_float f

  unfoldable pub canon_claimed : AgentClaimed → Json
  canon_claimed a = object (
      member (txt "cluster_health") (string (decimal_of a.cluster_health)) (
        member (txt "confidence") (string (decimal_of a.confidence))
          (member (txt "intent") (string a.intent) empty)))

  unfoldable pub hash_hex : Json → Try Text
  hash_hex j = c.hash_json j >>= λ h. ok (hex_encode h)

  unfoldable pub canon_input : Input → Text → Json
  canon_input i payload = object (
      member (txt "agent_claimed") (canon_claimed i.claimed) (
        member (txt "declared") (canon_declared i.declared) (
          member (txt "observed") (canon_observed i.observed)
            (member (txt "payload_sha256") (string payload) empty))))

  unfoldable pub input_hash : Input → Text → Try Text
  input_hash i payload = hash_hex (canon_input i payload)

  unfoldable pub payload_sha256_of : Json → Try Text
  payload_sha256_of payload = c.marshal payload >>= c.unmarshal >>= c.marshal >>= λ canon.
      ok (hex_encode (c.sha256 (txt "clawdlinux.decision.payload.v1" ++ 0 ∷ canon)))

  -- The composite literal at the end of `NewDecisionRecord`.
  unfoldable pub record_with :
      Params → Text × Text → Text → Text → Text → Text → Text → DecisionRecord
  record_with p verdict payload hash decl obs claim = record {
    schema_version = 1;
    workload = p.workload;
    action = p.action;
    layer = verdict.1;
    outcome = verdict.0;
    reasons = reasons_from_layers p.layers;
    input_hash = hash;
    payload_sha256 = payload;
    declared = record {
      sha256 = decl;
      decision_type = p.input.declared.decision_type;
      allowed_data_classes = sort_strings p.input.declared.allowed_data_classes;
      allowed_destinations = sort_strings p.input.declared.allowed_destinations;
    };
    observed = record {
      sha256 = obs;
      destination_host = host c.net p.input.observed.destination;
      data_classes = sort_strings p.input.observed.data_classes;
      tool = p.input.observed.tool;
      prior_action_count = p.input.observed.prior_action_count;
      prior_denied_count = p.input.observed.prior_denied_count;
    };
    claimed = record {
      sha256 = claim;
      confidence = decimal_of p.input.claimed.confidence;
      cluster_health = decimal_of p.input.claimed.cluster_health;
    };
    policy_packs = sort_strings p.policy_packs;
    threshold_mode = p.threshold_mode;
    model = p.model;
    approval = none;
    replay_hint =
        txt
          "deterministic-v1: rerun invariants, policy_packs, and threshold_mode on an input matching input_hash";
  }

  unfoldable pub new_decision_record : Params → Try DecisionRecord
  new_decision_record p = map_result p.result >>= λ verdict.
      payload_sha256_of p.payload >>= λ payload. input_hash p.input payload >>= λ hash.
      hash_hex (canon_declared p.input.declared) >>= λ decl.
      hash_hex (canon_observed p.input.observed) >>= λ obs.
      hash_hex (canon_claimed p.input.claimed) >>= λ claim.
      ok (record_with p verdict payload hash decl obs claim)

  unfoldable pub identity_digest : Text → Text
  identity_digest name =
      txt "sha256:" ++ hex_encode (c.sha256 (txt "clawdlinux.org/human-identity/v1" ++ 0 ∷ name))

  unfoldable pub consumed_id_sha256_of : Text → Text → Text
  consumed_id_sha256_of uid id =
      hex_encode (c.sha256 (txt "clawdlinux.org/approval-consumed/v1" ++ 0 ∷ uid ++ 0 ∷ id))

  unfoldable pub is_incomplete : ApprovalBlock → Bool
  is_incomplete a =
      is_empty a.approver || not (length a.approver_sha256 == 64) || is_empty a.pending_id

  unfoldable pub human_params : HumanParams → Params
  human_params p = record {
    workload = p.workload;
    action = p.action;
    input = p.input;
    payload = p.payload;
    layers = record {
      invariants = [];
      pack_err = none;
      pack_deny = [];
      pack_approval = [];
      threshold_allowed = false;
      threshold_reasons = [];
    };
    result = record { outcome = Outcome.allow; layer = Layer.threshold; reasons = [] };
    policy_packs = p.policy_packs;
    threshold_mode = p.threshold_mode;
    model = none;
  }

  unfoldable pub human_block : HumanParams → ApprovalBlock
  human_block p = record (p.approval) {
    edited_fields = sort_strings p.approval.edited_fields;
    consumed_id_sha256 = consumed_id_sha256_of p.workload.uid p.approval.pending_id;
    approver = identity_digest p.approval.approver;
  }

  unfoldable pub human_record : HumanParams → Text → DecisionRecord → DecisionRecord
  human_record p outcome rec =
      let a = human_block p in
      record rec {
        layer = txt "human";
        outcome = outcome;
        reasons =
            record { rule_id = txt "approver"; reason = a.approver }
            ∷ record {
              rule_id = txt "approval-reason";
              reason =
                  if is_empty a.reason_sha256 then txt "none" else txt "sha256:" ++ a.reason_sha256;
            }
            ∷ record { rule_id = txt "approval-of"; reason = a.pending_id }
            ∷ [];
        approval = some a;
      }

  unfoldable pub new_human_record : HumanParams → Try DecisionRecord
  new_human_record p = outcome_for_label p.approval.label >>= λ outcome.
      if is_incomplete p.approval
      then err (txt "receipts: human record needs approver, approver hash, and pending id")
      else new_decision_record (human_params p) >>= λ rec. ok (human_record p outcome rec)
