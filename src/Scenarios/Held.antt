-- ===== src/Scenarios/Held.antt =====
-- A workload that holds an action under a human decision, for the examples of the reconciler.
use agentic_operator_core.Base.{true, none, some, []}
use agentic_operator_core.Base.Float.{Float64}
use agentic_operator_core.Base.Text.{txt}
use agentic_operator_core.Approval
use agentic_operator_core.Approval.{Label, value, Annotations, Approver}
use agentic_operator_core.Controller.{PendingApproval, Status, Workload, undecided}
use agentic_operator_core.Controller.Actions.{Surroundings, Reconciler}
use agentic_operator_core.Scenarios.{
  toy_crypto, toy_codec, plain_hosts, plain_format, quiet_input, context, zeros,
}

abbrev pub surroundings : Surroundings
surroundings = record {
  crypto = toy_crypto;
  codec = toy_codec;
  net = plain_hosts;
  format = plain_format;
  parse_float = λ s. Float64.rank 7;
  proposal_readable = λ s. true;
  edited_payload = λ e. e.params;
  observe = λ wl tgt. quiet_input;
  eval_packs = λ packs i. (none, ([], []));
  error_text = λ e. txt "error";
  quote = λ s. s;
}

abbrev pub reconciler : Reconciler
reconciler = record {
  stamp_key = zeros 32;
  receipts_enabled = true;
  receipts_required = true;
  context = context;
}

abbrev pub pending : PendingApproval
pending = record {
  id = txt "p1";
  action = txt "restart";
  description = [];
  confidence = txt "0.9";
  cluster_health = txt "90";
  claimed_cluster_health = txt "90";
  proposal = txt "{}";
  decision_record = txt "{}";
  receipt_seq = 1;
  receipt_entry_hash = txt "ab";
  proposed_at = txt "2026-01-12T10:00:00Z";
  state = undecided;
  decision = none;
}

abbrev pub empty_status : Status
empty_status = record {
  phase = [];
  pending = none;
  last = none;
  consumed = [];
  decision_condition = none;
  conditions = [];
  executed_actions = [];
  proposed_actions = [];
}

abbrev pub workload : Workload
workload = record {
  uid = txt "uid";
  annotations = record {
    decision = none;
    reason = none;
    edit = none;
    by = none;
    target = none;
    mac = none;
  };
  mode = txt "strict";
  policy_packs = [];
  status = empty_status;
}

-- The workload with a decision that the webhook stamped.
abbrev pub decided_annotations : Annotations
decided_annotations =
    let by =
      toy_codec.encode_approver
        (record { username = txt "bob"; groups_sha256 = Approval.sha256_hex toy_crypto [] }) in
    let a : Annotations = record (workload.annotations) {
      decision = some (txt "approve");
      by = some by;
      target = some (txt "p1");
    } in
    record a {
      mac = some (
          Approval.mac_of toy_crypto (zeros 32)
            (record {
              id = txt "p1";
              workload_uid = txt "uid";
              payload_sha256 = Approval.pending_sha256 toy_crypto (txt "{}");
            })
            a);
    }

abbrev pub held : Workload
held = record workload {
  annotations = decided_annotations;
  status = record empty_status { phase = txt "PendingApproval"; pending = some pending };
}

abbrev pub decision : Approval.Decision
decision = record {
  label = Label.approve;
  reason = [];
  edit = none;
  approver = record { username = txt "bob"; groups_sha256 = Approval.sha256_hex toy_crypto [] };
  approver_raw = value decided_annotations.by;
  target = txt "p1";
}
