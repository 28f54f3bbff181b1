-- ===== src/Controller/Direct/Deciding.antt =====
-- internal/controller/receipts.go: `recordDecision`, with the pending action that
-- internal/controller/approvals.go makes of a decision that it holds.
use agentic_operator_core.Base.{
  ◌&&◌, ℕ, true, false, not, Option, none, some, List, [], ◌∷◌, ◌++◌, take, if◌then◌else◌,
}
use agentic_operator_core.Base.Float.{Float64}
use agentic_operator_core.Base.Int.{pos}
use agentic_operator_core.Base.Crypto.{hex_encode}
use agentic_operator_core.Base.Text.{Text, txt, text_eq}
use agentic_operator_core.Base.Strings.{elem, join}
use agentic_operator_core.Base.Json.{Members, object}
use agentic_operator_core.Base.Try.{Try, ok, err}
use agentic_operator_core.Input.{Input}
use agentic_operator_core.Invariants.{Violation, check, show}
use agentic_operator_core.Decision.{Layers, Result, decide}
use agentic_operator_core.Receipts.{DecisionRecord, Model}
use agentic_operator_core.Receipts.Record.{new_decision_record}
use agentic_operator_core.Controller.{PendingApproval, undecided}
use agentic_operator_core.Controller.Actions.{Reconciler}
use agentic_operator_core.Controller.Direct.{Spec, Outside, Turn, append, Recorded, Logged}
use agentic_operator_core.Controller.Direct.Proposal.{Proposed}

-- `DecisionRecord{}`
abbrev pub blank_record : DecisionRecord
blank_record = record {
  schema_version = 0;
  workload = record { namespace = []; name = []; uid = [] };
  action = [];
  layer = [];
  outcome = [];
  reasons = [];
  input_hash = [];
  payload_sha256 = [];
  declared = record {
    sha256 = [];
    decision_type = [];
    allowed_data_classes = [];
    allowed_destinations = [];
  };
  observed = record {
    sha256 = [];
    destination_host = [];
    data_classes = [];
    tool = [];
    prior_action_count = pos 0;
    prior_denied_count = pos 0;
  };
  claimed = record { sha256 = []; confidence = []; cluster_health = [] };
  policy_packs = [];
  threshold_mode = [];
  model = none;
  approval = none;
  replay_hint = [];
}

-- The record, or the zero value beside an error.
unfoldable pub or_blank : Try DecisionRecord → DecisionRecord
or_blank (ok rec) = rec
or_blank (err e) = blank_record

-- What a decision is made of, as it is recorded.
pub record Deciding : Type 0 where
  pub action : Text
  pub input : Input
  pub payload : Members
  pub layers : Layers
  pub result : Result
  pub mode : Text
  pub model : Option Model

-- The loop over the violations of `Check` after a failed append.
unfoldable pub add_receipt_finding : Violation → List Text → List Text
add_receipt_finding v l =
    if text_eq v.id (txt "INV-05") && not (elem (show v) l) then l ++ show v ∷ [] else l

unfoldable pub add_receipt_findings : List Violation → List Text → List Text
add_receipt_findings [] l = l
add_receipt_findings (v ∷ vs) l = add_receipt_findings vs (add_receipt_finding v l)

module _ (out : Outside) (r : Reconciler) (spec : Spec) where
  -- `newRecord`
  unfoldable pub new_record : Deciding → Try DecisionRecord
  new_record d = new_decision_record out.codecs (record {
    workload = spec.ref;
    action = d.action;
    input = d.input;
    payload = object d.payload;
    layers = d.layers;
    result = d.result;
    policy_packs = spec.model.policy_packs;
    threshold_mode = d.mode;
    model = d.model;
  })

  -- The layers and the result after a required receipt could not be written.
  unfoldable pub fail_closed : Deciding → Deciding
  fail_closed d =
      let found =
        check out.base.net d.input
          (record { receipts_required = true; receipt_writer_available = false }) in
      let layers : Layers = record (d.layers) {
        invariants = add_receipt_findings found d.layers.invariants;
      } in
      record d { layers = layers; result = decide layers }

  -- What follows a record or an append that failed.
  unfoldable pub unrecorded : Deciding → DecisionRecord → (Result → Recorded → Turn) → Turn
  unrecorded d made k =
      let closed = fail_closed d in
      if r.receipts_required
      then k closed.result (record { made = or_blank (new_record closed); receipt = none })
      else k d.result (record { made = made; receipt = none })

  -- `recordDecision`; `k` is the rest of the reconcile.
  unfoldable pub record_decision : Deciding → (Result → Recorded → Turn) → Turn
  record_decision d k =
      let made = new_record d in
      if not r.receipts_enabled
      then k d.result (record { made = or_blank made; receipt = none })
      else elim made [
        | err e ↦ unrecorded d blank_record k
        | ok rec ↦
            if not out.writer
            then unrecorded d rec k
            else append rec (λ reply. elim reply [
              | none ↦ unrecorded d rec k
              | some l ↦ k d.result (record { made = rec; receipt = some l })
            ])
      ]

  -- `pendingID`
  unfoldable pub pending_id : Recorded → Text → Text
  pending_id rec prop =
      let parts = txt "clawdlinux.org/pending-id/v1" ∷ spec.ref.uid ∷ elim rec.receipt [
        | some l ↦ txt "receipt" ∷ hex_encode l.entry_hash ∷ []
        | none ↦ txt "no-receipt" ∷ rec.made.input_hash ∷ out.now ∷ prop ∷ []
      ] in
      hex_encode (take 16 (out.codecs.sha256 (join (0 ∷ []) parts)))

  unfoldable pub receipt_seq_of : Option Logged → ℕ
  receipt_seq_of none = 0
  receipt_seq_of (some l) = l.seq

  unfoldable pub entry_hash_of : Option Logged → Text
  entry_hash_of none = []
  entry_hash_of (some l) = hex_encode l.entry_hash

  unfoldable pub health_text : Option Float64 → Text
  health_text none = []
  health_text (some x) = out.codecs.format_float x

  -- The pending action, of the JSON of the proposal and of the record.
  unfoldable pub pending_of :
      Proposed → Text → Float64 → Option Float64 → Recorded → Text → Text → PendingApproval
  pending_of p confidence health claimed rec prop canon = record {
    id = pending_id rec prop;
    action = p.action;
    description = p.description;
    confidence = confidence;
    cluster_health = out.codecs.format_float health;
    claimed_cluster_health = health_text claimed;
    proposal = prop;
    decision_record = canon;
    receipt_seq = receipt_seq_of rec.receipt;
    receipt_entry_hash = entry_hash_of rec.receipt;
    proposed_at = out.now;
    state = undecided;
    decision = none;
  }

  unfoldable pub pending_with :
      Proposed
      → Text
      → Float64
      → Option Float64
      → Recorded
      → Try Text
      → Try Text
      → Option PendingApproval
  pending_with p confidence health claimed rec (err e) canon = none
  pending_with p confidence health claimed rec (ok prop) (err e) = none
  pending_with p confidence health claimed rec (ok prop) (ok canon) =
      some (pending_of p confidence health claimed rec prop canon)

  -- `newPendingApproval`: `none` is an error.
  unfoldable pub new_pending_approval :
      Proposed → Text → Members → Float64 → Option Float64 → Recorded → Option PendingApproval
  new_pending_approval p confidence proposal health claimed rec =
      pending_with p confidence health claimed rec (out.codecs.marshal (object proposal))
        (out.canonical rec.made)
