-- ===== src/Scenarios/Resolved.antt =====
-- An example for a reconcile that no one disturbs.
use agentic_operator_core.Base.{true, false, some, ◌≡◌, refl}
use agentic_operator_core.Base.Text.{text_eq, txt}
use agentic_operator_core.Base.Strings.{
  elem, join, equal_fold, trim_space, contains, has_suffix, sort_strings,
}
use agentic_operator_core.Controller.Actions
use agentic_operator_core.Invariants
use agentic_operator_core.Input
use agentic_operator_core.Base.Crypto.{hex_encode, hex_decode}
use agentic_operator_core.Approval
use agentic_operator_core.Approval.{Label, value, Annotations, Approver}
use agentic_operator_core.Controller.Actions.{
  act, after_call, human_blocked, decide_pending, target_of, receipted, layers_of, human_receipt,
  approval_consumed, read_decision, pending_ref, Surroundings, Reconciler, reconcile_approval,
}
use agentic_operator_core.Controller.Served.{
  Serving, serve, IsResolved, reconcile_approval-IsResolved,
}
use agentic_operator_core.Scenarios.{toy_crypto, toy_codec, zeros}
use agentic_operator_core.Scenarios.Held.{surroundings, reconciler, pending, held, decision}

abbrev serving : Serving
serving = record { log = λ x. some 1; reply = λ tgt. true }

stamped-read :
    Approval.read toy_crypto toy_codec held.annotations
      (pending_ref surroundings reconciler held pending)
      (zeros 32)
    ≡ Approval.decided decision
unfolding Approval.read pending_ref text_eq Approval.verify_mac hex_decode Approval.mac_of
    hex_encode Approval.mac_message join Approval.decision_sha256 Approval.sha256_hex
    Approval.pending_sha256 Approval.read_fields Approval.parse_approver Approval.validate_fields
stamped-read = refl

unconsumed : approval_consumed held.status (txt "p1") ≡ false
unfolding approval_consumed elem
unconsumed = refl

unblocked :
    human_blocked (
      layers_of surroundings reconciler held pending
        (target_of surroundings reconciler pending decision))
    ≡ false
unfolding human_blocked layers_of target_of Actions.evaluate_layers Invariants.check
    Invariants.credentials equal_fold Input.destination_violation Input.host trim_space contains
    has_suffix Invariants.personal_dest Input.data_class_violation Input.undeclared_data_classes
    sort_strings elem Invariants.receipts Invariants.scan_complete
    agentic_operator_core.Base.Strings.to_lower
unblocked = refl

reconcile_approval-IsResolved_example :
    IsResolved
      (txt "p1")
      (target_of surroundings reconciler pending decision)
      true
      (serve serving (reconcile_approval surroundings reconciler held pending) held.status)
reconcile_approval-IsResolved_example =
    reconcile_approval-IsResolved surroundings reconciler serving held pending decision stamped-read
      unconsumed (λ e. absurd (cc e)) refl refl unblocked (λ x. refl)
