-- ===== src/Scenarios/Reconciles.antt =====
-- Examples for the properties of the approval reconciler.
use agentic_operator_core.Base.{Bool, ℕ, Option, true, false, some, [], ◌∷◌, ◌≡◌, refl, inl, ◌≤◌}
use agentic_operator_core.Base.Text.{text_eq, txt}
use agentic_operator_core.Base.Strings.{
  elem, join, equal_fold, trim_space, contains, has_suffix, sort_strings,
}
use agentic_operator_core.Controller.Actions
use agentic_operator_core.Invariants
use agentic_operator_core.Input
use agentic_operator_core.Base.Crypto.{hex_encode, hex_decode}
use agentic_operator_core.Approval
use agentic_operator_core.Approval.{Label, value, Annotations, Approver}
use agentic_operator_core.Controller.{
  Receipt, human, recording, executing, Prog, update, append, call, Target, PendingApproval, Status,
}
use agentic_operator_core.Controller.Actions.{
  act, after_call, human_blocked, decide_pending, target_of, receipted, layers_of, human_receipt,
  approval_consumed, read_decision, pending_ref, Surroundings, Reconciler, reconcile_approval,
}
use agentic_operator_core.Controller.World.{
  Thread, accept, write, execute, edit, store, annotate, World, Reachable, propose, start, initial,
  next,
}
use agentic_operator_core.Controller.Once.{at_most_once, times}
use agentic_operator_core.Controller.Receipted.{reconcile_approval-IsGuarded, Before, IsGuarded}
use agentic_operator_core.Scenarios.Held.{
  surroundings, reconciler, pending, workload, decided_annotations, held, decision,
}

abbrev pub before : World
before = record {
  stored = workload;
  version = 0;
  past = (0, workload) ∷ [];
  threads = [];
  receipts = [];
  calls = [];
  proposed = [];
}

abbrev proposed : World
proposed = record (store before held.status) { proposed = txt "p1" ∷ [] }

abbrev stamped : World
stamped = annotate proposed decided_annotations

abbrev once_running : World
once_running = record stamped {
  threads =
      record {
        version = 2;
        status = held.status;
        rest = reconcile_approval surroundings reconciler held pending;
      }
      ∷ [];
}

stamped-Reachable : Reachable surroundings reconciler stamped
unfolding elem
stamped-Reachable =
    next proposed stamped
      (next before proposed (initial workload refl) (propose before held.status pending refl refl))
      (edit proposed decided_annotations)

abbrev recorded : PendingApproval
recorded = record pending { state = recording; decision = some Label.approve }

abbrev recording_status : Status
recording_status = record (held.status) { pending = some recorded }

abbrev target : Target
target = record { name = txt "restart"; description = []; payload = txt "{}" }

abbrev after_receipt : Option ℕ → Prog
after_receipt =
    receipted surroundings reconciler held recording_status recorded decision target
      (layers_of surroundings reconciler held pending target)

abbrev receipt : Receipt
receipt = human (human_receipt surroundings reconciler recorded decision target)

reads :
    reconcile_approval surroundings reconciler held pending
    ≡ update recording_status (append receipt after_receipt)
unfolding reconcile_approval approval_consumed elem text_eq read_decision Approval.read pending_ref
    Approval.verify_mac hex_decode Approval.mac_of hex_encode Approval.mac_message join
    Approval.decision_sha256 Approval.sha256_hex Approval.pending_sha256 Approval.read_fields
    Approval.parse_approver Approval.validate_fields decide_pending target_of
reads = refl

abbrev executing_status : Status
executing_status = record (held.status) { pending = some (record recorded { state = executing }) }

abbrev finish : Bool → Prog
finish = after_call surroundings reconciler executing_status recorded decision target (some 1)

acts : after_receipt (some 1) ≡ update executing_status (call (txt "p1") target finish)
unfolding receipted act Actions.execute human_blocked layers_of Actions.evaluate_layers
    Invariants.check Invariants.credentials equal_fold Input.destination_violation Input.host
    trim_space contains has_suffix Invariants.personal_dest Input.data_class_violation
    Input.undeclared_data_classes sort_strings elem Invariants.receipts Invariants.scan_complete
    agentic_operator_core.Base.Strings.to_lower
acts = refl

abbrev recording_world : World
recording_world = record (store stamped recording_status) {
  threads =
      record { version = 3; status = recording_status; rest = append receipt after_receipt } ∷ [];
}

abbrev receipt_world : World
receipt_world = record recording_world {
  threads = record { version = 3; status = recording_status; rest = after_receipt (some 1) } ∷ [];
  receipts = receipt ∷ [];
}

abbrev executing_world : World
executing_world = record (store receipt_world executing_status) {
  threads =
      record { version = 4; status = executing_status; rest = call (txt "p1") target finish } ∷ [];
}

abbrev called_world : World
called_world = record executing_world {
  threads = record { version = 4; status = executing_status; rest = finish true } ∷ [];
  calls = (txt "p1", target) ∷ [];
}

-- The decision is recorded, its receipt written, the state stored, and the action executed.
called-Reachable : Reachable surroundings reconciler called_world
called-Reachable =
    let t0 : Thread = record {
      version = 2;
      status = held.status;
      rest = reconcile_approval surroundings reconciler held pending;
    } in
    let t1 : Thread = record {
      version = 3;
      status = recording_status;
      rest = append receipt after_receipt;
    } in
    let t2 : Thread = record {
      version = 3;
      status = recording_status;
      rest = after_receipt (some 1);
    } in
    let t3 : Thread = record {
      version = 4;
      status = executing_status;
      rest = call (txt "p1") target finish;
    } in
    let started =
      next stamped once_running stamped-Reachable (start stamped 2 held pending (inl refl) refl) in
    let recorded_step = next once_running recording_world started (
      accept once_running [] [] t0 recording_status (append receipt after_receipt) refl reads
        refl) in
    let written =
      next recording_world receipt_world recorded_step
        (write recording_world [] [] t1 receipt after_receipt (some 1) refl refl) in
    let stored = next receipt_world executing_world written (
      accept receipt_world [] [] t2 executing_status (call (txt "p1") target finish) refl acts
        refl) in
    next executing_world called_world stored
      (execute executing_world [] [] t3 (txt "p1") target finish true refl refl)

at_most_once_example :
    (times (txt "p1") called_world.calls ≤ 1)
    × (elem (txt "p1") called_world.proposed ≡ false → times (txt "p1") called_world.calls ≡ 0)
at_most_once_example = at_most_once surroundings reconciler called_world (txt "p1") called-Reachable

reconcile_approval-IsGuarded_example :
    Before
      (IsGuarded surroundings reconciler held pending)
      []
      (reconcile_approval surroundings reconciler held pending)
reconcile_approval-IsGuarded_example =
    reconcile_approval-IsGuarded surroundings reconciler held pending
