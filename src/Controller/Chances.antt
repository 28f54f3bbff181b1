-- ===== src/Controller/Chances.antt =====
-- internal/controller/approvals.go: what a reconcile does with its chance to execute a pending action.
use agentic_operator_core.Approval.{waiting, refused, decided, read, read, Label}
use agentic_operator_core.Decision.{Layers}
use agentic_operator_core.Base.{
  ap, ◌&&◌, ℕ, ◌+◌, ◌≤◌, Bool, true, false, Option, none, some, [], ◌++◌, ◌≡◌, refl, arith,
  if◌then◌else◌,
}
use agentic_operator_core.Base.Text.{txt, Text, text_eq}
use agentic_operator_core.Approval
use agentic_operator_core.Controller.{
  Receipt, ApprovalOutcome, undecided, recording, executing, PendingApproval, Status, Workload,
  Target, Prog, done, update, append, call,
}
use agentic_operator_core.Controller.Actions.{
  recorded_denial, approval_consumed, hold_reason, pending_ref, is_reject, read_decision, layers_of,
  target_of, reconcile_approval, human_blocked, decide_pending, receipted, is_undecided,
  same_condition, act, after_call, execute, finished, finish_approval, hold_approval, Surroundings,
  Reconciler,
}

-- 1 if the pending action may still come to be executed from this status.
abbrev pub chance : Option PendingApproval → Text → ℕ
chance none id = 0
chance (some p) id = elim p.state [ executing ↦ 0 | _ ↦ if text_eq p.id id then 1 else 0 ]

-- 1 if the next effect executes the pending action.
abbrev pub about : Prog → Text → ℕ
about (call i t k) id = if text_eq i id then 1 else 0
about _ id = 0

-- An update never adds a chance to execute, and the call comes right after the update that uses it up.
abbrev pub Safe : Status → Prog → Type 0
Safe st done = Unit
Safe st (update st' k) =
    ((id : Text) → chance st'.pending id + about k id ≤ chance st.pending id) × Safe st' k
Safe st (append x k) = (n : Option ℕ) → ((id : Text) → about (k n) id ≡ 0) × Safe st (k n)
Safe st (call i t k) = (b : Bool) → ((id : Text) → about (k b) id ≡ 0) × Safe st (k b)

-- Safe, and not about to execute.
pub record IsQuiet (st : Status) (k : Prog) : Type 0 where
  pub safe : Safe st k
  pub idle : (id : Text) → about k id ≡ 0

if-Quiet :
    (b : Bool) (st : Status) (k l : Prog)
    → IsQuiet st k
    → IsQuiet st l
    → IsQuiet st (if b then k else l)
if-Quiet true st k l x y = x
if-Quiet false st k l x y = y

hold-Quiet :
    (st : Status) (q : PendingApproval) (reason msg : Text)
    → ((id : Text) → chance (some q) id ≤ chance st.pending id)
    → IsQuiet st (hold_approval st q reason msg)
unfolding hold_approval
hold-Quiet st q reason msg h =
    if-Quiet (same_condition st.decision_condition reason msg && is_undecided q.state) st _ _
      (record { safe = tt; idle = λ id. refl })
      (record { safe = (λ id. omega (arith, h id), tt); idle = λ id. refl })

finish-Quiet :
    (st : Status) (st0 : Status) (id : Text) (l : Option Label) (o : ApprovalOutcome) (a : Text)
    (seq : ℕ) (phase reason msg : Text)
    → IsQuiet st0 (finish_approval st id l o a seq phase reason msg)
unfolding finish_approval finished
finish-Quiet st st0 id l o a seq phase reason msg = record {
  safe = (λ i. omega arith, tt);
  idle = λ i. refl;
}

update-Quiet :
    (st0 st : Status) (k : Prog)
    → ((id : Text) → chance st.pending id ≤ chance st0.pending id)
    → IsQuiet st k
    → IsQuiet st0 (update st k)
update-Quiet st0 st k h q = record {
  safe = (λ id. omega (arith, h id, q.idle id), q.safe);
  idle = λ id. refl;
}

append-Quiet :
    (st : Status) (x : Receipt) (k : Option ℕ → Prog)
    → ((n : Option ℕ) → IsQuiet st (k n))
    → IsQuiet st (append x k)
append-Quiet st x k q = record { safe = λ n. ((q n).idle, (q n).safe); idle = λ id. refl }

denial-Quiet :
    (env : Surroundings) (r : Reconciler) (st : Status) (action : Text) (layers : Layers) (k : Prog)
    → IsQuiet st k
    → IsQuiet st (recorded_denial env r action layers k)
unfolding recorded_denial
denial-Quiet env r st action layers k q =
    if-Quiet r.receipts_enabled st _ _ (append-Quiet st _ _ (λ n. q)) q

module _ (env : Surroundings) (r : Reconciler) where
  after_call-Quiet :
      (st0 st : Status) (p : PendingApproval) (d : Approval.Decision) (tgt : Target)
      (seq : Option ℕ) (b : Bool)
      → IsQuiet st0 (after_call env r st p d tgt seq b)
  unfolding after_call
  after_call-Quiet st0 st p d tgt seq true = finish-Quiet _ st0 _ _ _ _ _ _ _ _
  after_call-Quiet st0 st p d tgt seq false = finish-Quiet _ st0 _ _ _ _ _ _ _ _

  module _ (st : Status) (p : PendingApproval) (d : Approval.Decision) (tgt : Target)
      (held : (id : Text) → chance st.pending id ≡ (if text_eq p.id id then 1 else 0)) where
    execute-Quiet : (seq : Option ℕ) → IsQuiet st (execute env r st p d tgt seq)
    unfolding execute
    execute-Quiet seq =
        let st' : Status = record st { pending = some (record p { state = executing }) } in
        record {
          safe = (
            λ id. omega (arith, held id),
            λ b. (
              (after_call-Quiet st' st' p d tgt seq b).idle,
              (after_call-Quiet st' st' p d tgt seq b).safe,
            ),
          );
          idle = λ id. refl;
        }

    act-Quiet :
        (wl : Workload) (layers : Layers) (seq : Option ℕ)
        → IsQuiet st (act env r wl st p d tgt layers seq)
    unfolding act
    act-Quiet wl layers seq =
        if-Quiet (is_reject d.label) st _ _ (finish-Quiet st st _ _ _ _ _ _ _ _) (
          if-Quiet (human_blocked layers) st _ _
            (denial-Quiet env r st _ _ _ (finish-Quiet st st _ _ _ _ _ _ _ _)) (execute-Quiet seq))

    receipted-Quiet :
        (wl : Workload) (layers : Layers) (seq : Option ℕ)
        → IsQuiet st (receipted env r wl st p d tgt layers seq)
    unfolding receipted
    receipted-Quiet wl layers (some n) = act-Quiet wl layers (some n)
    receipted-Quiet wl layers none =
        if-Quiet r.receipts_required st _ _
          (hold-Quiet st (record p { state = undecided; decision = none }) _ _
            (λ id. omega (arith, held id)))
          (act-Quiet wl layers none)

  decide_pending-Quiet :
      (wl : Workload) (p : PendingApproval) (d : Approval.Decision)
      → ((id : Text) → chance wl.status.pending id ≡ (if text_eq p.id id then 1 else 0))
      → IsQuiet wl.status (decide_pending env r wl p d)
  unfolding decide_pending
  decide_pending-Quiet wl p d h =
      let p' : PendingApproval = record p { state = recording; decision = some d.label } in
      let st : Status = record (wl.status) { pending = some p' } in
      let tgt = target_of env r p d in
      update-Quiet wl.status st _ (λ id. omega (arith, h id))
        (if-Quiet r.receipts_enabled st _ _
          (append-Quiet st _ _
            (receipted-Quiet st p' d tgt (λ id. refl) wl (layers_of env r wl p tgt)))
          (act-Quiet st p' d tgt (λ id. refl) wl (layers_of env r wl p tgt) none))

  read_decision-Quiet :
      (wl : Workload) (p : PendingApproval)
      → wl.status.pending ≡ some p
      → ((id : Text) → chance wl.status.pending id ≡ (if text_eq p.id id then 1 else 0))
      → IsQuiet wl.status (read_decision env r wl p)
  unfolding read_decision
  read_decision-Quiet wl p h c =
      elim (read env.crypto env.codec wl.annotations (pending_ref env r wl p) r.stamp_key)
        as (λ x. IsQuiet wl.status (elim x [
          | waiting ↦ done
          | refused e ↦
              hold_approval wl.status p (hold_reason e)
                (txt "not acting on the approval decision: " ++ env.error_text e)
          | decided d ↦
              if env.proposal_readable p.proposal
              then decide_pending env r wl p d
              else hold_approval wl.status p (txt "PendingActionUnreadable")
                  (txt "stored proposal is unreadable")
        ])) [
          | waiting ↦ record { safe = tt; idle = λ id. refl }
          | refused e ↦ hold-Quiet wl.status p _ _ (λ id. omega (arith, ap (λ x. chance x id) h))
          | decided d ↦
              if-Quiet (env.proposal_readable p.proposal) wl.status _ _
                (decide_pending-Quiet wl p d c)
                (hold-Quiet wl.status p _ _ (λ id. omega (arith, ap (λ x. chance x id) h)))
        ]

  -- A reconcile never adds a chance to execute, and does not begin with a call.
  pub reconcile-Quiet :
      (wl : Workload) (p : PendingApproval)
      → wl.status.pending ≡ some p
      → IsQuiet wl.status (reconcile_approval env r wl p)
  unfolding reconcile_approval
  reconcile-Quiet wl p h =
      if-Quiet (approval_consumed wl.status p.id) wl.status _ _
        (hold-Quiet wl.status p _ _ (λ id. omega (arith, ap (λ x. chance x id) h)))
        (elim p.state
            as (λ s.
              p.state ≡ s
              → IsQuiet wl.status (elim s [
                | executing ↦
                    finish_approval wl.status p.id p.decision ApprovalOutcome.unknown [] 0
                      (txt "Failed") (txt "ExecutionOutcomeUnknown")
                      (txt
                        "the operator stopped while executing the approved action; it was not run again")
                | _ ↦ read_decision env r wl p
              ])) [
                | undecided ↦ λ e. read_decision-Quiet wl p h (λ id. rw (h, e) refl)
                | recording ↦ λ e. read_decision-Quiet wl p h (λ id. rw (h, e) refl)
                | executing ↦ λ e. finish-Quiet wl.status wl.status _ _ _ _ _ _ _ _
              ]
          refl)
