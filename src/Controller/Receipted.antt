-- ===== src/Controller/Receipted.antt =====
-- internal/controller/approvals.go: what precedes an execution.
use agentic_operator_core.Base.{
  ℕ, arith, ◌&&◌, Bool, true, false, Option, none, some, List, [], ◌∷◌, ◌++◌, ◌≡◌, refl,
  if◌then◌else◌,
}
use agentic_operator_core.Base.Text.{Text, txt}
use agentic_operator_core.Approval
use agentic_operator_core.Approval.{waiting, refused, decided, read, Label, ReadResult}
use agentic_operator_core.Decision.{Layers}
use agentic_operator_core.Controller.{
  undecided, recording, executing, PendingApproval, ApprovalOutcome, Status, Workload, Target,
  Receipt, human, Prog, done, update, append, call,
}
use agentic_operator_core.Controller.Actions.{
  recorded_denial, same_condition, is_undecided, Surroundings, Reconciler, reconcile_approval,
  read_decision, decide_pending, act, execute, receipted, hold_approval, hold_reason,
  finish_approval, approval_consumed, human_blocked, layers_of, target_of, human_receipt, is_reject,
  after_call, pending_ref,
}

-- `Before written k`: each call in `k` meets `P`, which reads the receipts that were written before
-- it, on top of `written`.
abbrev pub Before : (List Receipt → Text → Target → Type 0) → List Receipt → Prog → Type 0
Before P written done = Unit
Before P written (update st k) = Before P written k
Before P written (append x k) =
    ((n : _) → Before P (x ∷ written) (k (some n))) × Before P written (k none)
Before P written (call id tgt k) = P written id tgt × ((b : Bool) → Before P written (k b))

record Meets (P : List Receipt → Text → Target → Type 0) (written : List Receipt) (k : Prog)
    : Type 0 where
  calls : Before P written k

module _ (P : List Receipt → Text → Target → Type 0) where
  if-Meets :
      (b : Bool) (w : List Receipt) (k l : Prog)
      → (b ≡ true → Meets P w k)
      → (b ≡ false → Meets P w l)
      → Meets P w (if b then k else l)
  if-Meets true w k l f g = f refl
  if-Meets false w k l f g = g refl

  hold-Meets :
      (st : Status) (p : PendingApproval) (reason msg : Text) (w : List Receipt)
      → Meets P w (hold_approval st p reason msg)
  unfolding hold_approval
  hold-Meets st p reason msg w =
      if-Meets (same_condition st.decision_condition reason msg && is_undecided p.state) w _ _
        (λ e. record { calls = tt }) (λ e. record { calls = tt })

  finish-Meets :
      (st : Status) (id : Text) (l : Option Label) (o : ApprovalOutcome) (a : Text) (seq : ℕ)
      (phase reason msg : Text) (w : List Receipt)
      → Meets P w (finish_approval st id l o a seq phase reason msg)
  unfolding finish_approval
  finish-Meets st id l o a seq phase reason msg w = record { calls = tt }

  denial-Meets :
      (env : Surroundings) (r : Reconciler) (action : Text) (layers : Layers) (k : Prog)
      (w : List Receipt)
      → ((v : List Receipt) → Meets P v k)
      → Meets P w (recorded_denial env r action layers k)
  unfolding recorded_denial
  denial-Meets env r action layers k w h =
      if-Meets r.receipts_enabled w _ _ (λ e. record { calls = (λ n. (h _).calls, (h _).calls) })
        (λ e. h w)

  after_call-Meets :
      (env : Surroundings) (r : Reconciler) (st : Status) (p : PendingApproval)
      (d : Approval.Decision) (tgt : Target) (seq : _) (b : Bool) (w : List Receipt)
      → Meets P w (after_call env r st p d tgt seq b)
  unfolding after_call finish_approval
  after_call-Meets env r st p d tgt seq true w = record { calls = tt }
  after_call-Meets env r st p d tgt seq false w = record { calls = tt }

-- What must hold when the pending action `p` of `wl` is executed after the receipts `written`.
pub record IsGuarded (env : Surroundings) (r : Reconciler) (wl : Workload) (p : PendingApproval)
    (written : List Receipt) (id : Text) (tgt : Target) : Type 0 where
  pub decision : Approval.Decision
  pub stamped :
      read env.crypto env.codec wl.annotations (pending_ref env r wl p) r.stamp_key
      ≡ decided decision
  pub own : id ≡ p.id
  pub target : tgt ≡ target_of env r p decision
  pub unconsumed : approval_consumed wl.status p.id ≡ false
  pub unrejected : is_reject decision.label ≡ false
  pub unblocked : human_blocked (layers_of env r wl p tgt) ≡ false
  pub recorded :
      r.receipts_enabled ≡ true
      → r.receipts_required ≡ true
      → written ≡ human (human_receipt env r p decision tgt) ∷ []

module _ (env : Surroundings) (r : Reconciler) (wl : Workload) (p : PendingApproval) where
  module _ (d : Approval.Decision)
      (stamped : read env.crypto env.codec wl.annotations (pending_ref env r wl p) r.stamp_key
        ≡ decided d)
      (free : approval_consumed wl.status p.id ≡ false) where
    act-Meets :
        (st : Status) (q : PendingApproval) (seq : _) (w : List Receipt)
        → q.id ≡ p.id
        → (r.receipts_enabled ≡ true
            → r.receipts_required ≡ true
            → w ≡ human (human_receipt env r p d (target_of env r p d)) ∷ [])
        → Meets (IsGuarded env r wl p) w (
            act env r wl st q d
              (target_of env r p d)
              (layers_of env r wl p (target_of env r p d))
              seq)
    unfolding act finish_approval execute
    act-Meets st q seq w same rec =
        if-Meets _ (is_reject d.label) w _ _ (λ e. record { calls = tt })
          (λ l.
            if-Meets _ (human_blocked (layers_of env r wl p (target_of env r p d))) w _ _
              (λ e. denial-Meets _ env r _ _ _ w (λ v. record { calls = tt }))
              (λ b. record {
                calls = (
                  record {
                    decision = d;
                    stamped = stamped;
                    own = same;
                    target = refl;
                    unconsumed = free;
                    unrejected = l;
                    unblocked = b;
                    recorded = rec;
                  },
                  λ x. (after_call-Meets _ env r _ q d _ seq x w).calls,
                );
              }))

    receipted-Meets :
        (st : Status) (q : PendingApproval) (seq : _)
        → q.id ≡ p.id
        → Meets
            (IsGuarded env r wl p)
            (elim seq [
              | none ↦ []
              | some n ↦ human (human_receipt env r p d (target_of env r p d)) ∷ []
            ])
            (receipted env r wl st q d
              (target_of env r p d)
              (layers_of env r wl p (target_of env r p d))
              seq)
    unfolding receipted
    receipted-Meets st q none same =
        if-Meets _ r.receipts_required [] _ _ (λ e. hold-Meets _ st _ _ _ [])
          (λ e. act-Meets st q none [] same (λ x y. absurd (ground arith)))
    receipted-Meets st q (some n) same = act-Meets st q (some n) _ same (λ x y. refl)

    decide_pending-Meets : Meets (IsGuarded env r wl p) [] (decide_pending env r wl p d)
    unfolding decide_pending human_receipt
    decide_pending-Meets =
        let q : PendingApproval = record p { state = recording; decision = some d.label } in
        let st : Status = record (wl.status) { pending = some q } in
        let body =
          if-Meets (IsGuarded env r wl p) r.receipts_enabled [] _ _
            (λ e. record {
              calls = (
                λ n. (receipted-Meets st q (some n) refl).calls,
                (receipted-Meets st q none refl).calls,
              );
            })
            (λ e. act-Meets st q none [] refl (λ x y. absurd (ground arith))) in
        record { calls = body.calls }

  read_decision-Meets :
      approval_consumed wl.status p.id ≡ false
      → Meets (IsGuarded env r wl p) [] (read_decision env r wl p)
  unfolding read_decision
  read_decision-Meets free =
      elim (read env.crypto env.codec wl.annotations (pending_ref env r wl p) r.stamp_key)
          as (λ x.
            read env.crypto env.codec wl.annotations (pending_ref env r wl p) r.stamp_key ≡ x
            → Meets (IsGuarded env r wl p) [] (elim x [
              | waiting ↦ done
              | refused e ↦
                  hold_approval wl.status p (hold_reason e)
                    (txt "not acting on the approval decision: " ++ env.error_text e)
              | decided d ↦
                  if env.proposal_readable p.proposal
                  then decide_pending env r wl p d
                  else hold_approval wl.status p (txt "PendingActionUnreadable")
                      (txt "stored proposal is unreadable")
            ])) [
              | waiting ↦ λ e. record { calls = tt }
              | refused x ↦ λ e. hold-Meets _ wl.status p _ _ []
              | decided d ↦ λ e.
                  if-Meets _ (env.proposal_readable p.proposal) [] _ _
                    (λ f. decide_pending-Meets d e free) (λ f. hold-Meets _ wl.status p _ _ [])
            ]
        refl

  -- Each call that a reconcile can make, whatever the replies to its effects, executes the pending
  -- action itself (as proposed, or as edited) under a decision that `Read` returned, is no reject,
  -- was not consumed, and is blocked by no invariant, pack denial or pack error on the action that
  -- runs; and if receipts are enabled and required, the human receipt of that decision was written
  -- before it, and nothing else.
  pub reconcile_approval-IsGuarded :
      Before (IsGuarded env r wl p) [] (reconcile_approval env r wl p)
  unfolding reconcile_approval
  reconcile_approval-IsGuarded =
      let body =
        if-Meets (IsGuarded env r wl p) (approval_consumed wl.status p.id) [] _ _
          (λ e. hold-Meets _ wl.status p _ _ [])
          (λ free.
            elim p.state
              as (λ s. Meets (IsGuarded env r wl p) [] (elim s [
                | executing ↦
                    finish_approval wl.status p.id p.decision ApprovalOutcome.unknown [] 0
                      (txt "Failed") (txt "ExecutionOutcomeUnknown")
                      (txt
                        "the operator stopped while executing the approved action; it was not run again")
                | _ ↦ read_decision env r wl p
              ])) [
                | undecided ↦ read_decision-Meets free
                | recording ↦ read_decision-Meets free
                | executing ↦ finish-Meets _ _ _ _ _ _ _ _ _ _ []
              ]) in
      body.calls
