-- ===== src/Controller/Served.antt =====
-- internal/controller/approvals.go: a reconcile that no one disturbs.
use agentic_operator_core.Base.{
  ◌++◌, sym, arith, true, ◌≢◌, false, ℕ, Bool, Option, none, some, List, [], ◌∷◌, ◌≡◌, refl, inl,
  inr, if◌then◌else◌, Bool-cases,
}
use agentic_operator_core.Decision.{is_some}
use agentic_operator_core.Base.Text.{txt, Text}
use agentic_operator_core.Approval
use mathlib.Core.Path.{subst}
use agentic_operator_core.Approval.{waiting, refused, read, decided}
use agentic_operator_core.Controller.{
  undecided, done, recording, executing, Workload, Status, PendingApproval, LastApproval,
  ApprovalOutcome, Receipt, Target, Prog, done, update, append, call,
}
use agentic_operator_core.Controller.Actions.{
  hold_reason, hold_approval, decide_pending, read_decision, reconcile_approval, receipted, act,
  target_of, layers_of, human_blocked, is_reject, approval_consumed, pending_ref, Surroundings,
  Reconciler, execute, after_call, finish_approval, finished,
}

-- The replies of the receipt writer and of the MCP server.
pub record Serving : Type 0 where
  pub log : Receipt → Option ℕ
  pub reply : Target → Bool

-- The status and the calls at the end, where every update is accepted.
unfoldable pub serve : Serving → Prog → Status → Status × List (Text × Target)
serve s done st = (st, [])
serve s (update st' k) st = serve s k st'
serve s (append x k) st = serve s (k (s.log x)) st
serve s (call id t k) st = let (st', calls) = serve s (k (s.reply t)) st in (st', (id, t) ∷ calls)

-- What the human decision of `p` has come to.
pub record IsResolved (id : Text) (tgt : Target) (reply : Bool)
    (final : Status × List (Text × Target)) : Type 0 where
  pub last : LastApproval
  pub called : final.1 ≡ (id, tgt) ∷ []
  pub cleared : final.0.pending ≡ none
  pub noted : final.0.last ≡ some last
  pub own : last.id ≡ id
  pub outcome : last.outcome ≡ (if reply then ApprovalOutcome.executed else ApprovalOutcome.failed)

module _ (env : Surroundings) (r : Reconciler) (s : Serving) where
  if-Resolved :
      {id : Text} {tgt : Target} {reply : Bool} (b : Bool) (k l : Prog) (st : Status)
      → IsResolved id tgt reply (serve s k st)
      → IsResolved id tgt reply (serve s l st)
      → IsResolved id tgt reply (serve s (if b then k else l) st)
  if-Resolved true k l st x y = x
  if-Resolved false k l st x y = y

  execute-Resolved :
      (st st0 : Status) (p : PendingApproval) (d : Approval.Decision) (tgt : Target)
      (seq : Option ℕ)
      → IsResolved p.id tgt (s.reply tgt) (serve s (execute env r st p d tgt seq) st0)
  unfolding execute after_call finish_approval finished serve
  execute-Resolved st st0 p d tgt seq = elim (Bool-cases (s.reply tgt)) [
    | inl e ↦ rw e (record {
      last = _;
      called = refl;
      cleared = refl;
      noted = refl;
      own = refl;
      outcome = refl;
    })
    | inr e ↦ rw e (record {
      last = _;
      called = refl;
      cleared = refl;
      noted = refl;
      own = refl;
      outcome = refl;
    })
  ]

  module _ (wl : Workload) (p : PendingApproval) (d : Approval.Decision)
      (stamped : read env.crypto env.codec wl.annotations (pending_ref env r wl p) r.stamp_key
        ≡ decided d)
      (free : approval_consumed wl.status p.id ≡ false) (idle : p.state ≢ executing)
      (readable : env.proposal_readable p.proposal ≡ true) (accepted : is_reject d.label ≡ false)
      (unblocked : human_blocked (layers_of env r wl p (target_of env r p d)) ≡ false)
      (logs : (x : Receipt) → is_some (s.log x) ≡ true) where
    act-Resolved :
        (st st0 : Status) (q : PendingApproval) (seq : Option ℕ)
        → IsResolved q.id (target_of env r p d) (s.reply (target_of env r p d)) (
            serve s
              (act env r wl st q d
                (target_of env r p d)
                (layers_of env r wl p (target_of env r p d))
                seq)
              st0)
    unfolding act
    act-Resolved st st0 q seq =
        rw (accepted, unblocked) (execute-Resolved st st0 q d (target_of env r p d) seq)

    receipted-Resolved :
        (st st0 : Status) (q : PendingApproval) (seq : Option ℕ)
        → is_some seq ≡ true
        → IsResolved q.id (target_of env r p d) (s.reply (target_of env r p d)) (
            serve s
              (receipted env r wl st q d
                (target_of env r p d)
                (layers_of env r wl p (target_of env r p d))
                seq)
              st0)
    unfolding receipted
    receipted-Resolved st st0 q none h = absurd (ground arith)
    receipted-Resolved st st0 q (some n) h = act-Resolved st st0 q (some n)

    decide_pending-Resolved :
        (st0 : Status)
        → IsResolved p.id
            (target_of env r p d)
            (s.reply (target_of env r p d))
            (serve s (decide_pending env r wl p d) st0)
    unfolding decide_pending serve
    decide_pending-Resolved st0 =
        let q : PendingApproval = record p { state = recording; decision = some d.label } in
        let st : Status = record (wl.status) { pending = some q } in
        if-Resolved r.receipts_enabled _ _ st (receipted-Resolved st st q (s.log _) (logs _))
          (act-Resolved st st q none)

    read_decision-Resolved :
        (st0 : Status)
        → IsResolved p.id
            (target_of env r p d)
            (s.reply (target_of env r p d))
            (serve s (read_decision env r wl p) st0)
    unfolding read_decision
    read_decision-Resolved st0 =
        subst
          (λ x. IsResolved p.id (target_of env r p d) (s.reply (target_of env r p d)) (
            serve s
              (elim x [
                | waiting ↦ done
                | refused e ↦
                    hold_approval wl.status p (hold_reason e)
                      (txt "not acting on the approval decision: " ++ env.error_text e)
                | decided d' ↦
                    if env.proposal_readable p.proposal
                    then decide_pending env r wl p d'
                    else hold_approval wl.status p (txt "PendingActionUnreadable")
                        (txt "stored proposal is unreadable")
              ])
              st0))
          (sym stamped) (rw readable (decide_pending-Resolved st0))

    -- A pending action on which a human has decided is resolved: if the decision that is read is no
    -- reject, the action is not blocked, not consumed and not in execution, its proposal can be read,
    -- receipts can be written and no update is refused, then the reconcile executes it once, and ends
    -- with no pending action and with the outcome that the reply of the MCP server says.
    pub reconcile_approval-IsResolved :
        IsResolved p.id
          (target_of env r p d)
          (s.reply (target_of env r p d))
          (serve s (reconcile_approval env r wl p) wl.status)
    unfolding reconcile_approval
    reconcile_approval-IsResolved = rw free (
        elim p.state
            as (λ x.
              p.state ≡ x
              → IsResolved p.id (target_of env r p d) (s.reply (target_of env r p d)) (
                  serve s
                    (elim x [
                      | executing ↦
                          finish_approval wl.status p.id p.decision ApprovalOutcome.unknown [] 0
                            (txt "Failed") (txt "ExecutionOutcomeUnknown")
                            (txt
                              "the operator stopped while executing the approved action; it was not run again")
                      | _ ↦ read_decision env r wl p
                    ])
                    wl.status)) [
                      | undecided ↦ λ e. read_decision-Resolved wl.status
                      | recording ↦ λ e. read_decision-Resolved wl.status
                      | executing ↦ λ e. absurd (idle e)
                    ]
          refl)
