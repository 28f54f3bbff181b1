-- ===== src/Controller/Actions.antt =====
-- internal/controller/approvals.go: `reconcileApproval` and what it is made of. Parameters are the JSON
-- of a proposal and of an edited action, `strconv.ParseFloat`, the policy-pack engine (OPA), the
-- texts of errors and `%q`, and `observe`, which builds the input from workload and target.
use agentic_operator_core.Base.{
  ℕ, Bool, true, false, not, ◌&&◌, ◌||◌, Option, none, some, List, [], ◌∷◌, ◌++◌, length, is_empty,
  leb, if◌then◌else◌, map,
}
use agentic_operator_core.Base.Crypto.{Crypto}
use agentic_operator_core.Base.Float.{Float64}
use agentic_operator_core.Base.Text.{Text, txt, text_eq}
use agentic_operator_core.Base.Strings.{elem, join}
use agentic_operator_core.Approval
use agentic_operator_core.Approval.{
  Annotations, Label, ApprovalError, Codec, Pending, EditedAction, pending_sha256, sha256_hex, read,
  waiting, refused, decided, approve, reject, edit,
}
use agentic_operator_core.Input.{Input, HostParsers}
use agentic_operator_core.Invariants.{Context, check, show}
use agentic_operator_core.Decision.{Layers, decide, is_some}
use agentic_operator_core.Threshold.{
  FloatFormat, EvaluationInput, EvaluationResult, evaluate_strict, evaluate_permissive,
}
use agentic_operator_core.Controller.{
  ApprovalState, undecided, recording, executing, PendingApproval, ApprovalOutcome, Condition,
  StatusCondition, Status, Workload, Target, HumanReceipt, human, denial, Prog, done, update,
  append, call,
}

-- What lies outside of the code of the module.
pub record Surroundings : Type 0 where
  pub crypto : Crypto
  pub codec : Codec
  pub net : HostParsers
  pub format : FloatFormat
  pub parse_float : Text → Float64
  pub proposal_readable : Text → Bool
  pub edited_payload : EditedAction → Text
  pub observe : Workload → Target → Input
  -- `LoadPacks` and `Eval`: the error, the denials and the approval findings
  pub eval_packs : List Text → Input → Option Text × (List Text × List Text)
  pub error_text : ApprovalError → Text
  pub quote : Text → Text

-- The fields of the reconciler.
pub record Reconciler : Type 0 where
  pub stamp_key : Text
  pub receipts_enabled : Bool
  pub receipts_required : Bool
  pub context : Context

unfoldable pub approval_consumed : Status → Text → Bool
approval_consumed st id = elim st.last [
  | some l ↦ text_eq l.id id || elem id st.consumed
  | none ↦ elem id st.consumed
]

-- The last `n` of a list.
unfoldable pub last_of {ℓ} : {A : Type ℓ} → ℕ → List A → List A
last_of n [] = []
last_of n (a ∷ l) = let rest = last_of n l in if leb (length (a ∷ l)) n then a ∷ l else rest

abbrev pub max_consumed : ℕ
max_consumed = 32

abbrev pub max_actions : ℕ
max_actions = 100

abbrev pub is_undecided : ApprovalState → Bool
is_undecided undecided = true
is_undecided _ = false

unfoldable pub same_condition : Option Condition → Text → Text → Bool
same_condition none reason msg = false
same_condition (some c) reason msg = text_eq c.reason reason && text_eq c.message msg

-- `holdApproval`
unfoldable pub hold_approval : Status → PendingApproval → Text → Text → Prog
hold_approval st p reason msg =
    if same_condition st.decision_condition reason msg && is_undecided p.state
    then done
    else update
        (record st {
          pending = some p;
          decision_condition = some (record { status = false; reason = reason; message = msg });
        })
        done

unfoldable pub is_good : ApprovalOutcome → Bool
is_good ApprovalOutcome.executed = true
is_good ApprovalOutcome.rejected = true
is_good _ = false

unfoldable pub upsert_condition : List StatusCondition → StatusCondition → List StatusCondition
upsert_condition [] c = c ∷ []
upsert_condition (x ∷ l) c =
    let rest = upsert_condition l c in if text_eq x.kind c.kind then c ∷ l else x ∷ rest

unfoldable pub is_condition_true : List StatusCondition → Text → Bool
is_condition_true [] kind = false
is_condition_true (c ∷ l) kind =
    let rest = is_condition_true l kind in if text_eq c.kind kind then c.status else rest

-- The other conditions after a decision.
unfoldable pub decided_conditions : List StatusCondition → Text → Text → Text → List StatusCondition
decided_conditions l phase reason msg =
    let l' =
      if is_condition_true l (txt "ApprovalRequired")
      then upsert_condition l (record {
        kind = txt "ApprovalRequired";
        status = false;
        reason = txt "HumanDecided";
        message = msg;
      })
      else l in
    if text_eq phase (txt "PolicyDenied")
    then upsert_condition l'
        (record { kind = txt "PolicyDenied"; status = true; reason = reason; message = msg })
    else l'

-- The status that `finishApproval` writes.
unfoldable pub finished :
    Status → Text → Option Label → ApprovalOutcome → Text → ℕ → Text → Text → Text → Status
finished st id label outcome approver seq phase reason msg = record st {
  phase = phase;
  pending = none;
  last = some (record {
    id = id;
    decision = label;
    outcome = outcome;
    approver_sha256 = approver;
    decision_receipt_seq = seq;
  });
  consumed = last_of max_consumed (st.consumed ++ id ∷ []);
  decision_condition = some (record { status = is_good outcome; reason = reason; message = msg });
  conditions = decided_conditions st.conditions phase reason msg;
}

unfoldable pub finish_approval :
    Status → Text → Option Label → ApprovalOutcome → Text → ℕ → Text → Text → Text → Prog
finish_approval st id label outcome approver seq phase reason msg =
    update (finished st id label outcome approver seq phase reason msg) done

-- `humanBlocked`
unfoldable pub human_blocked : Layers → Bool
human_blocked l = not (is_empty l.invariants) || (is_some l.pack_err || not (is_empty l.pack_deny))

unfoldable pub receipt_seq : Option ℕ → ℕ
receipt_seq none = 0
receipt_seq (some n) = n

unfoldable pub hold_reason : ApprovalError → Text
hold_reason ApprovalError.unstamped = txt "MissingApprovalStamp"
hold_reason ApprovalError.no_key = txt "ApprovalStampKeyMissing"
hold_reason ApprovalError.bad_mac = txt "ApprovalStampInvalid"
hold_reason _ = txt "InvalidDecision"

unfoldable pub label_verb : Label → Text
label_verb approve = txt "approve"
label_verb reject = txt "reject"
label_verb edit = txt "edit"

abbrev pub is_reject : Label → Bool
is_reject reject = true
is_reject _ = false

module _ (env : Surroundings) (r : Reconciler) where
  unfoldable pub evaluate_threshold : Text → Text → Float64 → Float64 → EvaluationResult
  evaluate_threshold mode action confidence health =
      let i : EvaluationInput = record {
        action_type = action;
        confidence = confidence;
        cluster_health_score = health;
        opa_policy_mode = mode;
      } in
      if text_eq mode (txt "permissive")
      then evaluate_permissive env.format (some i)
      else evaluate_strict env.format (some i)

  -- `evaluateLayers`: the packs are consulted only where the workload names some.
  unfoldable pub evaluate_layers : List Text → Input → EvaluationResult → Layers
  evaluate_layers packs i th =
      let verdict = if is_empty packs then (none, ([], [])) else env.eval_packs packs i in
      record {
        invariants = map show (check env.net i r.context);
        pack_err = verdict.0;
        pack_deny = verdict.1.0;
        pack_approval = verdict.1.1;
        threshold_allowed = th.allowed;
        threshold_reasons = th.reasons;
      }

  -- The layers of the action that would execute.
  unfoldable pub layers_of : Workload → PendingApproval → Target → Layers
  layers_of wl p tgt = evaluate_layers wl.policy_packs (env.observe wl tgt) (
      evaluate_threshold wl.mode tgt.name (env.parse_float p.confidence)
        (env.parse_float p.cluster_health))

  -- What is executed: the stored proposal, or the edited action.
  unfoldable pub target_of : PendingApproval → Approval.Decision → Target
  target_of p d = elim d.edit [
    | none ↦ record { name = p.action; description = p.description; payload = p.proposal }
    | some e ↦ record { name = e.name; description = e.description; payload = env.edited_payload e }
  ]

  -- After the call.
  unfoldable pub after_call :
      Status → PendingApproval → Approval.Decision → Target → Option ℕ → Bool → Prog
  after_call st p d tgt seq false =
      finish_approval
        (record st {
          proposed_actions = last_of max_actions (st.proposed_actions ++ (tgt.name, false) ∷ []);
        })
        p.id (some d.label) ApprovalOutcome.failed (sha256_hex env.crypto d.approver_raw)
        (receipt_seq seq) (txt "Failed") (txt "ExecutionFailed")
        (txt "approved action " ++ (env.quote tgt.name ++ txt " failed to execute"))
  after_call st p d tgt seq true =
      finish_approval
        (record st {
          executed_actions = last_of max_actions (st.executed_actions ++ (tgt.name, true) ∷ []);
        })
        p.id (some d.label) ApprovalOutcome.executed (sha256_hex env.crypto d.approver_raw)
        (receipt_seq seq) (txt "Completed") (txt "Executed")
        (txt "action "
          ++ (env.quote tgt.name
              ++ (txt " executed after human "
                  ++ (label_verb d.label ++ (txt " by " ++ d.approver.username)))))

  -- The intent to execute is stored before the call.
  unfoldable pub execute : Status → PendingApproval → Approval.Decision → Target → Option ℕ → Prog
  execute st p d tgt seq =
      let st' = record st { pending = some (record p { state = executing }) } in
      update st' (call p.id tgt (after_call st' p d tgt seq))

  -- `recordDecision` of a denial: its reply is not used, and nothing is appended without receipts.
  unfoldable pub recorded_denial : Text → Layers → Prog → Prog
  recorded_denial action layers next =
      if r.receipts_enabled then append (denial action (decide layers)) (λ _. next) else next

  -- The `switch` after the human receipt.
  unfoldable pub act :
      Workload → Status → PendingApproval → Approval.Decision → Target → Layers → Option ℕ → Prog
  act wl st p d tgt layers seq =
      if is_reject d.label
      then finish_approval st p.id (some d.label) ApprovalOutcome.rejected
          (sha256_hex env.crypto d.approver_raw) (receipt_seq seq) (txt "Rejected") (txt "Rejected")
          (txt "action " ++ (env.quote tgt.name ++ (txt " rejected by " ++ d.approver.username)))
      else if human_blocked layers
      then recorded_denial tgt.name layers (
          finish_approval st p.id (some d.label) ApprovalOutcome.denied
            (sha256_hex env.crypto d.approver_raw) (receipt_seq seq) (txt "PolicyDenied")
            (txt "HumanDecisionBlocked")
            (txt "human "
              ++ (label_verb d.label
                  ++ (txt " of "
                      ++ (env.quote tgt.name
                          ++ (txt " blocked: " ++ join (txt "; ") (decide layers).reasons))))))
      else execute st p d tgt seq

  unfoldable pub human_receipt : PendingApproval → Approval.Decision → Target → HumanReceipt
  human_receipt p d tgt = record {
    label = d.label;
    action = tgt.name;
    approver = d.approver.username;
    approver_sha256 = sha256_hex env.crypto d.approver_raw;
    pending_id = p.id;
    pending_payload_sha256 = pending_sha256 env.crypto p.proposal;
    original_seq = p.receipt_seq;
  }

  -- The reply of the receipt writer; `p` is the pending action as it is recorded.
  unfoldable pub receipted :
      Workload → Status → PendingApproval → Approval.Decision → Target → Layers → Option ℕ → Prog
  receipted wl st p d tgt layers (some n) = act wl st p d tgt layers (some n)
  receipted wl st p d tgt layers none =
      if r.receipts_required
      then hold_approval st (record p { state = undecided; decision = none }) (txt "ReceiptFailed")
          (txt
            "approval decision receipt could not be written and receipts are required; not acting")
      else act wl st p d tgt layers none

  -- From the decision on: persist intent, write the human receipt, act.
  unfoldable pub decide_pending : Workload → PendingApproval → Approval.Decision → Prog
  decide_pending wl p d =
      let tgt = target_of p d in
      let layers = layers_of wl p tgt in
      let p' = record p { state = recording; decision = some d.label } in
      let st = record (wl.status) { pending = some p' } in
      update st (
        if r.receipts_enabled
        then append (human (human_receipt p' d tgt)) (receipted wl st p' d tgt layers)
        else act wl st p' d tgt layers none)

  -- `pendingRef`
  unfoldable pub pending_ref : Workload → PendingApproval → Pending
  pending_ref wl p = record {
    id = p.id;
    workload_uid = wl.uid;
    payload_sha256 = pending_sha256 env.crypto p.proposal;
  }

  -- The part of `reconcileApproval` from the reading of the annotations on.
  unfoldable pub read_decision : Workload → PendingApproval → Prog
  read_decision wl p =
      elim (read env.crypto env.codec wl.annotations (pending_ref wl p) r.stamp_key) [
        | waiting ↦ done
        | refused e ↦
            hold_approval wl.status p (hold_reason e)
              (txt "not acting on the approval decision: " ++ env.error_text e)
        | decided d ↦
            if env.proposal_readable p.proposal
            then decide_pending wl p d
            else hold_approval wl.status p (txt "PendingActionUnreadable")
                (txt "stored proposal is unreadable")
      ]

  -- `reconcileApproval` of a workload with the pending action `p`.
  unfoldable pub reconcile_approval : Workload → PendingApproval → Prog
  reconcile_approval wl p =
      if approval_consumed wl.status p.id
      then hold_approval wl.status p (txt "ApprovalReplay")
          (txt "pending action " ++ (p.id ++ txt " was already decided; not acting again"))
      else elim p.state [
        | executing ↦
            finish_approval wl.status p.id p.decision ApprovalOutcome.unknown [] 0 (txt "Failed")
              (txt "ExecutionOutcomeUnknown")
              (txt "the operator stopped while executing the approved action; it was not run again")
        | _ ↦ read_decision wl p
      ]
