-- ===== src/Controller.antt =====
-- internal/controller/approvals.go: the reconciler of a workload that holds an action for a human
-- decision. Its code is a tree of effects (`Prog`), which Controller/World runs against the API
-- server, the receipt writer and the MCP server; Controller/Direct is the path of a new proposal. The
-- clock, the logs, the traces and the example data set are not modelled.
pub mod Actions
pub mod World
pub mod Chances
pub mod Once
pub mod Receipted
pub mod Served
pub mod Scoring
pub mod Direct
use agentic_operator_core.Base.{ℕ, Bool, Option, List}
use agentic_operator_core.Base.Float.{Float64}
use agentic_operator_core.Base.Text.{Text}
use agentic_operator_core.Approval.{Annotations, Label, ApprovalError}
use agentic_operator_core.Input.{Input}
use agentic_operator_core.Decision.{Result}

-- `State` of a pending action: "", "Recording" and "Executing".
pub data ApprovalState : Type 0 where
  undecided recording executing : ApprovalState

-- `status.pendingApproval`. The empty `decision` is none; `proposed_at` is the time as text.
pub record PendingApproval : Type 0 where
  pub id : Text
  pub action : Text
  pub description : Text
  pub confidence : Text
  pub cluster_health : Text
  pub claimed_cluster_health : Text
  pub proposal : Text
  pub decision_record : Text
  pub receipt_seq : ℕ
  pub receipt_entry_hash : Text
  pub proposed_at : Text
  pub state : ApprovalState
  pub decision : Option Label

-- Outcomes in `status.lastApproval`.
pub data ApprovalOutcome : Type 0 where
  executed failed rejected denied unknown : ApprovalOutcome

pub record LastApproval : Type 0 where
  pub id : Text
  pub decision : Option Label
  pub outcome : ApprovalOutcome
  pub approver_sha256 : Text
  pub decision_receipt_seq : ℕ

-- The condition ApprovalDecision.
pub record Condition : Type 0 where
  pub status : Bool
  pub reason : Text
  pub message : Text

-- Any other condition, and whether its status is True.
pub record StatusCondition : Type 0 where
  pub kind : Text
  pub status : Bool
  pub reason : Text
  pub message : Text

pub record Status : Type 0 where
  pub phase : Text
  pub pending : Option PendingApproval
  pub last : Option LastApproval
  pub consumed : List Text
  pub decision_condition : Option Condition
  pub conditions : List StatusCondition
  pub executed_actions : List (Text × Bool)
  pub proposed_actions : List (Text × Bool)

pub record Workload : Type 0 where
  pub uid : Text
  pub annotations : Annotations
  pub mode : Text
  pub policy_packs : List Text
  pub status : Status

-- The action a human decision applies to; the payload is JSON text.
pub record Target : Type 0 where
  pub name : Text
  pub description : Text
  pub payload : Text

-- The approval block of the human record.
pub record HumanReceipt : Type 0 where
  pub label : Label
  pub action : Text
  pub approver : Text
  pub approver_sha256 : Text
  pub pending_id : Text
  pub pending_payload_sha256 : Text
  pub original_seq : ℕ

pub data Receipt : Type 0 where
  human : HumanReceipt → Receipt
  denial : Text → Result → Receipt

-- The effects of one reconcile in their order. `update` ends the reconcile when the API server refuses
-- it; a reply `none` to `append` is an error; `call` names the pending action that it executes, and
-- its reply says whether it succeeded.
pub data Prog : Type 0 where
  done : Prog
  update : Status → Prog → Prog
  append : Receipt → (Option ℕ → Prog) → Prog
  call : Text → Target → (Bool → Prog) → Prog
