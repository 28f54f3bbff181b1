-- ===== src/Receipts.antt =====
-- pkg/receipts/record.go: the decision record that a receipt is bound to. `json` and receiptspec (the
-- AgentGate module) are a parameter, and so are `strconv.FormatFloat` and package utf8.
pub mod Record
pub mod Fields
pub mod Binding
pub mod Verdicts
use agentic_operator_core.Base.{ℕ, Option, List}
use agentic_operator_core.Base.Int.{ℤ}
use agentic_operator_core.Base.Float.{Float64}
use agentic_operator_core.Base.Text.{Text}
use agentic_operator_core.Base.Json.{Json}
use agentic_operator_core.Base.Try.{Try}
use agentic_operator_core.Input.{Input, HostParsers}
use agentic_operator_core.Decision.{Layers, Result}

-- `Workload` of a record.
pub record WorkloadRef : Type 0 where
  pub namespace : Text
  pub name : Text
  pub uid : Text

pub record Reason : Type 0 where
  pub rule_id : Text
  pub reason : Text

pub record DeclaredSummary : Type 0 where
  pub sha256 : Text
  pub decision_type : Text
  pub allowed_data_classes : List Text
  pub allowed_destinations : List Text

pub record ObservedSummary : Type 0 where
  pub sha256 : Text
  pub destination_host : Text
  pub data_classes : List Text
  pub tool : Text
  pub prior_action_count : ℤ
  pub prior_denied_count : ℤ

pub record ClaimedSummary : Type 0 where
  pub sha256 : Text
  pub confidence : Text
  pub cluster_health : Text

-- The block of the decision model. The empty `error` is none.
pub record Model : Type 0 where
  pub schema_version : ℕ
  pub mode : Text
  pub id : Text
  pub version : Text
  pub artifact_sha256 : Text
  pub feature_spec : Text
  pub feature_hash : Text
  pub option_set : List Text
  pub option_micro : List ℤ
  pub risk_micro : ℤ
  pub claimed_risk_micro : ℤ
  pub baseline_risk_micro : ℤ
  pub baseline_feature_hash : Text
  pub threshold_micro : ℤ
  pub calibration : Text
  pub reason_codes : List Text
  pub base_outcome : Text
  pub outcome : Text
  pub error : Text

-- The block of a human decision.
pub record ApprovalBlock : Type 0 where
  pub label : Text
  pub approver : Text
  pub approver_sha256 : Text
  pub reason_sha256 : Text
  pub pending_id : Text
  pub original_seq : ℕ
  pub original_input_hash : Text
  pub edited_fields : List Text
  pub pending_payload_sha256 : Text
  pub consumed_id_sha256 : Text

pub record DecisionRecord : Type 0 where
  pub schema_version : ℕ
  pub workload : WorkloadRef
  pub action : Text
  pub layer : Text
  pub outcome : Text
  pub reasons : List Reason
  pub input_hash : Text
  pub payload_sha256 : Text
  pub declared : DeclaredSummary
  pub observed : ObservedSummary
  pub claimed : ClaimedSummary
  pub policy_packs : List Text
  pub threshold_mode : Text
  pub model : Option Model
  pub approval : Option ApprovalBlock
  pub replay_hint : Text

pub record Params : Type 0 where
  pub workload : WorkloadRef
  pub action : Text
  pub input : Input
  pub payload : Json
  pub layers : Layers
  pub result : Result
  pub policy_packs : List Text
  pub threshold_mode : Text
  pub model : Option Model

pub record HumanParams : Type 0 where
  pub workload : WorkloadRef
  pub action : Text
  pub input : Input
  pub payload : Json
  pub policy_packs : List Text
  pub threshold_mode : Text
  pub approval : ApprovalBlock

-- `json.Marshal`, `json.Unmarshal`, `receiptspec.HashRecord` of a map and of a record, package sha256
-- and `strconv.FormatFloat` with the shortest exact decimals.
pub record Codecs : Type 0 where
  pub marshal : Json → Try Text
  pub unmarshal : Text → Try Json
  pub hash_json : Json → Try Text
  pub hash_record : DecisionRecord → Try Text
  pub sha256 : Text → Text
  pub format_float : Float64 → Text
  pub net : HostParsers
