-- ===== src/Controller/Direct.antt =====
-- internal/controller/agentworkload_controller.go: the direct path of `Reconcile`, on which an action is
-- proposed, decided and executed or held, with internal/controller/receipts.go and reservation.go. Its
-- code is a tree of effects (`Turn`). The guards before it (deletion, templates, licence, quota, model
-- routing, runtimes) are not part of it.
pub mod Proposal
pub mod Deciding
pub mod Acting
pub mod Closing
pub mod Permits
pub mod Traces
pub mod Cleared
pub mod Writes
pub mod Steps
pub mod Running
use agentic_operator_core.Base.{ℕ, Bool, Option, List}
use agentic_operator_core.Base.Int.{ℤ}
use agentic_operator_core.Base.Float.{Float64}
use agentic_operator_core.Base.Text.{Text}
use agentic_operator_core.Base.Json.{Members}
use agentic_operator_core.Base.Try.{Try}
use agentic_operator_core.Dataclass.Scan.{Patterns}
use agentic_operator_core.Input.{Declared}
use agentic_operator_core.Decision.Features.{Features}
use agentic_operator_core.Receipts.{Codecs, WorkloadRef, DecisionRecord}
use agentic_operator_core.Controller.{Status}
use agentic_operator_core.Controller.Actions.{Surroundings}
use agentic_operator_core.Controller.Scoring.{DecisionModelConfig, ModelSpec}

-- `ctrl.Result`, the delay in seconds; `retry` is a returned error.
pub data Requeue : Type 0 where
  retry : Requeue
  after : ℕ → Requeue

-- Why the API server refuses a status update.
pub data Refusal : Type 0 where
  conflict failure : Refusal

-- What is read of the receipt that was written.
pub record Logged : Type 0 where
  pub seq : ℕ
  pub entry_hash : Text

-- The effects of a reconcile in their order, each with what follows on the reply: a call of a tool of the
-- MCP server (`none` is an error), a status update (`none` is accepted), and an appended receipt
-- (`none` is an error).
pub data Turn : Type 0 where
  finish : Requeue → Turn
  tool : Text → Members → (Option Members → Turn) → Turn
  save : Status → (Option Refusal → Turn) → Turn
  append : DecisionRecord → (Option Logged → Turn) → Turn

-- `decided`
pub record Recorded : Type 0 where
  pub made : DecisionRecord
  pub receipt : Option Logged

-- What the direct path reads of the object besides its status.
pub record Spec : Type 0 where
  pub ref : WorkloadRef
  pub endpoint : Text
  pub objective : Text
  pub opa_policy : Option Text
  pub declared : Option Declared
  pub model : ModelSpec

-- What lies outside of the code: `receiptspec.CanonicalRecord`, `strconv.ParseFloat`, the conversion of
-- integers, the digest of features, the clock as RFC 3339, and whether a receipt writer is configured.
pub record Outside : Type 0 where
  pub base : Surroundings
  pub codecs : Codecs
  pub patterns : Patterns
  pub canonical : DecisionRecord → Try Text
  pub parse_number : Text → Option Float64
  pub of_int : ℤ → Float64
  pub hash_features : Features → Text
  pub model : DecisionModelConfig
  pub now : Text
  pub writer : Bool
