-- ===== src/Lib.antt =====
-- Agentic operator core: human approvals, the audit chain and the layers of a decision.
--
-- The operator runs agent workloads on Kubernetes. An action that an agent proposes passes invariants,
-- policy packs, fixed thresholds and a scoring model; it is executed, denied, or held for a human. The
-- decision of a human reaches the controller as annotations that the admission webhook stamps, and the
-- decisions are written as receipts and to a hash-chained audit log.
--
-- Files:
--   Base          texts, lists, numbers, floats, results and digests that the others share
--   Dataclass     pkg/dataclass/dataclass.go: the names of classes (IsPersonal)
--     Scan        Scan and its budget, detectInto, the IBAN check; Complete
--     Digits      the check digits of cards and Aadhaar numbers; Luhn, Verhoeff
--   Input         pkg/decision/input/input.go: declared, observed and claimed facts; Host and hostAllowed
--   Invariants    pkg/invariants/invariants.go: INV-01 to INV-06 and Check (`check`); Floor
--   Decision      pkg/decision/decision.go: Layers and Decide (`decide`); Merge
--     Features    pkg/decision/features.go: ExtractFeatures (`extract_features`)
--     Model       pkg/decision/model.go: ScoreClaimSafe, EffectiveThreshold, ApplyModel; Thresholds,
--                 Escalation
--   Threshold     pkg/rules/threshold/evaluator.go: Evaluate, EvaluateStrict, EvaluatePermissive;
--                 Verbs, Allowed
--   Audit         pkg/audit/chain.go: entries, Hash and Verify; Encoding, Tamper
--     Verifier    pkg/audit/verifier.go: Walk and VerifyCheckpoints; Verified
--     Recorder    pkg/audit/recorder.go: Append and the in-memory backend; Ledger
--   Approval      pkg/approval/approval.go: Admit, Read, the MAC; Admission, RoundTrip
--   Receipts      pkg/receipts/record.go: the data of decision records
--     Record      NewDecisionRecord, NewHumanRecord, InputHash, PayloadSHA256; Binding
--     Fields      Fields, PolicyDecision and clip; Verdicts
--   Controller    internal/controller/approvals.go: the data of reconcileApproval and its effects
--     Actions     reconcileApproval, holdApproval, finishApproval, evaluateLayers
--     World       the API server, the receipts and the MCP server, as a step relation
--     Chances, Once, Receipted  how often, and after what, an action is executed
--     Served      a reconcile that no one disturbs
--     Scoring     internal/controller/decision_model.go: applyDecisionModel; Tightening
--     Direct      internal/controller/agentworkload_controller.go: the direct path of Reconcile
--       Proposal  the replies of the MCP server, pkg/decision/observe, internal/controller/logsafe.go
--       Deciding  internal/controller/receipts.go: recordDecision; newPendingApproval and pendingID
--       Acting    the decision, the reservation (internal/controller/reservation.go), the call, the phase
--       Closing, Permits, Traces, Cleared  what precedes a call
--       Writes, Steps, Running  the statuses that are written, and a run that no one disturbs
--   Webhook       api/v1alpha1/agentworkload_webhook.go: Default, ValidateCreate, ValidateUpdate; Accepted
--     Frozen      the spec that the direct path reads, and what an update cannot change of it
--   Routing       pkg/routing/classifier.go: Classify and its scores; Cheapest
--   Learned       pkg/decision/learned/learned.go: expNeg and SigmoidMicro; Bounds
--   Resilience    pkg/resilience: the circuit breaker and WithRetry; Breaker, Retry
--   Tenancy       pkg/multitenancy/quota.go: quotas per tenant and day; Quota, Daily
--     Sla         pkg/multitenancy/sla.go: the SLA monitor; Exact
--     Isolation   pkg/multitenancy/isolation.go: the resolver of tenants; Closed
--   Autoscaling   pkg/autoscaling: EvaluateAndDecide, Downgrade, Upgrade; Scaler, Selector
--     Lookups     the lookups, CostSavings, and the scaler with the SLA monitor
--   Scenarios     concrete parameters and examples
--
-- Correspondence. A Go string or byte slice is a `Text`, a list of numbers. An `int` or `int64` is `ℤ`
-- or, where it only counts, `ℕ`; a `uint64` that wraps is written with its modulus. A `float64` is NaN
-- or its rank among the IEEE 754 doubles, which is all that the comparisons read. An error is a
-- constructor of a result type. Maps with fixed keys are records, the maps of tenants association
-- lists. The lock of a recorder makes each operation one step, so it does not appear. Letters change
-- case as in ASCII, and so do the few other runes that have a letter of ASCII for a counterpart; all
-- other runes keep theirs.
--
-- The controller's code is a tree of its effects: status updates, receipts and the call of the MCP
-- server. In Controller.World a reconcile may start from any version of the object that was ever
-- stored, several reconciles may run at once, each may stop between two effects, and the API server
-- accepts an update only on the version that it has stored. That ids of pending actions do not repeat
-- is a premise of the step that proposes one. The direct path of Reconcile is a tree of its effects
-- too (Controller.Direct); the statuses that it writes are steps of the same world. Loops are
-- structural, but for two in which each round shortens a text: their fuel is the length of the text
-- (any_cut in Dataclass.Scan, shorten in Receipts.Fields); the series in Learned has the source's own
-- limit of 25 rounds.
--
-- Parameters. SHA-256 and HMAC; encoding/json and unicode/utf8 of the protocol's records; net and
-- net/url; the formatting and parsing of numbers; the policy-pack engine (OPA); the scorer of the
-- model; the regular expressions of pkg/dataclass; receiptspec of the AgentGate module; the facts that
-- the reconciler of approvals observes. What is documented of them is a named record of hypotheses
-- (IsDigest, Documented).
--
-- Not modelled: clocks, logs, traces and metrics; the example data set; the guards of Reconcile before
-- its direct path, the runtime path and the model routing; the Kubernetes, Argo and MCP clients; the
-- command-line tools; the writers of receipts; the length of a backoff; the artifact of the learned
-- model and the baseline scorer; pkg/evaluation.
pub mod Base
pub mod Dataclass
pub mod Input
pub mod Invariants
pub mod Decision
pub mod Threshold
pub mod Audit
pub mod Approval
pub mod Receipts
pub mod Controller
pub mod Webhook
pub mod Routing
pub mod Learned
pub mod Resilience
pub mod Tenancy
pub mod Autoscaling
pub mod Scenarios
