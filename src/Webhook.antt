-- ===== src/Webhook.antt =====
-- api/v1alpha1/agentworkload_webhook.go: what the admission webhook accepts of a workload's spec, on its
-- creation and on an update. Parameters are net/url, `strconv.ParseFloat`, the regular expression of a
-- threshold, the count of runes, `%q` and `%d`, the text of `field.Invalid`, and the semantic DeepEqual of apimachinery.
pub mod Frozen
pub mod Accepted
use agentic_operator_core.Base.{
  ℕ, Bool, true, false, not, ◌&&◌, ◌||◌, Option, none, some, List, [], ◌∷◌, ◌++◌, is_empty, ltb,
  if◌then◌else◌,
}
use agentic_operator_core.Base.Int.{ℤ, pos, ltb_ℤ}
use agentic_operator_core.Base.Float.{Float64, rank, zero_rank, of_bits, flt, fgt}
use agentic_operator_core.Base.Text.{Text, txt, text_eq}
use agentic_operator_core.Base.Strings.{elem, join}
use agentic_operator_core.Base.Try.{Try, ok, err}
use agentic_operator_core.Input.{Declared}
use agentic_operator_core.Controller.{ApprovalState}
use agentic_operator_core.Controller.Actions.{is_undecided}

-- `DecisionModel` of the spec.
pub record ModelSettings : Type 0 where
  pub mode : Text
  pub threshold_micro : Option ℤ

-- The fields of `AgentWorkloadSpec` that the webhook reads; an agent is its name.
pub record WorkloadSpec : Type 0 where
  pub workload_type : Option Text
  pub mcp_server_endpoint : Option Text
  pub objective : Option Text
  pub agents : List Text
  pub auto_approve_threshold : Option Text
  pub opa_policy : Option Text
  pub policy_packs : List Text
  pub declared_intent : Option Declared
  pub decision_model : Option ModelSettings
  pub approval_capture : Option Text

-- What the webhook reads of the status: the phase, and the state of a pending action.
pub record HeldStatus : Type 0 where
  pub phase : Text
  pub pending : Option ApprovalState

pub record WebhookOutside : Type 0 where
  pub parse_url : Text → Try (Text × Text)
  pub parse_float : Text → Option Float64
  pub matches_threshold : Text → Bool
  pub rune_count : Text → ℕ
  pub quote : Text → Text
  pub invalid : Text → Text → Text → Text
  pub print_int : ℤ → Text
  pub print_float : Float64 → Text
  pub same_declared : Option Declared → Option Declared → Bool
  pub same_packs : List Text → List Text → Bool
  pub same_model : Option ModelSettings → Option ModelSettings → Bool
  pub same_capture : Option Text → Option Text → Bool

unfoldable pub or_empty : Option Text → Text
or_empty none = []
or_empty (some s) = s

unfoldable pub or_else : Option Text → Text → Option Text
or_else none s = some s
or_else (some t) s = some t

-- `Default`
unfoldable pub default : WorkloadSpec → WorkloadSpec
default s = record s {
  auto_approve_threshold = or_else s.auto_approve_threshold (txt "0.95");
  opa_policy = or_else s.opa_policy (txt "strict");
}

unfoldable pub string_ptr_equal : Option Text → Option Text → Bool
string_ptr_equal none none = true
string_ptr_equal (some a) (some b) = text_eq a b
string_ptr_equal _ _ = false

abbrev pub workload_types : List Text
workload_types =
    txt "generic" ∷ txt "ceph" ∷ txt "minio" ∷ txt "postgres" ∷ txt "aws" ∷ txt "kubernetes" ∷ []

abbrev pub opa_policies : List Text
opa_policies = txt "strict" ∷ txt "permissive" ∷ []

abbrev pub model_modes : List Text
model_modes = [] ∷ txt "off" ∷ txt "shadow" ∷ txt "escalate" ∷ []

-- The packs that are embedded (`packs.Known`).
abbrev pub known_packs : List Text
known_packs = txt "dpdp-in@v0.1.0" ∷ txt "gdpr-eu@v0.1.0" ∷ []

-- An error message where the condition fails.
abbrev pub unless : Bool → Text → List Text
unless true message = []
unless false message = message ∷ []

abbrev pub one : Float64
one = of_bits 0x3ff0000000000000

module _ (out : WebhookOutside) where
  unfoldable pub type_errors : Option Text → List Text
  type_errors none = []
  type_errors (some t) = unless (elem t workload_types) (
      txt "workloadType must be one of [generic ceph minio postgres aws kubernetes], got "
      ++ out.quote t)

  -- `validateMCPEndpoint`, from the scheme and the host on.
  unfoldable pub url_errors : Try (Text × Text) → List Text
  url_errors (err m) = (txt "mcpServerEndpoint is not a valid URL: " ++ m) ∷ []
  url_errors (ok (scheme, host)) =
      if not (text_eq scheme (txt "https"))
      then (txt "mcpServerEndpoint scheme must be https for secure communication, got "
          ++ out.quote scheme)
        ∷ []
      else unless (not (is_empty host)) (txt "mcpServerEndpoint host is empty")

  unfoldable pub endpoint_errors : Option Text → List Text
  endpoint_errors none = []
  endpoint_errors (some e) =
      if is_empty e
      then txt "mcpServerEndpoint must not be empty" ∷ []
      else url_errors (out.parse_url e)

  unfoldable pub objective_errors : Option Text → List Text
  objective_errors none = []
  objective_errors (some o) =
      unless (not (is_empty o)) (txt "objective must not be empty")
      ++ unless (not (ltb 32768 (out.rune_count o))) (
          txt "objective must be at most 32768 characters, got "
          ++ out.print_int (pos (out.rune_count o)))

  -- `validateThreshold`, from the parsed number on.
  unfoldable pub number_errors : Text → Option Float64 → List Text
  number_errors s none =
      (txt "autoApproveThreshold must be a valid number, got " ++ out.quote s) ∷ []
  number_errors s (some x) =
      if flt x (rank zero_rank) || fgt x one
      then (txt "autoApproveThreshold must be between 0.0 and 1.0, got " ++ out.print_float x) ∷ []
      else unless (out.matches_threshold s)
          (txt "autoApproveThreshold format invalid, expected format like '0.95'")

  unfoldable pub threshold_errors : Option Text → List Text
  threshold_errors none = []
  threshold_errors (some s) =
      if is_empty s
      then txt "autoApproveThreshold cannot be empty" ∷ []
      else number_errors s (out.parse_float s)

  unfoldable pub policy_errors : Option Text → List Text
  policy_errors none = []
  policy_errors (some p) =
      unless (elem p opa_policies)
        (txt "opaPolicy must be one of [strict permissive], got " ++ out.quote p)

  unfoldable pub pack_errors : List Text → List Text
  pack_errors [] = []
  pack_errors (p ∷ l) =
      unless (elem p known_packs) (
        txt "policyPacks: unknown pack "
        ++ (out.quote p ++ txt ", known: [dpdp-in@v0.1.0 gdpr-eu@v0.1.0]"))
      ++ pack_errors l

  -- `validateDecisionModel`; `art` is the threshold of the model artifact.
  unfoldable pub micro_errors : ℤ → Option ℤ → List Text
  micro_errors art none = []
  micro_errors art (some t) =
      if ltb_ℤ t (pos 0) || ltb_ℤ (pos 1000000) t
      then (txt "decisionModel.thresholdMicro must be 0 to 1000000, got " ++ out.print_int t) ∷ []
      else unless (not (ltb_ℤ (pos 0) art && ltb_ℤ art t)) (
          txt "decisionModel.thresholdMicro "
          ++ (out.print_int t
              ++ (txt " is looser than the model artifact threshold "
                  ++ (out.print_int art ++ txt "; only a stricter (lower) value is allowed"))))

  unfoldable pub model_errors : ℤ → Option ModelSettings → List Text
  model_errors art none = []
  model_errors art (some m) =
      unless (elem m.mode model_modes)
        (txt "decisionModel.mode must be one of off, shadow, escalate, got " ++ out.quote m.mode)
      ++ micro_errors art m.threshold_micro

  -- The messages of `validate`: none where it accepts.
  unfoldable pub validate : ℤ → WorkloadSpec → List Text
  validate art s =
      type_errors s.workload_type
      ++ (endpoint_errors s.mcp_server_endpoint
          ++ (objective_errors s.objective
              ++ (unless (not (is_empty s.agents)) (txt "agents list must not be empty")
                  ++ (threshold_errors s.auto_approve_threshold
                      ++ (policy_errors s.opa_policy
                          ++ (pack_errors s.policy_packs ++ model_errors art s.decision_model))))))

  -- The fields that may not change while an approval is pending and have.
  unfoldable pub changed_fields : WorkloadSpec → WorkloadSpec → List Text
  changed_fields old new =
      unless (out.same_declared old.declared_intent new.declared_intent) (txt "declaredIntent")
      ++ (unless (out.same_packs old.policy_packs new.policy_packs) (txt "policyPacks")
          ++ (unless (string_ptr_equal old.opa_policy new.opa_policy) (txt "opaPolicy")
              ++ (unless (out.same_model old.decision_model new.decision_model)
                    (txt "decisionModel")
                  ++ unless (out.same_capture old.approval_capture new.approval_capture)
                      (txt "approvalCapture"))))

  -- An approval is pending: the guard of `validateApprovalFreeze`.
  unfoldable pub is_held : HeldStatus → Bool
  is_held st = elim st.pending [
    | none ↦ false
    | some s ↦ text_eq st.phase (txt "PendingApproval") || not (is_undecided s)
  ]

  unfoldable pub approval_freeze : HeldStatus → WorkloadSpec → WorkloadSpec → List Text
  approval_freeze st old new =
      let changed = changed_fields old new in
      if not (is_held st) || is_empty changed
      then []
      else (txt "spec."
          ++ (join (txt ", spec.") changed
              ++ txt
                  " cannot change while an approval is pending. Approve, reject or edit the pending action first"))
        ∷ []

  unfoldable pub immutable_error : Text → Option Text → Option Text → Text
  immutable_error path new old =
      out.invalid path (or_empty new)
        (txt "field is immutable, current value: " ++ out.quote (or_empty old))

  -- `ValidateCreate` and `ValidateUpdate`: the messages of the error, none where the object is accepted.
  unfoldable pub validate_create : ℤ → WorkloadSpec → List Text
  validate_create art s = validate art s

  unfoldable pub validate_update : ℤ → HeldStatus → WorkloadSpec → WorkloadSpec → List Text
  validate_update art st old new =
      let errors = validate art new in
      if not (is_empty errors)
      then errors
      else if not (string_ptr_equal new.workload_type old.workload_type)
      then immutable_error (txt "spec.workloadType") new.workload_type old.workload_type ∷ []
      else if not (string_ptr_equal new.mcp_server_endpoint old.mcp_server_endpoint)
      then immutable_error (txt "spec.mcpServerEndpoint") new.mcp_server_endpoint
          old.mcp_server_endpoint
        ∷ []
      else approval_freeze st old new
