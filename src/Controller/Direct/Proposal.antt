-- ===== src/Controller/Direct/Proposal.antt =====
-- internal/controller/agentworkload_controller.go: how the replies of the MCP server are read;
-- pkg/decision/observe/observe.go; internal/controller/logsafe.go.
use agentic_operator_core.Base.{
  ℕ, suc, ◌+◌, Bool, true, false, not, ◌||◌, Option, none, some, List, [], ◌∷◌, ◌++◌, length, take,
  is_empty, ltb, if◌then◌else◌,
}
use agentic_operator_core.Base.Int.{pos}
use agentic_operator_core.Base.Float.{Float64, rank, zero_rank, of_bits, flt, fgt}
use agentic_operator_core.Base.Text.{Text, txt}
use agentic_operator_core.Base.Strings.{join, sort_strings}
use agentic_operator_core.Base.Json.{
  Json, number, integer, numeral, string, object, Members, member_of, as_string,
}
use agentic_operator_core.Dataclass.Scan.{Patterns, scan, detect_into}
use agentic_operator_core.Input.{Input, Declared, Observed, host}
use agentic_operator_core.Controller.Direct.{Spec, Outside}

unfoldable pub parse_flexible_float : Outside → Json → Option Float64
parse_flexible_float out (number x) = some x
parse_flexible_float out (integer n) = some (out.of_int n)
parse_flexible_float out (numeral s) = out.parse_number s
parse_flexible_float out (string s) = if is_empty s then none else out.parse_number s
parse_flexible_float out _ = none

-- 75.0 and 1.0
abbrev pub default_health : Float64
default_health = of_bits 0x4052c00000000000

abbrev pub one : Float64
one = of_bits 0x3ff0000000000000

-- The health that is used, and the health that the agent claims.
unfoldable pub cluster_health : Outside → Members → Float64 × Option Float64
cluster_health out status = elim (member_of (txt "cluster_health") status) [
  | none ↦ (default_health, none)
  | some j ↦ elim (parse_flexible_float out j) [
    | none ↦ (default_health, none)
    | some h ↦ (h, some h)
  ]
]

-- The fields of a proposal that is not refused.
pub record Proposed : Type 0 where
  pub action : Text
  pub description : Text
  pub confidence : Float64

unfoldable pub read_confidence : Outside → Option Json → Option Float64
read_confidence out none = none
read_confidence out (some j) = elim (parse_flexible_float out j) [
  | none ↦ none
  | some x ↦ if flt x (rank zero_rank) || fgt x one then none else some x
]

unfoldable pub read_proposal : Outside → Members → Option Proposed
read_proposal out m = elim (as_string (member_of (txt "action") m)) [
  | none ↦ none
  | some action ↦ elim (as_string (member_of (txt "description") m)) [
    | none ↦ none
    | some description ↦ elim (read_confidence out (member_of (txt "confidence") m)) [
      | none ↦ none
      | some x ↦ some (record { action = action; description = description; confidence = x })
    ]
  ]
]

-- observe.History
unfoldable pub denied_count : List (Text × Bool) → ℕ
denied_count [] = 0
denied_count ((name, true) ∷ l) = denied_count l
denied_count ((name, false) ∷ l) = suc (denied_count l)

unfoldable pub history : List (Text × Bool) → List (Text × Bool) → ℕ × ℕ
history executed proposed = (length executed + length proposed, denied_count proposed)

-- observe.Declared
unfoldable pub declared_of : Option Declared → Declared
declared_of none = record {
  purpose = [];
  decision_type = [];
  allowed_data_classes = [];
  allowed_destinations = [];
}
declared_of (some d) = d

-- observe.Observe
unfoldable pub observe : Outside → Text → Text → Json → ℕ × ℕ → Observed
observe out endpoint tool payload prior =
    let (classes, complete) = scan out.patterns payload in
    record {
      destination = host out.base.net endpoint;
      data_classes = classes;
      tool = tool;
      caller_identity = [];
      prior_action_count = pos prior.0;
      prior_denied_count = pos prior.1;
      scan_incomplete = not complete;
    }

-- `decisionInput`
unfoldable pub decision_input :
    Outside
    → Spec
    → List (Text × Bool)
    → List (Text × Bool)
    → Members
    → Proposed
    → Option Float64
    → Input
decision_input out spec executed proposed m p claimed = record {
  declared = declared_of spec.declared;
  observed = observe out spec.endpoint p.action (object m) (history executed proposed);
  claimed = record {
    confidence = some p.confidence;
    cluster_health = claimed;
    intent = p.description;
  };
}

abbrev pub max_log_text_bytes : ℕ
max_log_text_bytes = 160

unfoldable pub log_text : List Text → Text → Text
log_text [] s =
    if ltb max_log_text_bytes (length s)
    then take max_log_text_bytes s ++ txt "...[truncated]"
    else s
log_text (c ∷ l) s = txt "[redacted:" ++ (join (txt ",") (c ∷ l) ++ txt "]")

-- `safeLogText`
unfoldable pub safe_log_text : Patterns → Text → Text
safe_log_text p s = log_text (sort_strings (detect_into p s []).0) s
