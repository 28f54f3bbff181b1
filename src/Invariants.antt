-- ===== src/Invariants.antt =====
-- pkg/invariants/invariants.go: the checks that no policy pack, threshold or claim overrides.
-- Results carry a reason; a reason is empty where an invariant holds.
pub mod Floor
use agentic_operator_core.Base.{Bool, not, ◌&&◌, ◌||◌, List, [], ◌∷◌, ◌++◌, any, if◌then◌else◌}
use agentic_operator_core.Base.Text.{Text, txt}
use agentic_operator_core.Base.Strings.{to_lower, equal_fold, join, sort_strings}
use agentic_operator_core.Dataclass.{credential, is_personal}
use agentic_operator_core.Input.{
  Input, HostParsers, is_zero, host, destination_declared, destination_violation,
  data_class_violation,
}

-- `Result`
pub record Violation : Type 0 where
  pub id : Text
  pub reason : Text

-- `Result.String`
unfoldable pub show : Violation → Text
show v = v.id ++ (txt ": " ++ v.reason)

pub record Context : Type 0 where
  pub receipts_required : Bool
  pub receipt_writer_available : Bool

abbrev pub ids : List Text
ids = txt "INV-01" ∷ txt "INV-02" ∷ txt "INV-03" ∷ txt "INV-04" ∷ txt "INV-05" ∷ txt "INV-06" ∷ []

unfoldable pub credentials : Input → Text
credentials i =
    if any (λ c. equal_fold c credential) i.observed.data_classes
    then txt "credential-shaped value in observed action"
    else []

unfoldable pub personal_of : List Text → List Text
personal_of [] = []
personal_of (c ∷ cs) =
    let rest = personal_of cs in if is_personal c then to_lower c ∷ rest else rest

unfoldable pub receipts : Context → Text
receipts ctx =
    if ctx.receipts_required && not ctx.receipt_writer_available
    then txt "receipts required but no receipt writer available"
    else []

unfoldable pub scan_complete : Input → Text
scan_complete i =
    if i.observed.scan_incomplete
    then txt "payload exceeds data class scan limits; not fully scanned"
    else []

-- The loop in `Check`: an invariant with a reason is a violation.
unfoldable pub collect : List (Text × Text) → List Violation
collect [] = []
collect ((id, []) ∷ l) = collect l
collect ((id, c ∷ reason) ∷ l) = record { id = id; reason = c ∷ reason } ∷ collect l

module _ (net : HostParsers) where
  personal_reason : Text → List Text → Text
  personal_reason dest [] = []
  personal_reason dest (c ∷ cs) =
      txt "personal data ("
      ++ (join (txt ",") (sort_strings (c ∷ cs))
          ++ (txt ") to undeclared destination \"" ++ (host net dest ++ txt "\"")))

  unfoldable pub personal_dest : Input → Text
  unfolding personal_reason personal_of
  personal_dest i =
      if is_zero i.declared || destination_declared net i
      then []
      else personal_reason i.observed.destination (personal_of i.observed.data_classes)

  -- The list `all`, each invariant with its outcome.
  unfoldable pub all : Input → Context → List (Text × Text)
  all i ctx =
      (txt "INV-01", credentials i)
      ∷ (txt "INV-02", destination_violation net i)
      ∷ (txt "INV-03", personal_dest i)
      ∷ (txt "INV-04", data_class_violation i)
      ∷ (txt "INV-05", receipts ctx)
      ∷ (txt "INV-06", scan_complete i)
      ∷ []

  unfoldable pub check : Input → Context → List Violation
  unfolding collect all
  check i ctx = collect (all i ctx)
