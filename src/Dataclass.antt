-- ===== src/Dataclass.antt =====
-- pkg/dataclass/dataclass.go: the names of the detected data classes.
pub mod Digits
pub mod Scan
use agentic_operator_core.Base.{Bool, List, [], ◌∷◌}
use agentic_operator_core.Base.Text.{Text, txt}
use agentic_operator_core.Base.Strings.{to_lower, elem}

abbrev pub credential : Text
credential = txt "credential"

-- The classes of the `switch` in `IsPersonal`.
abbrev pub personal_classes : List Text
personal_classes =
    txt "email" ∷ txt "phone" ∷ txt "aadhaar" ∷ txt "pan" ∷ txt "iban" ∷ txt "card" ∷ []

unfoldable pub is_personal : Text → Bool
unfolding elem to_lower
is_personal name = elem (to_lower name) personal_classes
