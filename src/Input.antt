-- ===== src/Input.antt =====
-- pkg/decision/input/input.go: what a decision is made on, and the checks of the observed facts
-- against the declared intent. The parsers of package net and package net/url are a parameter; the
-- verb `%q` of a message is written out as the text between quotes.
use agentic_operator_core.Base.{
  Bool, false, ◌&&◌, ◌||◌, Option, none, some, List, [], ◌∷◌, ◌++◌, ℕ, length, any, is_empty, ltb,
  if◌then◌else◌, map,
}
use agentic_operator_core.Base.Int.{ℤ}
use agentic_operator_core.Base.Float.{Float64}
use agentic_operator_core.Base.Text.{Text, txt, text_eq}
use agentic_operator_core.Base.Strings.{
  to_lower, trim_space, has_prefix, has_suffix, contains, elem, sort_strings, join, trim_left,
  trim_right,
}

pub record Declared : Type 0 where
  pub purpose : Text
  pub decision_type : Text
  pub allowed_data_classes : List Text
  pub allowed_destinations : List Text

pub record Observed : Type 0 where
  pub destination : Text
  pub data_classes : List Text
  pub tool : Text
  pub caller_identity : Text
  pub prior_action_count : ℤ
  pub prior_denied_count : ℤ
  pub scan_incomplete : Bool

pub record AgentClaimed : Type 0 where
  pub confidence : Option Float64
  pub cluster_health : Option Float64
  pub intent : Text

pub record Input : Type 0 where
  pub declared : Declared
  pub observed : Observed
  pub claimed : AgentClaimed

-- `url.Parse` with `Hostname`, and `net.SplitHostPort`: the host, or none on an error.
pub record HostParsers : Type 0 where
  pub url_hostname : Text → Option Text
  pub split_host_port : Text → Option Text

unfoldable pub is_zero : Declared → Bool
is_zero d =
    is_empty d.purpose
    && is_empty d.decision_type
    && is_empty d.allowed_data_classes
    && is_empty d.allowed_destinations

-- The keys of the map `allowed`.
abbrev pub allowed_set : List Text → List Text
allowed_set = map (λ c. to_lower (trim_space c))

unfoldable pub undeclared_of : List Text → List Text → List Text
undeclared_of allowed [] = []
undeclared_of allowed (c ∷ cs) =
    let rest = undeclared_of allowed cs in if elem (to_lower c) allowed then rest else c ∷ rest

unfoldable pub undeclared_data_classes : Input → List Text
unfolding undeclared_of is_zero
undeclared_data_classes i =
    if is_zero i.declared
    then []
    else sort_strings
        (undeclared_of (allowed_set i.declared.allowed_data_classes) i.observed.data_classes)

unfoldable pub undeclared_reason : List Text → Text
undeclared_reason [] = []
undeclared_reason (c ∷ cs) = txt "observed data classes not declared: " ++ join (txt ",") (c ∷ cs)

-- The empty text where there is no violation.
unfoldable pub data_class_violation : Input → Text
unfolding undeclared_reason
data_class_violation i = undeclared_reason (undeclared_data_classes i)

-- One pattern of the allow list, lower-cased and trimmed, against a host.
unfoldable pub pattern_matches : Text → Text → Bool
pattern_matches host [] = false
pattern_matches host (c ∷ p) =
    if has_prefix (c ∷ p) (txt "*.")
    then has_suffix host p && ltb (length p) (length host)
    else text_eq host (c ∷ p)

unfoldable pub host_allowed : Text → List Text → Bool
unfolding pattern_matches
host_allowed host = any (λ p. pattern_matches host (to_lower (trim_space p)))

is_bracket : ℕ → Bool
is_bracket c = text_eq (c ∷ []) (txt "[") || text_eq (c ∷ []) (txt "]")

module _ (net : HostParsers) where
  host_of : Text → Text
  unfolding is_bracket
  host_of [] = []
  host_of (c ∷ d) =
      if contains (c ∷ d) (txt "://")
      then elim (net.url_hostname (c ∷ d)) [ none ↦ [] | some h ↦ to_lower h ]
      else elim (net.split_host_port (c ∷ d)) [
        | some h ↦ to_lower h
        | none ↦ to_lower (trim_right is_bracket (trim_left is_bracket (c ∷ d)))
      ]

  unfoldable pub host : Text → Text
  unfolding host_of
  host dest = host_of (trim_space dest)

  unfoldable pub destination_declared : Input → Bool
  unfolding host_allowed
  destination_declared i =
      let h = host i.observed.destination in
      is_empty h || host_allowed h i.declared.allowed_destinations

  unfoldable pub destination_violation : Input → Text
  unfolding destination_declared is_zero
  destination_violation i =
      if is_zero i.declared || destination_declared i
      then []
      else txt "observed destination \"" ++ (host i.observed.destination ++ txt "\" not declared")

  unfoldable pub violations : Input → List Text
  unfolding data_class_violation destination_violation
  violations i =
      let v = data_class_violation i in
      let w = destination_violation i in
      if is_zero i.declared
      then []
      else (if is_empty v then [] else v ∷ []) ++ (if is_empty w then [] else w ∷ [])
