-- ===== src/Decision/Features.antt =====
-- pkg/decision/features.go: the feature vector of an action. The Go map from feature names to
-- values, read in the order of `FeatureNames`, is the list of the values in that order.
use agentic_operator_core.Base.{
  Bool, not, ◌&&◌, ◌||◌, Option, none, some, List, [], ◌∷◌, ◌++◌, ℕ, any, is_empty, if◌then◌else◌,
  ◌==◌, suc,
}
use agentic_operator_core.Base.Int.{ℤ, pos, ltb_ℤ, leb_ℤ}
use agentic_operator_core.Base.Float.{Float64, of_bits, flt}
use agentic_operator_core.Base.Text.{Text, txt, text_eq}
use agentic_operator_core.Base.Strings.{to_lower, trim_space, equal_fold, elem, cut, fields}
use agentic_operator_core.Dataclass.{credential, is_personal}
use agentic_operator_core.Input.{Input, HostParsers, host, host_allowed, allowed_set}
use agentic_operator_core.Decision.{Layer}

pub record FeatureInput : Type 0 where
  pub input : Input
  pub action : Text
  pub policy_packs : List Text
  pub escalated_by : Layer

pub record Features : Type 0 where
  pub spec_version : Text
  pub values : List ℤ

abbrev pub feature_spec_version : Text
feature_spec_version = txt "v1"

abbrev pub feature_names : List Text
feature_names =
    txt "dc_personal_count"
    ∷ txt "dc_credential"
    ∷ txt "dc_undeclared_count"
    ∷ txt "personal_to_undeclared"
    ∷ txt "dest_present"
    ∷ txt "dest_declared"
    ∷ txt "declared_present"
    ∷ txt "decision_automated"
    ∷ txt "action_destructive"
    ∷ txt "prior_actions_bucket"
    ∷ txt "prior_denied"
    ∷ txt "conf_absent"
    ∷ txt "conf_low"
    ∷ txt "conf_mid"
    ∷ txt "health_absent"
    ∷ txt "health_low"
    ∷ txt "health_mid"
    ∷ txt "pack_any"
    ∷ txt "pack_dpdp_in"
    ∷ txt "pack_gdpr_eu"
    ∷ txt "esc_invariant"
    ∷ txt "esc_rules"
    ∷ txt "esc_threshold"
    ∷ txt "esc_model"
    ∷ []

abbrev pub destructive_keywords : List Text
destructive_keywords =
    txt "cleanup"
    ∷ txt "clear"
    ∷ txt "delete"
    ∷ txt "destroy"
    ∷ txt "drop"
    ∷ txt "purge"
    ∷ txt "remove"
    ∷ txt "reset"
    ∷ txt "truncate"
    ∷ txt "wipe"
    ∷ []

-- `_`, `-`, `.`, `/` and space
is_separator : ℕ → Bool
is_separator c = c == 95 || (c == 45 || (c == 46 || (c == 47 || c == 32)))

unfoldable pub is_destructive : Text → Bool
unfolding is_separator
is_destructive name = any (λ t. elem t destructive_keywords) (fields is_separator (to_lower name))

unfoldable pub bucket_count : ℤ → ℤ
bucket_count n =
    if leb_ℤ n (pos 0)
    then pos 0
    else if ltb_ℤ n (pos 10)
    then pos 1
    else if ltb_ℤ n (pos 100)
    then pos 2
    else pos 3

unfoldable pub cap_int : ℤ → ℤ → ℤ
cap_int n m = if ltb_ℤ n (pos 0) then pos 0 else if ltb_ℤ m n then m else n

-- `b`
unfoldable pub bit : Bool → ℤ
bit x = if x then pos 1 else pos 0

-- The size of a set filled from a list: the first occurrences that pass.
unfoldable pub count_distinct : (Text → Bool) → List Text → List Text → ℕ
count_distinct p seen [] = 0
count_distinct p seen (c ∷ cs) =
    let new = suc (count_distinct p (c ∷ seen) cs) in
    let old = count_distinct p seen cs in if p c && not (elem c seen) then new else old

-- 0.5, 0.8, 50 and 80
abbrev half : Float64
half = of_bits 0x3fe0000000000000

abbrev four_fifths : Float64
four_fifths = of_bits 0x3fe999999999999a

abbrev fifty : Float64
fifty = of_bits 0x4049000000000000

abbrev eighty : Float64
eighty = of_bits 0x4054000000000000

-- The three indicators of a claimed value: absent, low, mid.
unfoldable pub claim_bits : Float64 → Float64 → Option Float64 → List ℤ
claim_bits low mid none = pos 1 ∷ pos 0 ∷ pos 0 ∷ []
claim_bits low mid (some c) =
    if flt c low
    then pos 0 ∷ pos 1 ∷ pos 0 ∷ []
    else if flt c mid
    then pos 0 ∷ pos 0 ∷ pos 1 ∷ []
    else pos 0 ∷ pos 0 ∷ pos 0 ∷ []

-- The name of a pack, before the version.
abbrev pack_name : Text → Text
pack_name p = (cut (to_lower p) (txt "@")).0

escalation_bits : Layer → List ℤ
escalation_bits Layer.invariant = pos 1 ∷ pos 0 ∷ pos 0 ∷ pos 0 ∷ []
escalation_bits Layer.rules = pos 0 ∷ pos 1 ∷ pos 0 ∷ pos 0 ∷ []
escalation_bits Layer.pack = pos 0 ∷ pos 1 ∷ pos 0 ∷ pos 0 ∷ []
escalation_bits Layer.threshold = pos 0 ∷ pos 0 ∷ pos 1 ∷ pos 0 ∷ []
escalation_bits Layer.model = pos 0 ∷ pos 0 ∷ pos 0 ∷ pos 1 ∷ []
escalation_bits _ = pos 0 ∷ pos 0 ∷ pos 0 ∷ pos 0 ∷ []

pack_bits : List Text → List ℤ
pack_bits packs =
    bit (not (is_empty packs))
    ∷ bit (any (λ p. text_eq (pack_name p) (txt "dpdp-in")) packs)
    ∷ bit (any (λ p. text_eq (pack_name p) (txt "gdpr-eu")) packs)
    ∷ []

module _ (net : HostParsers) where
  -- The features that the claims, the packs and the escalation do not touch.
  observed_bits : FeatureInput → List ℤ
  observed_bits fi =
      let d = fi.input.declared in
      let o = fi.input.observed in
      let classes = allowed_set o.data_classes in
      let declared =
        not (is_empty d.decision_type)
        || (not (is_empty d.allowed_data_classes) || not (is_empty d.allowed_destinations)) in
      let personal = count_distinct is_personal [] classes in
      let listed = allowed_set d.allowed_data_classes in
      let undeclared =
        if declared then count_distinct (λ c. not (elem c listed)) [] classes else 0 in
      let h = host net o.destination in
      let again = host net h in
      let dest_declared =
        not (is_empty h) && (is_empty again || host_allowed again d.allowed_destinations) in
      cap_int (pos personal) (pos 6)
      ∷ bit (elem credential classes)
      ∷ cap_int (pos undeclared) (pos 6)
      ∷ bit (not (personal == 0) && (not (is_empty h) && not dest_declared))
      ∷ bit (not (is_empty h))
      ∷ bit dest_declared
      ∷ bit declared
      ∷ bit (equal_fold (trim_space d.decision_type) (txt "automated"))
      ∷ bit (is_destructive fi.action)
      ∷ bucket_count o.prior_action_count
      ∷ cap_int o.prior_denied_count (pos 10)
      ∷ []

  unfoldable pub extract_features : FeatureInput → Features
  unfolding observed_bits pack_bits escalation_bits claim_bits
  extract_features fi = record {
    spec_version = feature_spec_version;
    values =
        observed_bits fi
        ++ (claim_bits half four_fifths fi.input.claimed.confidence
            ++ (claim_bits fifty eighty fi.input.claimed.cluster_health
                ++ (pack_bits fi.policy_packs ++ escalation_bits fi.escalated_by)));
  }
