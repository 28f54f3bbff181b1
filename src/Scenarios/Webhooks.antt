-- ===== src/Scenarios/Webhooks.antt =====
-- Examples for the properties of the webhook and of the classifier of prompts.
use agentic_operator_core.Base.{
  Bool, true, false, Option, none, some, List, [], ◌∷◌, ◌≡◌, ◌↔◌, refl, length, is_empty,
}
use agentic_operator_core.Base.Int.{pos}
use agentic_operator_core.Base.Text.{Text, txt, text_eq}
use agentic_operator_core.Base.Strings.{to_lower, fields, is_space}
use agentic_operator_core.Base.Try.{err}
use agentic_operator_core.Controller.{undecided}
use agentic_operator_core.Controller.Direct.Acting.{deciding}
use agentic_operator_core.Webhook.{
  WorkloadSpec, HeldStatus, ModelSettings, WebhookOutside, validate, validate_update, is_held,
}
use agentic_operator_core.Webhook.Accepted.{IsAcceptable, validate_iff}
use agentic_operator_core.Webhook.Frozen.{IsDeepEqual, direct_spec, validate_update-deciding}
use agentic_operator_core.Routing.{
  new_default_classifier, score_validation, score_analysis, score_reasoning, classify,
}
use agentic_operator_core.Routing.Cheapest.{IsBest, classify-IsBest}
use agentic_operator_core.Scenarios.Held.{reconciler, empty_status}
use agentic_operator_core.Scenarios.Directs.{outside, offer, spec}

-- An equality that knows only of values that are left out.
abbrev both_none {ℓ} : {A : Type ℓ} → Option A → Option A → Bool
both_none none none = true
both_none _ _ = false

abbrev both_empty : List Text → List Text → Bool
both_empty [] [] = true
both_empty _ _ = false

abbrev webhook : WebhookOutside
webhook = record {
  parse_url = λ s. err [];
  parse_float = λ s. none;
  matches_threshold = λ s. true;
  rune_count = λ s. length s;
  quote = λ s. s;
  invalid = λ path value detail. path;
  print_int = λ n. [];
  print_float = λ x. [];
  same_declared = both_none;
  same_packs = both_empty;
  same_model = both_none;
  same_capture = both_none;
}

none-same {ℓ} : {A : Type ℓ} (a b : Option A) → both_none a b ≡ true → a ≡ b
none-same none none h = refl
none-same none (some b) h = absurd (cc h)
none-same (some a) b h = absurd (cc h)

empty-same : (a b : List Text) → both_empty a b ≡ true → a ≡ b
empty-same [] [] h = refl
empty-same [] (x ∷ b) h = absurd (cc h)
empty-same (x ∷ a) b h = absurd (cc h)

webhook-IsDeepEqual : IsDeepEqual webhook
webhook-IsDeepEqual = record {
  declared = λ a b h. none-same a b h;
  packs = empty-same;
  model = λ a b h. none-same a b h;
}

abbrev old_spec : WorkloadSpec
old_spec = record {
  workload_type = none;
  mcp_server_endpoint = none;
  objective = some (txt "restart");
  agents = txt "a" ∷ [];
  auto_approve_threshold = none;
  opa_policy = some (txt "strict");
  policy_packs = [];
  declared_intent = none;
  decision_model = none;
  approval_capture = none;
}

abbrev new_spec : WorkloadSpec
new_spec = record old_spec { objective = some (txt "scale") }

abbrev held_status : HeldStatus
held_status = record { phase = txt "PendingApproval"; pending = some undecided }

update-accepted : validate_update webhook (pos 0) held_status old_spec new_spec ≡ []
unfolding validate_update validate agentic_operator_core.Webhook.type_errors
    agentic_operator_core.Webhook.endpoint_errors agentic_operator_core.Webhook.objective_errors
    agentic_operator_core.Webhook.threshold_errors agentic_operator_core.Webhook.policy_errors
    agentic_operator_core.Base.Strings.elem agentic_operator_core.Webhook.pack_errors
    agentic_operator_core.Webhook.model_errors agentic_operator_core.Webhook.string_ptr_equal
    agentic_operator_core.Webhook.approval_freeze is_held
    agentic_operator_core.Webhook.changed_fields
update-accepted = refl

status-held : is_held webhook held_status ≡ true
unfolding is_held text_eq
status-held = refl

validate_update-deciding_example :
    deciding outside reconciler (direct_spec spec.ref new_spec) empty_status offer
    ≡ deciding outside reconciler (direct_spec spec.ref old_spec) empty_status offer
validate_update-deciding_example =
    validate_update-deciding webhook (pos 0) held_status old_spec new_spec webhook-IsDeepEqual
      outside reconciler spec.ref empty_status offer update-accepted status-held

validate_iff_example :
    (validate webhook (pos 0) new_spec ≡ []) ↔ IsAcceptable webhook (pos 0) new_spec
validate_iff_example = validate_iff webhook (pos 0) new_spec

abbrev prompt : Text
prompt = txt "check it"

classify-IsBest_example :
    IsBest
      (classify new_default_classifier length prompt)
      (score_validation new_default_classifier
        (to_lower prompt)
        (length (fields is_space prompt))
        (length prompt))
      (score_analysis new_default_classifier
        (to_lower prompt)
        (length (fields is_space prompt))
        (length prompt))
      (score_reasoning new_default_classifier
        (to_lower prompt)
        (length (fields is_space prompt))
        (length prompt))
classify-IsBest_example = classify-IsBest new_default_classifier length 99 (txt "heck it")
