-- ===== src/Scenarios/Directs.antt =====
-- Examples for the properties of the direct path.
use agentic_operator_core.Base.{ap, true, false, none, some, [], ◌≡◌, ◌⊎◌, refl}
use agentic_operator_core.Base.Text.{txt, text_eq}
use agentic_operator_core.Base.Json.{Members, empty, member, string, number}
use agentic_operator_core.Base.Strings.{elem, sort_strings, to_lower, has_prefix}
use agentic_operator_core.Base.Try.{ok}
use agentic_operator_core.Decision
use agentic_operator_core.Decision.{Outcome, Layer}
use agentic_operator_core.Threshold
use agentic_operator_core.Input
use agentic_operator_core.Invariants
use agentic_operator_core.Dataclass.Scan
use agentic_operator_core.Controller.Actions.{evaluate_layers, evaluate_threshold}
use agentic_operator_core.Controller.Scoring.{apply_decision_model}
use agentic_operator_core.Controller.Direct.Acting.{
  model_block, layers_offered, input_of, policy_mode,
}
use agentic_operator_core.Controller.Direct.Proposal.{decision_input, observe, declared_of}
use agentic_operator_core.Controller.Direct.Deciding.{Deciding}
use agentic_operator_core.Receipts.Record.{
  new_decision_record, map_result, map_outcome, map_layer, payload_sha256_of, input_hash, hash_hex,
}
use agentic_operator_core.Decision.Model.{ModelMode, is_allow}
use agentic_operator_core.Controller.Direct.{Spec, Outside}
use agentic_operator_core.Controller.Direct.Proposal.{one}
use agentic_operator_core.Controller.Direct.Deciding.{new_record, or_blank}
use agentic_operator_core.Controller.Direct.Acting.{
  Offer, deciding, payload_of, decide_offer, reconcile_direct,
}
use agentic_operator_core.Controller.Direct.Traces.{Before}
use agentic_operator_core.Controller.Direct.Cleared.{ClearsExecution, reconcile_direct-IsCleared}
use agentic_operator_core.Controller.Direct.Writes.{Saves, IsWritten, reconcile_direct-IsWritten}
use agentic_operator_core.Controller.Direct.Steps.{Stores, Repeats, reconcile_direct-Step}
use agentic_operator_core.Controller.Direct.Running.{
  Answers, run, IsExecuted, decide_offer-IsExecuted,
}
use agentic_operator_core.Scenarios.Held.{surroundings, reconciler, empty_status}
use agentic_operator_core.Scenarios.Reconciles.{before}
use agentic_operator_core.Scenarios.Records.{toy_codecs, toy_patterns}

abbrev pub outside : Outside
outside = record {
  base = surroundings;
  codecs = toy_codecs;
  patterns = record toy_patterns { matches = λ re s. false };
  canonical = λ rec. ok [];
  parse_number = λ s. none;
  of_int = λ n. one;
  hash_features = λ f. [];
  model = record { scorer = none; unavailable = none };
  now = [];
  writer = true;
}

abbrev pub spec : Spec
spec = record {
  ref = record { namespace = txt "default"; name = txt "w"; uid = txt "uid" };
  endpoint = [];
  objective = [];
  opa_policy = none;
  declared = none;
  model = record { mode = ModelMode.off; threshold_micro = none; policy_packs = [] };
}

abbrev proposal : Members
proposal =
    member (txt "action") (string (txt "get_pods"))
      (member (txt "confidence") (number one) (member (txt "description") (string []) empty))

abbrev pub offer : Offer
offer = record {
  proposal = proposal;
  proposed = record { action = txt "get_pods"; description = []; confidence = one };
  health = one;
  claimed_health = none;
}

reconcile_direct-IsCleared_example :
    Before
      (ClearsExecution outside reconciler spec empty_status)
      []
      (reconcile_direct outside reconciler spec empty_status)
reconcile_direct-IsCleared_example = reconcile_direct-IsCleared outside reconciler spec empty_status

reconcile_direct-IsWritten_example :
    Saves (IsWritten empty_status) (reconcile_direct outside reconciler spec empty_status)
reconcile_direct-IsWritten_example = reconcile_direct-IsWritten outside reconciler spec empty_status

reconcile_direct-Step_example :
    Saves
      (λ st. Stores outside reconciler before st ⊎ Repeats before st)
      (reconcile_direct outside reconciler spec empty_status)
reconcile_direct-Step_example =
    reconcile_direct-Step outside reconciler spec before empty_status refl

abbrev answers : Answers
answers = record {
  reply = λ name args. some empty;
  refusal = λ st. none;
  log = λ rec. some (record { seq = 1; entry_hash = [] });
}

offer-outcome :
    ((deciding outside reconciler spec empty_status offer).result.outcome ≡ Outcome.allow)
    × ((deciding outside reconciler spec empty_status offer).result.layer ≡ Layer.threshold)
unfolding deciding model_block apply_decision_model Decision.decide layers_offered evaluate_layers
    Invariants.check Invariants.credentials input_of decision_input observe declared_of Scan.scan
    sort_strings Scan.walk Scan.enter Scan.read_text Scan.detect_into Scan.add_detected
    Scan.detectors Scan.any_isolated Scan.any_iban Input.destination_violation
    Invariants.personal_dest Input.data_class_violation Input.undeclared_data_classes
    Invariants.receipts Invariants.scan_complete evaluate_threshold text_eq policy_mode
    Threshold.evaluate_strict Threshold.assess_confidence Threshold.is_read_only_action
    Threshold.verb_of elem to_lower has_prefix
offer-outcome = (refl, refl)

-- The codecs of the examples make a record of every result with a known outcome and layer.
recorded :
    (d : Deciding)
    → d.result.outcome ≡ Outcome.allow
    → d.result.layer ≡ Layer.threshold
    → new_record outside reconciler spec d ≡ ok (or_blank (new_record outside reconciler spec d))
unfolding new_record new_decision_record map_result map_outcome map_layer or_blank payload_sha256_of
    input_hash hash_hex
recorded d e f = rw (e, f) refl

decide_offer-IsExecuted_example :
    IsExecuted
      (payload_of outside reconciler spec offer)
      (run answers (decide_offer outside reconciler spec empty_status offer))
decide_offer-IsExecuted_example =
    decide_offer-IsExecuted outside reconciler spec answers (λ st. refl) empty_status offer empty
      refl
      (or_blank
        (new_record outside reconciler spec (deciding outside reconciler spec empty_status offer)))
      (record { seq = 1; entry_hash = [] }) (ap is_allow offer-outcome.0)
      (recorded _ offer-outcome.0 offer-outcome.1) refl refl
