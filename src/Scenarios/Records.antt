-- ===== src/Scenarios/Records.antt =====
-- Examples for the properties of decision records and of the scan for data classes.
use agentic_operator_core.Base.{
  leb, if◌then◌else◌, ℕ, is_empty, ◌++◌, Bool, true, false, ◌≡◌, ◌≤◌, ◌↔◌, ◌⊎◌, refl, inl, [], ◌∷◌,
  none, ltb, length, suc, arith,
}
use agentic_operator_core.Base.Crypto.{hex_encode}
use agentic_operator_core.Base.Text.{Text, txt}
use agentic_operator_core.Base.Strings.{elem}
use agentic_operator_core.Base.Json.{Json, null, string, array, object, nil, item, empty, member}
use agentic_operator_core.Base.Try.{ok}
use agentic_operator_core.Dataclass.Scan
use agentic_operator_core.Dataclass.Scan.{Patterns, Pattern, scan, detectors, max_string_bytes}
use agentic_operator_core.Dataclass.Scan.Complete.{Reads, detects, scan_thorough}
use agentic_operator_core.Decision.{Outcome, Layer}
use agentic_operator_core.Receipts.{Codecs, Params, DecisionRecord}
use agentic_operator_core.Receipts.Record.{input_hash, new_decision_record, record_with}
use agentic_operator_core.Receipts.Fields.{Utf8, ReceiptFields, fields_of, clip, PolicyDecision}
use agentic_operator_core.Receipts.Binding.{IsSame, JsonCollision, input_hash_iff}
use agentic_operator_core.Receipts.Verdicts.{fields_of-allow, IsSized, clip-bound}
use agentic_operator_core.Scenarios.{toy_crypto, plain_hosts, quiet_input}

-- Encoders that keep nothing.
abbrev pub toy_codecs : Codecs
toy_codecs = record {
  marshal = λ j. ok (txt "{}");
  unmarshal = λ s. ok null;
  hash_json = λ j. ok [];
  hash_record = λ rec. ok (txt "h");
  sha256 = toy_crypto.sha256;
  format_float = λ x. txt "1";
  net = plain_hosts;
}

-- The size of the last rune of a text whose runes have one byte or two: the first of two is at least 192.
abbrev last_rune : Text → ℕ
last_rune [] = 0
last_rune (c ∷ []) = 1
last_rune (c ∷ d ∷ s) = if is_empty s then (if leb 192 c then 2 else 1) else last_rune (d ∷ s)

abbrev two_bytes : Utf8
two_bytes = record { to_valid = λ s t. s; last_size = last_rune }

abbrev is_email : Pattern → Bool
is_email Pattern.email = true
is_email _ = false

-- Every text that is not empty is an email address.
abbrev pub toy_patterns : Patterns
toy_patterns = record {
  matches = λ re s. is_email re;
  find_all = λ re s. [];
  print_float = λ x. txt "1";
  print_int = λ n. txt "1";
}

abbrev payload : Json
payload = object (member (txt "to") (array (item (string (txt "a@b.cd")) nil)) empty)

scan_payload : scan toy_patterns payload ≡ (txt "email" ∷ [], true)
unfolding scan agentic_operator_core.Base.Strings.sort_strings Scan.walk Scan.enter Scan.read_text
    Scan.detect_into Scan.add_detected detectors Scan.any_isolated Scan.any_iban Scan.add_class elem
scan_payload = refl

scan_thorough_example :
    (length (txt "a@b.cd") ≤ max_string_bytes)
    × ((c : Text)
        → detects (detectors toy_patterns) c (txt "a@b.cd") ≡ true
        → elem c (scan toy_patterns payload).0 ≡ true)
unfolding scan Scan.walk Scan.enter Scan.read_text Scan.detect_into Reads
scan_thorough_example = scan_thorough toy_patterns payload (txt "a@b.cd") refl (inl (inl refl))

two_bytes-IsSized : IsSized two_bytes
two_bytes-IsSized [] h = absurd (omega (arith, h))
two_bytes-IsSized (c ∷ []) h = omega arith
two_bytes-IsSized (c ∷ d ∷ []) h = ground arith
two_bytes-IsSized (c ∷ d ∷ e ∷ s) h = two_bytes-IsSized (d ∷ e ∷ s) (omega arith)

clip-bound_example :
    (length (clip two_bytes (txt "decision:restart") 9 (txt "none")) ≤ 9)
    × (is_empty (clip two_bytes (txt "decision:restart") 9 (txt "none")) ≡ false)
clip-bound_example =
    clip-bound two_bytes two_bytes-IsSized (txt "decision:restart") 9 (txt "none") (omega arith)
      refl

input_hash_iff_example :
    (IsSame toy_codecs quiet_input [] quiet_input [] → input_hash toy_codecs quiet_input [] ≡ ok [])
    × (input_hash toy_codecs quiet_input [] ≡ ok []
        → IsSame toy_codecs quiet_input [] quiet_input [] ⊎ JsonCollision toy_codecs)
unfolding input_hash agentic_operator_core.Receipts.Record.hash_hex
    agentic_operator_core.Base.Crypto.hex_encode
input_hash_iff_example = input_hash_iff toy_codecs quiet_input quiet_input [] [] [] refl

abbrev params : Params
params = record {
  workload = record { namespace = txt "default"; name = txt "w"; uid = txt "uid" };
  action = txt "restart";
  input = quiet_input;
  payload = payload;
  layers = record {
    invariants = [];
    pack_err = none;
    pack_deny = [];
    pack_approval = [];
    threshold_allowed = true;
    threshold_reasons = [];
  };
  result = record { outcome = Outcome.allow; layer = Layer.threshold; reasons = [] };
  policy_packs = [];
  threshold_mode = txt "strict";
  model = none;
}

abbrev made : DecisionRecord
made =
    record_with toy_codecs params (txt "allow", txt "threshold")
      (hex_encode (toy_crypto.sha256 (txt "clawdlinux.decision.payload.v1" ++ 0 ∷ txt "{}"))) [] []
      [] []

abbrev fields : ReceiptFields
fields = record {
  human_principal = txt "system:clawdlinux-operator";
  agent_key_id = txt "uid";
  service = txt "clawdlinux";
  action = txt "decision:restart";
  params_sha256 = txt "h";
  policy_decision = PolicyDecision.allow;
  status_code = 200;
}

params-made : new_decision_record toy_codecs params ≡ ok made
unfolding new_decision_record agentic_operator_core.Receipts.Record.map_result
    agentic_operator_core.Receipts.Record.map_outcome
    agentic_operator_core.Receipts.Record.map_layer
    agentic_operator_core.Receipts.Record.payload_sha256_of input_hash
    agentic_operator_core.Receipts.Record.hash_hex hex_encode
params-made = refl

made-fields : fields_of toy_codecs two_bytes made ≡ ok fields
unfolding fields_of agentic_operator_core.Receipts.Fields.policy_decision_of record_with
    agentic_operator_core.Receipts.Fields.principal_of clip
    agentic_operator_core.Receipts.Fields.status_code_of
    agentic_operator_core.Receipts.Fields.shorten agentic_operator_core.Receipts.Fields.without_nul
    agentic_operator_core.Receipts.Fields.agent_of
made-fields = refl

fields_of-allow_example :
    ((fields.policy_decision ≡ PolicyDecision.allow) ↔ (params.result.outcome ≡ Outcome.allow))
    × (toy_codecs.hash_record made ≡ ok fields.params_sha256)
fields_of-allow_example =
    fields_of-allow toy_codecs two_bytes params made fields params-made made-fields
