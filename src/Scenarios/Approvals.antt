-- ===== src/Scenarios/Approvals.antt =====
-- Examples for the properties of the approval protocol.
use agentic_operator_core.Base.{none, some, [], ◌≡◌, refl, ◌⊎◌}
use agentic_operator_core.Base.Strings.{trim_space, sort_strings, join}
use agentic_operator_core.Base.Text.{txt, text_eq}
use agentic_operator_core.Approval.{
  sha256_hex, is_forged, parse_label, stamp, Annotations, Pending, value, changed, admit, admit_new,
  pass, fail, forged, final, mac_of, Decision, read, decided, validate_fields,
}
use agentic_operator_core.Approval.Admission.{admit_once, admit-mac}
use agentic_operator_core.Approval.RoundTrip.{Documented, admit-read}
use agentic_operator_core.Scenarios.{toy_crypto, toy_codec, toy-IsDigest, decode-encode, zeros}

toy-Documented : Documented toy_crypto toy_codec
toy-Documented = record {
  sha256 = toy-IsDigest;
  hmac = λ key s. toy-IsDigest s;
  approver = λ a u g. decode-encode a.username a.groups_sha256;
  empty = refl;
  ascii = λ s h. refl;
}

abbrev nothing : Annotations
nothing = record {
  decision = none;
  reason = none;
  edit = none;
  by = none;
  target = none;
  mac = none;
}

abbrev pub approval : Annotations
approval = record nothing { decision = some (txt "approve") }

abbrev pending : Pending
pending = record { id = txt "p1"; workload_uid = txt "uid"; payload_sha256 = txt "h" }

abbrev stamped : Annotations
stamped = record approval { by = some (txt "bob"); target = some (txt "p1"); mac = some (txt "m") }

admit_once_example :
    (admit toy_crypto toy_codec stamped approval pending (txt "eve") [] (zeros 32) ≡ fail forged)
    ⊎ (admit toy_crypto toy_codec stamped approval pending (txt "eve") [] (zeros 32) ≡ fail final)
unfolding changed text_eq
admit_once_example =
    admit_once toy_crypto toy_codec stamped approval pending (txt "eve") [] (zeros 32) refl refl
      refl refl

abbrev pub admitted : Annotations
admitted = record approval {
  by = some (
      toy_codec.encode_approver
        (record { username = txt "bob"; groups_sha256 = sha256_hex toy_crypto [] }));
  target = some (txt "p1");
  mac = some (
      mac_of toy_crypto (zeros 32) pending (record approval {
        by = some (
            toy_codec.encode_approver
              (record { username = txt "bob"; groups_sha256 = sha256_hex toy_crypto [] }));
        target = some (txt "p1");
      }));
}

admitted-ok :
    admit toy_crypto toy_codec nothing approval pending (txt "bob") [] (zeros 32) ≡ pass admitted
unfolding admit changed is_forged admit_new validate_fields parse_label stamp sha256_hex mac_of
    trim_space sort_strings join text_eq
admitted-ok = refl

admit-mac_example :
    (value admitted.mac ≡ [])
    ⊎ (value admitted.mac ≡ value nothing.mac)
    ⊎ (admitted.mac ≡ some (mac_of toy_crypto (zeros 32) pending admitted))
admit-mac_example =
    admit-mac toy_crypto toy_codec nothing approval admitted pending (txt "bob") [] (zeros 32)
      admitted-ok

admit-read_example :
    (d : Decision) × (read toy_crypto toy_codec admitted pending (zeros 32) ≡ decided d)
    × (validate_fields toy_codec approval ≡ pass (d.label, d.edit))
    × (d.reason ≡ value approval.reason)
    × (d.approver.username ≡ txt "bob")
    × (d.target ≡ txt "p1")
unfolding changed text_eq
admit-read_example =
    admit-read toy_crypto toy_codec toy-Documented nothing approval admitted pending (txt "bob") []
      (zeros 32) refl refl refl admitted-ok
