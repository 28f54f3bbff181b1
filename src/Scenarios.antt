-- ===== src/Scenarios.antt =====
-- Concrete parameters and values for the examples of the children.
pub mod Rules
pub mod Ledgers
pub mod Approvals
pub mod Held
pub mod Reconciles
pub mod Resolved
pub mod Services
pub mod Tenants
pub mod Records
pub mod Directs
pub mod Webhooks
use agentic_operator_core.Base.{
  Option, ap, ℕ, zero, suc, ◌%◌, ◌<◌, ◌≡◌, true, false, refl, none, some, List, [], ◌∷◌, length,
  All, arith,
}
use agentic_operator_core.Base.Text.{Text, txt}
use agentic_operator_core.Base.Crypto.{Crypto, IsDigest}
use agentic_operator_core.Input.{Input, HostParsers}
use agentic_operator_core.Invariants.{Context}
use agentic_operator_core.Base.Int.{pos}
use agentic_operator_core.Threshold.{FloatFormat}
use agentic_operator_core.Approval.{Approver, Codec}

abbrev pub zeros : ℕ → Text
zeros zero = []
zeros (suc n) = 0 ∷ zeros n

-- Digests of 32 bytes.
abbrev pub toy_crypto : Crypto
toy_crypto = record {
  sha256 = λ s. length s % 256 ∷ zeros 31;
  hmac = λ key s. length s % 256 ∷ zeros 31;
}

zeros-bytes : (n : ℕ) → All (λ b. b < 256) (zeros n)
zeros-bytes zero = tt
zeros-bytes (suc n) = (omega arith, zeros-bytes n)

pub toy-IsDigest : (s : Text) → IsDigest (length s % 256 ∷ zeros 31)
toy-IsDigest s = record { size = refl; bytes = (omega arith, zeros-bytes 31) }

-- Parsers that know no host of a URL and no port.
abbrev pub plain_hosts : HostParsers
plain_hosts = record { url_hostname = λ s. none; split_host_port = λ s. none }

abbrev pub plain_format : FloatFormat
plain_format = record { two_digits = λ x. txt "x"; one_digit = λ x. txt "x" }

-- A name, each character raised by one, then 0 and the digest of the groups.
abbrev pub encode : Text → Text → Text
encode [] groups = 0 ∷ groups
encode (b ∷ name) groups = suc b ∷ encode name groups

abbrev pub cons_name : ℕ → Option Approver → Option Approver
cons_name b none = none
cons_name b (some a) = some (record a { username = b ∷ a.username })

abbrev pub decode : Text → Option Approver
decode [] = none
decode (zero ∷ groups) = some (record { username = []; groups_sha256 = groups })
decode (suc b ∷ s) = cons_name b (decode s)

pub decode-encode :
    (name groups : Text)
    → decode (encode name groups) ≡ some (record { username = name; groups_sha256 = groups })
decode-encode [] groups = refl
decode-encode (b ∷ name) groups = ap (cons_name b) (decode-encode name groups)

-- An edit is taken as a name.
abbrev pub toy_codec : Codec
toy_codec = record {
  encode_approver = λ a. encode a.username a.groups_sha256;
  decode_approver = decode;
  decode_edit = λ s. some (record { name = s; description = []; params = [] });
  valid_utf8 = λ s. true;
}

abbrev pub quiet_input : Input
quiet_input = record {
  declared = record {
    purpose = txt "reporting";
    decision_type = txt "assisted";
    allowed_data_classes = txt "email" ∷ [];
    allowed_destinations = txt "*.example.com" ∷ [];
  };
  observed = record {
    destination = txt "api.example.com";
    data_classes = txt "email" ∷ [];
    tool = txt "send";
    caller_identity = txt "agent";
    prior_action_count = pos 3;
    prior_denied_count = pos 0;
    scan_incomplete = false;
  };
  claimed = record { confidence = none; cluster_health = none; intent = [] };
}

abbrev pub context : Context
context = record { receipts_required = true; receipt_writer_available = true }
