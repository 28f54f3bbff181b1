-- ===== src/Approval.antt =====
-- pkg/approval/approval.go: the annotation protocol of human approvals. The map of annotations is a
-- record of the six keys of the protocol (the code touches no other); a key that is absent is
-- `none`. JSON and UTF-8 are a parameter, and so are the digests.

pub mod Admission
pub mod RoundTrip
use agentic_operator_core.Base.{
  ℕ, Bool, true, false, not, ◌&&◌, ◌||◌, Option, none, some, List, [], ◌∷◌, ◌++◌, length, is_empty,
  ltb, ◌==◌, if◌then◌else◌,
}
use agentic_operator_core.Base.Crypto.{Crypto, hex_encode, hex_decode}
use agentic_operator_core.Base.Text.{Text, txt, text_eq}
use agentic_operator_core.Base.Strings.{join, sort_strings, trim_space, trim_right}

pub record Annotations : Type 0 where
  pub decision : Option Text
  pub reason : Option Text
  pub edit : Option Text
  pub by : Option Text
  pub target : Option Text  -- `AnnotationFor`
  pub mac : Option Text

-- The value of a key, empty where it is absent.
abbrev pub value : Option Text → Text
value none = []
value (some s) = s

pub record Pending : Type 0 where
  pub id : Text
  pub workload_uid : Text
  pub payload_sha256 : Text

pub record Approver : Type 0 where
  pub username : Text
  pub groups_sha256 : Text

-- `params` as its JSON text.
pub record EditedAction : Type 0 where
  pub name : Text
  pub description : Text
  pub params : Text

pub data ApprovalError : Type 0 where
  unstamped forged final no_pending no_key bad_mac : ApprovalError
  no_username bad_approver bad_label bad_reason edit_not_allowed edit_missing : ApprovalError
  edit_too_long edit_invalid edit_unnamed name_too_long description_too_long : ApprovalError
  stamps_left : ApprovalError

pub data Checked (A : Type 0) : Type 0 where
  pass : A → Checked A
  fail : ApprovalError → Checked A

infixl 5 ◌>>=◌
abbrev pub ◌>>=◌ : {A B : Type 0} → Checked A → (A → Checked B) → Checked B
pass a >>= f = f a
fail e >>= f = fail e

-- encoding/json on the two records, and utf8.ValidString
pub record Codec : Type 0 where
  pub encode_approver : Approver → Text
  pub decode_approver : Text → Option Approver
  pub decode_edit : Text → Option EditedAction
  pub valid_utf8 : Text → Bool

pub data Label : Type 0 where
  approve reject edit : Label

abbrev pub label_text : Label → Text
label_text approve = txt "approve"
label_text reject = txt "reject"
label_text edit = txt "edit"

unfoldable pub parse_label : Text → Option Label
parse_label s =
    if text_eq s (txt "approve")
    then some approve
    else if text_eq s (txt "reject")
    then some reject
    else if text_eq s (txt "edit")
    then some edit
    else none

pub record Decision : Type 0 where
  pub label : Label
  pub reason : Text
  pub edit : Option EditedAction
  pub approver : Approver
  pub approver_raw : Text
  pub target : Text

-- The reply of `Read`: no decision for this action, an error, or the decision.
pub data ReadResult : Type 0 where
  waiting : ReadResult
  refused : ApprovalError → ReadResult
  decided : Decision → ReadResult

abbrev pub nul : Text
nul = 0 ∷ []

-- `LoadKey` on the contents of the file: none if the key is too short.
is_key_space : ℕ → Bool
is_key_space c = c == 32 || (c == 9 || (c == 13 || c == 10))

unfoldable pub load_key : Text → Option Text
unfolding is_key_space
load_key b = let key = trim_right is_key_space b in if ltb (length key) 32 then none else some key

unfoldable pub differs : Option Text → Option Text → Bool
differs none none = false
differs (some s) (some t) = not (text_eq s t)
differs _ _ = true

-- Whether any key of the protocol changed.
unfoldable pub changed : Annotations → Annotations → Bool
unfolding differs
changed old new =
    differs old.decision new.decision
    || (differs old.reason new.reason
        || (differs old.edit new.edit
            || (differs old.by new.by
                || (differs old.target new.target || differs old.mac new.mac))))

-- A stamp that the client sets itself.
unfoldable pub is_forged : Option Text → Option Text → Bool
is_forged old new = not (is_empty (value new)) && not (text_eq (value new) (value old))

unfoldable pub same_mac : Option Text → Option Text → Bool
same_mac (some got) (some want) = text_eq got want
same_mac _ _ = false

unfoldable pub is_mac : Option Text → Bool
is_mac none = false
is_mac (some got) = length got == 32

module _ (codec : Codec) where
  unfoldable pub parse_approver : Text → Checked Approver
  parse_approver s = elim (codec.decode_approver s) [
    | none ↦ fail bad_approver
    | some a ↦
        if is_empty a.username || not (length a.groups_sha256 == 64)
        then fail bad_approver
        else pass a
  ]

  unfoldable pub parse_edit : Text → Checked EditedAction
  parse_edit s = if ltb 16384 (length s) then fail edit_too_long else elim (codec.decode_edit s) [
    | none ↦ fail edit_invalid
    | some e ↦
        if is_empty (trim_space e.name)
        then fail edit_unnamed
        else if ltb 253 (length e.name)
        then fail name_too_long
        else if ltb 4096 (length e.description)
        then fail description_too_long
        else pass e
  ]

  -- The part of `validateFields` below the checks of label and reason.
  validate_edit : Label → Option Text → Checked (Label × Option EditedAction)
  validate_edit edit none = fail edit_missing
  validate_edit edit (some raw) = parse_edit raw >>= λ e. pass (edit, some e)
  validate_edit l none = pass (l, none)
  validate_edit l (some raw) = fail edit_not_allowed

  unfoldable pub validate_fields : Annotations → Checked (Label × Option EditedAction)
  unfolding validate_edit parse_label
  validate_fields ann = elim (parse_label (value ann.decision)) [
    | none ↦ fail bad_label
    | some l ↦
        if ltb 1024 (length (value ann.reason)) || not (codec.valid_utf8 (value ann.reason))
        then fail bad_reason
        else validate_edit l ann.edit
  ]

module _ (c : Crypto) where
  unfoldable pub sha256_hex : Text → Text
  sha256_hex s = hex_encode (c.sha256 s)

  unfoldable pub pending_sha256 : Text → Text
  pending_sha256 proposal =
      sha256_hex (txt "clawdlinux.org/approval-pending-payload/v1" ++ (nul ++ proposal))

  unfoldable pub decision_sha256 : Annotations → Text
  decision_sha256 ann = sha256_hex (
      join nul (
        txt "clawdlinux.org/approval-decision/v1"
        ∷ value ann.decision
        ∷ value ann.reason
        ∷ value ann.edit
        ∷ []))

  -- What the stamp authenticates.
  unfoldable pub mac_message : Pending → Annotations → Text
  mac_message p ann = join nul (
      txt "clawdlinux.org/approval-stamp/v1"
      ∷ p.workload_uid
      ∷ p.id
      ∷ decision_sha256 ann
      ∷ sha256_hex (value ann.by)
      ∷ p.payload_sha256
      ∷ [])

  unfoldable pub mac_of : Text → Pending → Annotations → Text
  mac_of key p ann = hex_encode (c.hmac key (mac_message p ann))

  -- `none` is success.
  unfoldable pub verify_mac : Text → Pending → Annotations → Option ApprovalError
  unfolding same_mac is_mac
  verify_mac key p ann =
      let got = hex_decode (value ann.mac) in
      if is_empty key
      then some no_key
      else if not (is_mac got)
      then some bad_mac
      else if not (same_mac got (hex_decode (mac_of key p ann)))
      then some bad_mac
      else none

  module _ (codec : Codec) where
    unfoldable pub stamp : Text → List Text → Checked Text
    stamp username groups =
        if is_empty (trim_space username)
        then fail no_username
        else pass (
            codec.encode_approver (record {
              username = username;
              groups_sha256 = sha256_hex (join (10 ∷ []) (sort_strings groups));
            }))

    -- `Read` after its guards: approver and fields of a decision with a good MAC.
    unfoldable pub read_fields : Annotations → Pending → Checked Decision
    read_fields ann p = do
      approver ← parse_approver codec (value ann.by)
      (label, edited) ← validate_fields codec ann
      pass (record {
        label = label;
        reason = value ann.reason;
        edit = edited;
        approver = approver;
        approver_raw = value ann.by;
        target = p.id;
      })

    unfoldable pub read : Annotations → Pending → Text → ReadResult
    read ann p key =
        if is_empty (value ann.decision) || is_empty p.id
        then waiting
        else if is_empty (value ann.by)
        then refused unstamped
        else if not (text_eq (value ann.target) p.id)
        then waiting
        else elim (verify_mac key p ann) [
          | some e ↦ refused e
          | none ↦ elim (read_fields ann p) [ fail e ↦ refused e | pass d ↦ decided d ]
        ]

    -- The end of `Admit`: a new decision is validated and stamped.
    unfoldable pub admit_new : Annotations → Pending → Text → List Text → Text → Checked Annotations
    admit_new new p username groups key = do
      fields ← validate_fields codec new
      k ← if is_empty key then fail no_key else pass key
      by ← stamp username groups
      let stamped = record new { by = some by; target = some p.id }
      pass (record stamped { mac = some (mac_of k p stamped) })

    unfoldable pub admit :
        Annotations → Annotations → Pending → Text → List Text → Text → Checked Annotations
    admit old new p username groups key =
        if not (changed old new)
        then pass new
        else if is_forged old.by new.by
            || (is_forged old.target new.target || is_forged old.mac new.mac)
        then fail forged
        else if not (is_empty (value old.decision))
            && (not (is_empty p.id) && text_eq (value old.target) p.id)
        then fail final
        else if is_empty (value new.decision)
        then if not (is_empty (value new.by))
            || (not (is_empty (value new.target)) || not (is_empty (value new.mac)))
          then fail stamps_left
          else pass new
        else if is_empty p.id
        then fail no_pending
        else admit_new new p username groups key
