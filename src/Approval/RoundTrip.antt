-- ===== src/Approval/RoundTrip.antt =====
-- A decision that the webhook stamps is the decision that the controller reads.
use agentic_operator_core.Base.{
  true, false, Option, none, some, List, [], ◌∷◌, length, is_empty, ◌≡◌, refl, arith, All, ◌<◌,
}
use agentic_operator_core.Base.Crypto.{
  Crypto, IsDigest, hex_decode, hex_decode-encode, length-hex_encode, hex_encode-ascii,
}
use agentic_operator_core.Base.Text.{Text, text_eq_refl}
use agentic_operator_core.Base.Strings.{trim_space, sort_strings, join}
use agentic_operator_core.Approval.{
  is_mac, same_mac, Annotations, value, Pending, Approver, pass, Codec, Label, Decision, decided,
  admit, admit_new, changed, EditedAction, read, read_fields, verify_mac, mac_of, mac_message,
  stamp, parse_approver, validate_fields, sha256_hex, decision_sha256,
}

-- What is documented of the digests, of encoding/json and of unicode/utf8.
pub record Documented (c : Crypto) (codec : Codec) : Type 0 where
  pub sha256 : (s : Text) → IsDigest (c.sha256 s)
  pub hmac : (key s : Text) → IsDigest (c.hmac key s)
  pub approver :
      (a : Approver)
      → codec.valid_utf8 a.username ≡ true
      → codec.valid_utf8 a.groups_sha256 ≡ true
      → codec.decode_approver (codec.encode_approver a) ≡ some a
  pub empty : codec.decode_approver [] ≡ none
  pub ascii : (s : Text) → All (λ b. b < 128) s → codec.valid_utf8 s ≡ true

trim_space-ne : (s : Text) → is_empty (trim_space s) ≡ false → is_empty s ≡ false
unfolding trim_space
trim_space-ne [] h = h
trim_space-ne (b ∷ s) h = refl

decoded-ne :
    (codec : Codec) (s : Text) (a : Approver)
    → codec.decode_approver [] ≡ none
    → codec.decode_approver s ≡ some a
    → is_empty s ≡ false
decoded-ne codec [] a e h = absurd (ground arith)
decoded-ne codec (b ∷ s) a e h = refl

module _ (c : Crypto) (codec : Codec) (doc : Documented c codec) where
  -- A successful `Admit` of a new decision is the outcome of its last part.
  admitted_new :
      (old new out : Annotations) (p : Pending) (username : Text) (groups : List Text) (key : Text)
      → changed old new ≡ true
      → is_empty (value new.decision) ≡ false
      → admit c codec old new p username groups key ≡ pass out
      → (is_empty p.id ≡ false) × (admit_new c codec new p username groups key ≡ pass out)
  unfolding admit
  admitted_new old new out p username groups key ch d h = ground arith

  -- What the end of `Admit` has done when it succeeds.
  stamped :
      (new out : Annotations) (p : Pending) (username : Text) (groups : List Text) (key : Text)
      → admit_new c codec new p username groups key ≡ pass out
      → (by : Text) × (fields : Label × Option EditedAction) × (stamp c codec username groups
          ≡ pass by)
        × (validate_fields codec new ≡ pass fields)
        × (is_empty key ≡ false)
        × (out ≡ record new {
          by = some by;
          target = some p.id;
          mac = some (mac_of c key p (record new { by = some by; target = some p.id }));
        })
  unfolding admit_new
  stamped new out p username groups key h = ground arith

  stamp-parse :
      (username : Text) (groups : List Text) (by : Text)
      → codec.valid_utf8 username ≡ true
      → stamp c codec username groups ≡ pass by
      → (a : Approver) × (a.username ≡ username)
        × (parse_approver codec by ≡ pass a)
        × (is_empty by ≡ false)
  unfolding stamp parse_approver sha256_hex
  stamp-parse username groups by u h =
      let g = sha256_hex c (join (10 ∷ []) (sort_strings groups)) in
      let a : Approver = record { username = username; groups_sha256 = g } in
      let size : length g ≡ 64 = omega (
        arith,
        length-hex_encode (c.sha256 _),
        (doc.sha256 (join (10 ∷ []) (sort_strings groups))).size,
      ) in
      let back = doc.approver a u (doc.ascii g (hex_encode-ascii _ (doc.sha256 _).bytes)) in
      let made : by ≡ codec.encode_approver a = ground arith in
      let named : is_empty username ≡ false = trim_space-ne username (ground arith) in
      (a, refl, ground (arith, doc.empty), decoded-ne codec by a doc.empty (rw made back))

  verify_mac-own :
      (key : Text) (p : Pending) (ann : Annotations)
      → is_empty key ≡ false
      → ann.mac ≡ some (mac_of c key p ann)
      → verify_mac c key p ann ≡ none
  unfolding verify_mac same_mac is_mac mac_of
  verify_mac-own key p ann k m =
      let digest = doc.hmac key (mac_message c p ann) in
      let back : hex_decode (mac_of c key p ann) ≡ some (c.hmac key (mac_message c p ann)) =
        hex_decode-encode (c.hmac key (mac_message c p ann)) digest.bytes in
      let same = text_eq_refl (c.hmac key (mac_message c p ann)) in ground (arith, digest.size)

  read-stamped :
      (out : Annotations) (p : Pending) (key : Text) (by : Text) (a : Approver)
      (fields : Label × Option EditedAction)
      → is_empty (value out.decision) ≡ false
      → is_empty p.id ≡ false
      → out.by ≡ some by
      → is_empty by ≡ false
      → out.target ≡ some p.id
      → verify_mac c key p out ≡ none
      → parse_approver codec by ≡ pass a
      → validate_fields codec out ≡ pass fields
      → read c codec out p key
        ≡ decided (record {
          label = fields.0;
          reason = value out.reason;
          edit = fields.1;
          approver = a;
          approver_raw = by;
          target = p.id;
        })
  unfolding read read_fields
  read-stamped out p key by a fields d i b ne t m pa vf = ground (arith, text_eq_refl p.id)

  -- Once `Admit` accepts a new decision by a user whose name is valid UTF-8, `Read` with the same key
  -- and pending action returns a decision with the label, reason and edit that the client set, under
  -- the name of the user that sent it, for that pending action.
  pub admit-read :
      (old new out : Annotations) (p : Pending) (username : Text) (groups : List Text) (key : Text)
      → changed old new ≡ true
      → is_empty (value new.decision) ≡ false
      → codec.valid_utf8 username ≡ true
      → admit c codec old new p username groups key ≡ pass out
      → (d : Decision) × (read c codec out p key ≡ decided d)
        × (validate_fields codec new ≡ pass (d.label, d.edit))
        × (d.reason ≡ value new.reason)
        × (d.approver.username ≡ username)
        × (d.target ≡ p.id)
  unfolding validate_fields mac_of mac_message decision_sha256
  admit-read old new out p username groups key ch dec u h =
      let (pid, end) = admitted_new old new out p username groups key ch dec h in
      let (by, fields, made, valid, keyed, shape) = stamped new out p username groups key end in
      let (a, name, parsed, ne) = stamp-parse username groups by u made in
      let s : Annotations = record new {
        by = some by;
        target = some p.id;
        mac = some (mac_of c key p (record new { by = some by; target = some p.id }));
      } in
      rw shape (
        _,
        read-stamped s p key by a fields dec pid refl ne refl (verify_mac-own key p s keyed refl)
            parsed valid,
        valid,
        refl,
        name,
        refl,
      )
