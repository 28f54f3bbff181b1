-- ===== src/Approval/Admission.antt =====
-- The webhook's rules (`Admit`) and what the controller then reads (`Read`).
use agentic_operator_core.Base.{true, false, List, is_empty, ◌≡◌, ◌⊎◌, arith}
use agentic_operator_core.Base.Crypto.{Crypto}
use agentic_operator_core.Base.Text.{Text, text_eq_iff}
use agentic_operator_core.Approval.{
  decision_sha256, mac_message, some, Option, [], mac_of, pass, is_forged, differs, admit_new,
  Annotations, value, Pending, final, forged, fail, Codec, admit, changed,
}

module _ (c : Crypto) (codec : Codec) where
  -- Decisions are append-once: while the stored object holds a decision stamped for the pending
  -- action, every update that touches a key of the protocol is refused, whoever sends it.
  pub admit_once :
      (old new : Annotations) (p : Pending) (username : Text) (groups : List Text) (key : Text)
      → is_empty (value old.decision) ≡ false
      → is_empty p.id ≡ false
      → value old.target ≡ p.id
      → changed old new ≡ true
      → (admit c codec old new p username groups key ≡ fail forged)
        ⊎ (admit c codec old new p username groups key ≡ fail final)
  unfolding admit
  admit_once old new p username groups key d i t ch =
      ground (arith, text_eq_iff (value old.target) p.id)

  same_value : (old new : Option Text) → differs old new ≡ false → value new ≡ value old
  unfolding differs
  same_value old new h = ground (arith, text_eq_iff (value old) (value new))

  own_value :
      (old new : Option Text)
      → is_forged old new ≡ false
      → (value new ≡ []) ⊎ (value new ≡ value old)
  unfolding is_forged
  own_value old new h = ground (arith, text_eq_iff (value new) (value old))

  unchanged_mac :
      (old new : Annotations) → changed old new ≡ false → differs old.mac new.mac ≡ false
  unfolding changed
  unchanged_mac old new h = ground arith

  admit_new-mac :
      (new out : Annotations) (p : Pending) (username : Text) (groups : List Text) (key : Text)
      → admit_new c codec new p username groups key ≡ pass out
      → (out.mac ≡ some (mac_of c key p out)) × (out.target ≡ some p.id)
  unfolding admit_new mac_of mac_message decision_sha256
  admit_new-mac new out p username groups key h = ground arith

  -- A client cannot bring a MAC of its own: an admitted object carries none, the stored object's, or
  -- the one that the webhook computed with its key over the admitted fields and the pending action.
  pub admit-mac :
      (old new out : Annotations) (p : Pending) (username : Text) (groups : List Text) (key : Text)
      → admit c codec old new p username groups key ≡ pass out
      → (value out.mac ≡ [])
        ⊎ (value out.mac ≡ value old.mac)
        ⊎ (out.mac ≡ some (mac_of c key p out))
  unfolding admit
  admit-mac old new out p username groups key h = ground (
    arith,
    unchanged_mac old new,
    same_value old.mac new.mac,
    own_value old.mac new.mac,
    admit_new-mac new out p username groups key,
  )
