-- ===== src/Receipts/Binding.antt =====
-- pkg/receipts/record.go: what `InputHash` binds a record to.
use agentic_operator_core.Base.{◌≡◌, ◌≢◌, ◌⊎◌, refl, ap, inl, inr, false}
use agentic_operator_core.Base.Text.{Text}
use agentic_operator_core.Base.Json.{Json, strings_injective}
use agentic_operator_core.Base.Json.Equal.{json-dec}
use agentic_operator_core.Base.Try.{ok}
use agentic_operator_core.Input.{Input, Declared, Observed}
use agentic_operator_core.Receipts.{Codecs}
use agentic_operator_core.Receipts.Record.{
  input_hash, hash_hex, canon_input, canon_declared, canon_observed, canon_claimed, decimal_of,
}

-- What `InputHash` reads of an input, with the digest of the payload.
pub record IsSame (c : Codecs) (i : Input) (payload : Text) (j : Input) (payload' : Text)
    : Type 0 where
  pub payload_same : payload ≡ payload'
  pub declared_same : i.declared ≡ j.declared
  pub observed_same :
      record (i.observed) { scan_incomplete = false }
      ≡ record (j.observed) { scan_incomplete = false }
  pub intent_same : i.claimed.intent ≡ j.claimed.intent
  pub confidence_same : decimal_of c i.claimed.confidence ≡ decimal_of c j.claimed.confidence
  pub health_same : decimal_of c i.claimed.cluster_health ≡ decimal_of c j.claimed.cluster_health

-- Two JSON values with one digest.
abbrev pub JsonCollision : Codecs → Type 0
JsonCollision c =
    (j : Json) × (k : Json) × (h : Text) × (j ≢ k) × (hash_hex c j ≡ ok h) × (hash_hex c k ≡ ok h)

canon_declared_injective : (d e : Declared) → canon_declared d ≡ canon_declared e → d ≡ e
unfolding canon_declared
canon_declared_injective d e h =
    let a : d.purpose ≡ e.purpose = cc h in
    let b : d.decision_type ≡ e.decision_type = cc h in
    let x : d.allowed_data_classes ≡ e.allowed_data_classes = strings_injective _ _ (cc h) in
    let y : d.allowed_destinations ≡ e.allowed_destinations = strings_injective _ _ (cc h) in
    λ k. record {
      purpose = a k;
      decision_type = b k;
      allowed_data_classes = x k;
      allowed_destinations = y k;
    }

canon_observed_injective :
    (o q : Observed)
    → canon_observed o ≡ canon_observed q
    → record o { scan_incomplete = false } ≡ record q { scan_incomplete = false }
unfolding canon_observed
canon_observed_injective o q h =
    let a : o.destination ≡ q.destination = cc h in
    let b : o.data_classes ≡ q.data_classes = strings_injective _ _ (cc h) in
    let x : o.tool ≡ q.tool = cc h in
    let y : o.caller_identity ≡ q.caller_identity = cc h in
    let m : o.prior_action_count ≡ q.prior_action_count = cc h in
    let n : o.prior_denied_count ≡ q.prior_denied_count = cc h in
    λ k. record {
      destination = a k;
      data_classes = b k;
      tool = x k;
      caller_identity = y k;
      prior_action_count = m k;
      prior_denied_count = n k;
      scan_incomplete = false;
    }

canon_observed_same :
    (o q : Observed)
    → record o { scan_incomplete = false } ≡ record q { scan_incomplete = false }
    → canon_observed o ≡ canon_observed q
unfolding canon_observed
canon_observed_same o q h = ap canon_observed h

module _ (c : Codecs) where
  canon_input-IsSame :
      (i j : Input) (p q : Text) → canon_input c i p ≡ canon_input c j q → IsSame c i p j q
  unfolding canon_input canon_claimed
  canon_input-IsSame i j p q h = record {
    payload_same = cc h;
    declared_same = canon_declared_injective i.declared j.declared (cc h);
    observed_same = canon_observed_injective i.observed j.observed (cc h);
    intent_same = cc h;
    confidence_same = cc h;
    health_same = cc h;
  }

  IsSame-canon_input :
      (i j : Input) (p q : Text) → IsSame c i p j q → canon_input c i p ≡ canon_input c j q
  unfolding canon_input canon_claimed
  IsSame-canon_input i j p q s =
      rw
        (
          s.payload_same,
          s.declared_same,
          s.intent_same,
          s.confidence_same,
          s.health_same,
          canon_observed_same i.observed j.observed s.observed_same,
        )
        refl

  -- Two inputs, each with the digest of a payload, agree in the declared intent, in the observed facts,
  -- in the claims as decimals and in the payload's digest, whether or not the payload was scanned
  -- completely, exactly if they have one input hash, or else two JSON values have one digest.
  pub input_hash_iff :
      (i j : Input) (p q h : Text)
      → input_hash c i p ≡ ok h
      → (IsSame c i p j q → input_hash c j q ≡ ok h)
        × (input_hash c j q ≡ ok h → IsSame c i p j q ⊎ JsonCollision c)
  unfolding input_hash
  input_hash_iff i j p q h e = (
    λ s. rw (← IsSame-canon_input i j p q s) e,
    λ f. elim (json-dec (canon_input c i p) (canon_input c j q)) [
      | inl g ↦ inl (canon_input-IsSame i j p q g)
      | inr n ↦ inr (canon_input c i p, canon_input c j q, h, n, e, f)
    ],
  )
