-- ===== src/Webhook/Accepted.antt =====
-- api/v1alpha1/agentworkload_webhook.go: which specs `validate` accepts.
use agentic_operator_core.Base.{
  Bool, true, false, not, ◌&&◌, ◌||◌, Option, none, some, List, [], ◌∷◌, ◌++◌, ◌≡◌, ◌↔◌, refl,
  is_empty, ltb, All, arith, if◌then◌else◌, ap,
}
use agentic_operator_core.Base.Int.{ℤ, pos, ltb_ℤ}
use agentic_operator_core.Base.Float.{Float64, rank, zero_rank, flt, fgt}
use agentic_operator_core.Base.Text.{Text, txt, text_eq, eq_of_text_eq}
use agentic_operator_core.Base.Strings.{elem}
use agentic_operator_core.Base.Try.{Try, ok, err}
use agentic_operator_core.Webhook.{
  WorkloadSpec, ModelSettings, WebhookOutside, validate, unless, type_errors, endpoint_errors,
  url_errors, number_errors, objective_errors, threshold_errors, policy_errors, pack_errors,
  micro_errors, model_errors, workload_types, opa_policies, model_modes, known_packs, one,
}

pub append_empty : (a b : List Text) → (a ++ b ≡ []) ↔ ((a ≡ []) × (b ≡ []))
append_empty [] b = (λ h. (refl, h), λ h. h.1)
append_empty (x ∷ a) b = (λ h. absurd (cc h), λ h. absurd (cc h.0))

pub unless_empty : (b : Bool) (m : Text) → (unless b m ≡ []) ↔ (b ≡ true)
unless_empty true m = (λ h. refl, λ h. refl)
unless_empty false m = (λ h. absurd (cc h), λ h. absurd (cc h))

pub refuse_empty :
    (b : Bool) (x : Text) (t : List Text)
    → ((if b then x ∷ [] else t) ≡ []) ↔ ((b ≡ false) × (t ≡ []))
refuse_empty true x t = (λ h. absurd (cc h), λ h. absurd (cc h.0))
refuse_empty false x t = (λ h. (refl, h), λ h. h.1)

-- A condition on a field that may be left out.
abbrev pub IfGiven : (Text → Type 0) → Option Text → Type 0
IfGiven P none = Unit
IfGiven P (some t) = P t

-- A URL of scheme https with a host.
pub record IsSecure (out : WebhookOutside) (e : Text) : Type 0 where
  pub host : Text
  pub given : is_empty e ≡ false
  pub parsed : out.parse_url e ≡ ok (txt "https", host)
  pub hosted : is_empty host ≡ false

-- A number from 0 to 1 in the format of a threshold.
pub record IsThreshold (out : WebhookOutside) (s : Text) : Type 0 where
  pub value : Float64
  pub given : is_empty s ≡ false
  pub parsed : out.parse_float s ≡ some value
  pub within : (flt value (rank zero_rank) || fgt value one) ≡ false
  pub formatted : out.matches_threshold s ≡ true

module _ (out : WebhookOutside) where
  url_empty :
      (x : Try (Text × Text))
      → url_errors out x ≡ []
      → (host : Text) × (x ≡ ok (txt "https", host)) × (is_empty host ≡ false)
  unfolding url_errors
  url_empty (err m) h = absurd (cc h)
  url_empty (ok (scheme, host)) h =
      let (a, b) = (refuse_empty (not (text_eq scheme (txt "https"))) _ _).0 h in
      let same : scheme ≡ txt "https" = eq_of_text_eq scheme (txt "https") (ground (arith, a)) in
      (host, ap (λ x. ok (x, host)) same, ground (arith, (unless_empty _ _).0 b))

  url_good :
      (x : Try (Text × Text)) (host : Text)
      → x ≡ ok (txt "https", host)
      → is_empty host ≡ false
      → url_errors out x ≡ []
  unfolding url_errors text_eq
  url_good x host e h = rw (e, h) refl

  endpoint_iff : (e : Option Text) → (endpoint_errors out e ≡ []) ↔ IfGiven (IsSecure out) e
  unfolding endpoint_errors
  endpoint_iff none = (λ h. tt, λ h. refl)
  endpoint_iff (some e) = (
    λ h.
        let (a, b) = (refuse_empty (is_empty e) _ _).0 h in
        let (host, p, q) = url_empty (out.parse_url e) b in
        record { host = host; given = a; parsed = p; hosted = q },
    λ s. (refuse_empty (is_empty e) _ _).1 (s.given, url_good _ s.host s.parsed s.hosted),
  )

  number_empty :
      (s : Text) (x : Option Float64)
      → number_errors out s x ≡ []
      → (v : Float64) × (x ≡ some v)
        × ((flt v (rank zero_rank) || fgt v one) ≡ false)
        × (out.matches_threshold s ≡ true)
  unfolding number_errors
  number_empty s none h = absurd (cc h)
  number_empty s (some v) h =
      let (a, b) = (refuse_empty (flt v (rank zero_rank) || fgt v one) _ _).0 h in
      (v, refl, a, (unless_empty _ _).0 b)

  number_good :
      (s : Text) (x : Option Float64) (v : Float64)
      → x ≡ some v
      → (flt v (rank zero_rank) || fgt v one) ≡ false
      → out.matches_threshold s ≡ true
      → number_errors out s x ≡ []
  unfolding number_errors
  number_good s x v e a b =
      rw e ((refuse_empty (flt v (rank zero_rank) || fgt v one) _ _).1 (a, (unless_empty _ _).1 b))

  threshold_errors_iff :
      (s : Option Text) → (threshold_errors out s ≡ []) ↔ IfGiven (IsThreshold out) s
  unfolding threshold_errors
  threshold_errors_iff none = (λ h. tt, λ h. refl)
  threshold_errors_iff (some s) = (
    λ h.
        let (a, b) = (refuse_empty (is_empty s) _ _).0 h in
        let (v, p, q, m) = number_empty s (out.parse_float s) b in
        record { value = v; given = a; parsed = p; within = q; formatted = m },
    λ t.
        (refuse_empty (is_empty s) _ _).1
          (t.given, number_good s _ t.value t.parsed t.within t.formatted),
  )

  pack_iff : (l : List Text) → (pack_errors out l ≡ []) ↔ All (λ p. elem p known_packs ≡ true) l
  unfolding pack_errors
  pack_iff [] = (λ h. tt, λ h. refl)
  pack_iff (p ∷ l) = (
    λ h. let (a, b) = (append_empty _ _).0 h in ((unless_empty _ _).0 a, (pack_iff l).0 b),
    λ h. (append_empty _ _).1 ((unless_empty _ _).1 h.0, (pack_iff l).1 h.1),
  )

  type_iff :
      (t : Option Text) → (type_errors out t ≡ []) ↔ IfGiven (λ x. elem x workload_types ≡ true) t
  unfolding type_errors
  type_iff none = (λ h. tt, λ h. refl)
  type_iff (some t) = unless_empty _ _

  policy_iff :
      (p : Option Text) → (policy_errors out p ≡ []) ↔ IfGiven (λ x. elem x opa_policies ≡ true) p
  unfolding policy_errors
  policy_iff none = (λ h. tt, λ h. refl)
  policy_iff (some p) = unless_empty _ _

  unfoldable pub IsObjective : Text → Type 0
  IsObjective o = (not (is_empty o) ≡ true) × (not (ltb 32768 (out.rune_count o)) ≡ true)

  objective_errors_iff : (o : Option Text) → (objective_errors out o ≡ []) ↔ IfGiven IsObjective o
  unfolding objective_errors IsObjective
  objective_errors_iff none = (λ h. tt, λ h. refl)
  objective_errors_iff (some o) = (
    λ h. let (a, b) = (append_empty _ _).0 h in ((unless_empty _ _).0 a, (unless_empty _ _).0 b),
    λ h. (append_empty _ _).1 ((unless_empty _ _).1 h.0, (unless_empty _ _).1 h.1),
  )

  -- In range, and no looser than the threshold of the artifact where that is known.
  unfoldable pub IsMicro : ℤ → Option ℤ → Type 0
  IsMicro art none = Unit
  IsMicro art (some t) =
      ((ltb_ℤ t (pos 0) || ltb_ℤ (pos 1000000) t) ≡ false)
      × (not (ltb_ℤ (pos 0) art && ltb_ℤ art t) ≡ true)

  micro_errors_iff : (art : ℤ) (t : Option ℤ) → (micro_errors out art t ≡ []) ↔ IsMicro art t
  unfolding micro_errors IsMicro
  micro_errors_iff art none = (λ h. tt, λ h. refl)
  micro_errors_iff art (some t) = (
    λ h.
        let (a, b) = (refuse_empty (ltb_ℤ t (pos 0) || ltb_ℤ (pos 1000000) t) _ _).0 h in
        (a, (unless_empty _ _).0 b),
    λ h.
        (refuse_empty (ltb_ℤ t (pos 0) || ltb_ℤ (pos 1000000) t) _ _).1
          (h.0, (unless_empty _ _).1 h.1),
  )

  unfoldable pub IsModel : ℤ → Option ModelSettings → Type 0
  IsModel art none = Unit
  IsModel art (some m) = (elem m.mode model_modes ≡ true) × IsMicro art m.threshold_micro

  model_errors_iff :
      (art : ℤ) (m : Option ModelSettings) → (model_errors out art m ≡ []) ↔ IsModel art m
  unfolding model_errors IsModel
  model_errors_iff art none = (λ h. tt, λ h. refl)
  model_errors_iff art (some m) = (
    λ h.
        let (a, b) = (append_empty _ _).0 h in
        ((unless_empty _ _).0 a, (micro_errors_iff art _).0 b),
    λ h. (append_empty _ _).1 ((unless_empty _ _).1 h.0, (micro_errors_iff art _).1 h.1),
  )

  -- What the webhook demands of a spec.
  pub record IsAcceptable (art : ℤ) (s : WorkloadSpec) : Type 0 where
    pub workload_type : IfGiven (λ x. elem x workload_types ≡ true) s.workload_type
    pub endpoint : IfGiven (IsSecure out) s.mcp_server_endpoint
    pub objective : IfGiven IsObjective s.objective
    pub agents : not (is_empty s.agents) ≡ true
    pub threshold : IfGiven (IsThreshold out) s.auto_approve_threshold
    pub policy : IfGiven (λ x. elem x opa_policies ≡ true) s.opa_policy
    pub packs : All (λ p. elem p known_packs ≡ true) s.policy_packs
    pub model : IsModel art s.decision_model

  -- The webhook accepts exactly the specs whose fields, as far as they are given, are in order: a known
  -- type, an endpoint of scheme https with a host, an objective of 1 to 32768 characters, some agent, a
  -- threshold from 0 to 1 in its format, a known policy, known packs, and a model whose mode is known and
  -- whose threshold is in range and no looser than the artifact's.
  pub validate_iff : (art : ℤ) (s : WorkloadSpec) → (validate out art s ≡ []) ↔ IsAcceptable art s
  unfolding validate
  validate_iff art s = (
    λ h.
        let (a, h1) = (append_empty _ _).0 h in
        let (b, h2) = (append_empty _ _).0 h1 in
        let (c, h3) = (append_empty _ _).0 h2 in
        let (d, h4) = (append_empty _ _).0 h3 in
        let (e, h5) = (append_empty _ _).0 h4 in
        let (f, h6) = (append_empty _ _).0 h5 in
        let (g, m) = (append_empty _ _).0 h6 in
        record {
          workload_type = (type_iff _).0 a;
          endpoint = (endpoint_iff _).0 b;
          objective = (objective_errors_iff _).0 c;
          agents = (unless_empty _ _).0 d;
          threshold = (threshold_errors_iff _).0 e;
          policy = (policy_iff _).0 f;
          packs = (pack_iff _).0 g;
          model = (model_errors_iff art _).0 m;
        },
    λ h. (append_empty _ _).1 (
      (type_iff _).1 h.workload_type,
      (append_empty _ _).1 (
        (endpoint_iff _).1 h.endpoint,
        (append_empty _ _).1 (
          (objective_errors_iff _).1 h.objective,
          (append_empty _ _).1 (
            (unless_empty _ _).1 h.agents,
            (append_empty _ _).1 (
              (threshold_errors_iff _).1 h.threshold,
              (append_empty _ _).1 (
                (policy_iff _).1 h.policy,
                (append_empty _ _).1 ((pack_iff _).1 h.packs, (model_errors_iff art _).1 h.model),
              ),
            ),
          ),
        ),
      ),
    ),
  )
