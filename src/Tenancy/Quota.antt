-- ===== src/Tenancy/Quota.antt =====
-- pkg/multitenancy/quota.go: when a tenant can consume.
pub mod Daily
use agentic_operator_core.Base.{
  ap, ◌∙◌, sym, Bool, ℕ, suc, ◌+◌, ◌==◌, none, some, List, [], ◌∷◌, ◌≡◌, ◌≢◌, ◌↔◌, refl, arith,
  true, false, Bool-cases, inl, inr, if◌then◌else◌,
}
use agentic_operator_core.Base.Int.{ℤ, leb_ℤ, incr, pos, ◌≤ℤ◌, ◌<ℤ◌, max_int64}
use agentic_operator_core.Base.Float.{Float64, FloatOps, fgt}
use agentic_operator_core.Base.Text.{Text, eq_of_text_eq, text_eq}
use agentic_operator_core.Tenancy.{
  Date, QuotaTracker, QuotaManager, QuotaReply, granted, panicked, tenant_not_found, find_tracker,
  set_tracker, start_day, maybe_reset, consume, consume_of, check_and_consume,
}

find-set :
    (qm : QuotaManager) (name : Text) (t u : QuotaTracker)
    → find_tracker qm name ≡ some t
    → find_tracker (set_tracker qm name u) name ≡ some u
unfolding find_tracker set_tracker
find-set [] name t u h = absurd (ground arith)
find-set ((n, x) ∷ qm) name t u h = elim (Bool-cases (text_eq n name)) [
  | inl e ↦ ground arith
  | inr ne ↦ ground (arith, find-set qm name t u (ground arith))
]

find-set_other :
    (qm : QuotaManager) (name other : Text) (u : QuotaTracker)
    → text_eq name other ≡ false
    → find_tracker (set_tracker qm name u) other ≡ find_tracker qm other
unfolding find_tracker set_tracker
find-set_other [] name other u h = refl
find-set_other ((n, x) ∷ qm) name other u h = elim (Bool-cases (text_eq n name)) [
  | inr ne ↦ ground (arith, find-set_other qm name other u h)
  | inl e ↦
      let same : n ≡ name = eq_of_text_eq n name e in ground (arith, ap (λ k. text_eq k other) same)
]

module _ (today : Date) (qm : QuotaManager) (name : Text) where
  maybe_reset-known :
      (t : QuotaTracker)
      → find_tracker qm name ≡ some t
      → maybe_reset qm today name ≡ some (set_tracker qm name (start_day today t))
  unfolding maybe_reset
  maybe_reset-known t h = rw (h, maybe_reset) refl

  maybe_reset-unknown : find_tracker qm name ≡ none → maybe_reset qm today name ≡ none
  unfolding maybe_reset
  maybe_reset-unknown h = rw (h, maybe_reset) refl

consume_of-known :
    (ops : FloatOps) (qm : QuotaManager) (name : Text) (cost : Float64) (t : QuotaTracker)
    → find_tracker qm name ≡ some t
    → consume_of ops qm name cost
      ≡ ((consume ops t cost).0, set_tracker qm name (consume ops t cost).1)
unfolding consume_of
consume_of-known ops qm name cost t h = rw (h, consume_of) refl

module _ (ops : FloatOps) (qm : QuotaManager) (name : Text) (cost : Float64) where
  -- `CheckAndConsume` of a known tenant is `consume` on the tracker of the day.
  check_and_consume-known :
      (today : Date) (t : QuotaTracker)
      → find_tracker qm name ≡ some t
      → check_and_consume ops qm today name cost
        ≡ consume_of ops (set_tracker qm name (start_day today t)) name cost
  unfolding check_and_consume
  check_and_consume-known today t h =
      rw (maybe_reset-known today qm name t h, check_and_consume) refl

  check_and_consume-unknown :
      (today : Date)
      → find_tracker qm name ≡ none
      → check_and_consume ops qm today name cost ≡ (panicked, qm)
  unfolding check_and_consume
  check_and_consume-unknown today h =
      rw (maybe_reset-unknown today qm name h, check_and_consume) refl

  -- Both steps on the tracker of the day.
  pub check_and_consume-today :
      (today : Date) (t : QuotaTracker)
      → find_tracker qm name ≡ some t
      → check_and_consume ops qm today name cost ≡ (
        (consume ops (start_day today t) cost).0,
        set_tracker
            (set_tracker qm name (start_day today t))
            name
            (consume ops (start_day today t) cost).1,
      )
  check_and_consume-today today t h =
      check_and_consume-known today t h
      ∙ consume_of-known ops (set_tracker qm name (start_day today t)) name cost (start_day today t)
          (find-set qm name t (start_day today t) h)

  pub check_and_consume-own :
      (today : Date) (t : QuotaTracker)
      → find_tracker qm name ≡ some t
      → find_tracker (check_and_consume ops qm today name cost).1 name
        ≡ some (consume ops (start_day today t) cost).1
  check_and_consume-own today t h =
      ap (λ x. find_tracker x.1 name) (check_and_consume-today today t h)
      ∙ find-set (set_tracker qm name (start_day today t)) name (start_day today t) _
          (find-set qm name t (start_day today t) h)

  -- No other tenant is touched.
  pub check_and_consume-other :
      (today : Date) (other : Text)
      → text_eq name other ≡ false
      → find_tracker (check_and_consume ops qm today name cost).1 other ≡ find_tracker qm other
  check_and_consume-other today other ne =
      elim (find_tracker qm name)
          as (λ x.
            find_tracker qm name ≡ x
            → find_tracker (check_and_consume ops qm today name cost).1 other
              ≡ find_tracker qm other) [
                | none ↦ λ h. ap (λ x. find_tracker x.1 other) (check_and_consume-unknown today h)
                | some t ↦ λ h.
                    ap (λ x. find_tracker x.1 other) (check_and_consume-today today t h)
                    ∙ find-set_other (set_tracker qm name (start_day today t)) name other _ ne
                    ∙ find-set_other qm name other (start_day today t) ne
              ]
        refl

module _ (ops : FloatOps) where
  consume-reply :
      (t : QuotaTracker) (cost : Float64)
      → ((consume ops t cost).0 ≢ tenant_not_found) × ((consume ops t cost).0 ≢ panicked)
  unfolding consume
  consume-reply t cost = ground arith

  -- `CheckAndConsume` of a known tenant is granted exactly when its cost does not pass the budget and the
  -- quota has room: on the day of the year of the last reset, what is used is below the quota, and on any
  -- other, whatever was used, the quota is above 0. A grant adds the cost to the sum so far, which no new
  -- day clears; and no call touches another tenant.
  pub check_and_consume-granted_iff :
      (qm : QuotaManager) (today : Date) (name : Text) (cost : Float64) (t : QuotaTracker)
      → find_tracker qm name ≡ some t
      → (today.year_day ≡ t.last_reset_date.year_day
          → ((check_and_consume ops qm today name cost).0 ≡ granted) ↔ (
              (t.workloads_used <ℤ t.tenant.quota_per_day)
              × (fgt (ops.add t.cost_used cost) t.tenant.cost_budget_usd ≡ false)))
        × (today.year_day ≢ t.last_reset_date.year_day
            → ((check_and_consume ops qm today name cost).0 ≡ granted) ↔ (
                (pos 0 <ℤ t.tenant.quota_per_day)
                × (fgt (ops.add t.cost_used cost) t.tenant.cost_budget_usd ≡ false)))
        × ((check_and_consume ops qm today name cost).0 ≡ granted
            → (u : QuotaTracker) × (find_tracker (check_and_consume ops qm today name cost).1 name
                ≡ some u)
              × (u.cost_used ≡ ops.add t.cost_used cost))
        × ((other : Text)
            → text_eq name other ≡ false
            → find_tracker (check_and_consume ops qm today name cost).1 other
              ≡ find_tracker qm other)
  unfolding consume start_day
  check_and_consume-granted_iff qm today name cost t h =
      let reply = ap (λ x. x.0) (check_and_consume-today ops qm name cost today t h) in
      (
        λ same. (λ e. ground (arith, reply, same), λ e. ground (arith, reply, same)),
        λ new. (λ e. ground (arith, reply, new), λ e. ground (arith, reply, new)),
        λ e. (_, check_and_consume-own ops qm name cost today t h, ground (arith, reply, e)),
        λ other ne. check_and_consume-other ops qm name cost today other ne,
      )

  -- `CheckAndConsume` never returns ErrTenantNotFound, and panics exactly for a tenant that it does not know.
  pub check_and_consume-panicked :
      (qm : QuotaManager) (today : Date) (name : Text) (cost : Float64)
      → ((check_and_consume ops qm today name cost).0 ≢ tenant_not_found)
        × (((check_and_consume ops qm today name cost).0 ≡ panicked)
            ↔ (find_tracker qm name ≡ none))
  check_and_consume-panicked qm today name cost =
      elim (find_tracker qm name)
          as (λ x.
            find_tracker qm name ≡ x
            → ((check_and_consume ops qm today name cost).0 ≢ tenant_not_found)
              × (((check_and_consume ops qm today name cost).0 ≡ panicked)
                  ↔ (find_tracker qm name ≡ none))) [
                    | none ↦ λ h.
                        let e =
                          ap (λ x. x.0) (check_and_consume-unknown ops qm name cost today h) in
                        ground (arith, e, h)
                    | some t ↦ λ h.
                        let e =
                          ap (λ x. x.0) (check_and_consume-today ops qm name cost today t h) in
                        let r = consume-reply (start_day today t) cost in ground (arith, e, h, r)
                  ]
        refl
