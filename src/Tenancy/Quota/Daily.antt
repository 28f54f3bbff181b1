-- ===== src/Tenancy/Quota/Daily.antt =====
-- pkg/multitenancy/quota.go: what a tenant can consume in a day.
use agentic_operator_core.Base.{
  ap, ◌∙◌, sym, Bool, ℕ, ◌+◌, ◌==◌, some, List, [], ◌∷◌, ◌≡◌, refl, arith, true, false, Bool-cases,
  inl, inr, if◌then◌else◌,
}
use agentic_operator_core.Base.Int.{ℤ, leb_ℤ, pos, ◌≤ℤ◌, max_int64}
use agentic_operator_core.Base.Float.{Float64, FloatOps, fgt}
use agentic_operator_core.Base.Text.{Text, eq_of_text_eq, text_eq}
use agentic_operator_core.Tenancy.{
  Date, QuotaTracker, QuotaManager, QuotaReply, granted, find_tracker, start_day, consume,
  check_and_consume,
}
use agentic_operator_core.Tenancy.Quota.{
  check_and_consume-today, check_and_consume-own, check_and_consume-other,
}

-- The workloads that a tracker counts on a date.
abbrev pub used_on : Date → QuotaTracker → ℤ
used_on today t = if today.year_day == t.last_reset_date.year_day then t.workloads_used else pos 0

-- The tracker counts so many workloads, and for this date.
abbrev OnDay : Date → ℕ → QuotaTracker → Type 0
OnDay today n t =
    ((today.year_day == t.last_reset_date.year_day) ≡ true) × (t.workloads_used ≡ pos n)

abbrev one_if : QuotaReply → ℕ
one_if granted = 1
one_if _ = 0

module _ (ops : FloatOps) where
  -- The tracker of the day, and one call on it: it counts exactly if it is granted.
  start_day-OnDay :
      (today : Date) (n : ℕ) (t : QuotaTracker)
      → used_on today t ≡ pos n
      → OnDay today n (start_day today t)
  unfolding start_day
  start_day-OnDay today n t u = elim (Bool-cases (today.year_day == t.last_reset_date.year_day)) [
    | inl e ↦ (ground (arith, e), ground (arith, e, u))
    | inr e ↦ (ground (arith, e), ground (arith, e, u))
  ]

  start_day-tenant : (today : Date) (t : QuotaTracker) → (start_day today t).tenant ≡ t.tenant
  unfolding start_day
  start_day-tenant today t = ground arith

  consume-tenant : (t : QuotaTracker) (cost : Float64) → (consume ops t cost).1.tenant ≡ t.tenant
  unfolding consume
  consume-tenant t cost = ground arith

  consume-OnDay :
      (today : Date) (n : ℕ) (t : QuotaTracker) (cost : Float64)
      → OnDay today n t
      → pos n ≤ℤ t.tenant.quota_per_day
      → t.tenant.quota_per_day ≤ℤ pos max_int64
      → OnDay today (one_if (consume ops t cost).0 + n) (consume ops t cost).1
        × (pos (one_if (consume ops t cost).0 + n) ≤ℤ t.tenant.quota_per_day)
  unfolding consume
  consume-OnDay today n t cost (d, u) q m =
      elim (Bool-cases (leb_ℤ t.tenant.quota_per_day t.workloads_used)) [
        | inl full ↦ ((ground (arith, full, d), ground (arith, full, u)), ground (arith, full, q))
        | inr room ↦ elim (Bool-cases (fgt (ops.add t.cost_used cost) t.tenant.cost_budget_usd)) [
          | inl over ↦ (
            (ground (arith, room, over, d), ground (arith, room, over, u)),
            ground (arith, room, over, q),
          )
          | inr under ↦ (
            (ground (arith, room, under, d), ground (arith, room, under, u, m, q)),
            ground (arith, room, under, u, q),
          )
        ]
      ]

  -- Calls on one date, of any tenants: how many were granted to the tenant `name`, and the manager after
  -- them.
  abbrev pub run_day : Date → Text → QuotaManager → List (Text × Float64) → ℕ × QuotaManager
  run_day today name qm [] = (0, qm)
  run_day today name qm ((who, cost) ∷ l) =
      let (reply, qm') = check_and_consume ops qm today who cost in
      let (n, end) = run_day today name qm' l in
      (if text_eq who name then one_if reply + n else n, end)

  -- The result of a run of a tenant with so many uses before.
  abbrev pub IsBounded : Date → Text → ℤ → ℕ → ℕ × QuotaManager → Type 0
  IsBounded today name quota n end =
      (u : QuotaTracker) × (find_tracker end.1 name ≡ some u)
      × (used_on today u ≡ pos (n + end.0))
      × (pos (n + end.0) ≤ℤ quota)

  used_on-OnDay :
      (today : Date) (n : ℕ) (t : QuotaTracker) → OnDay today n t → used_on today t ≡ pos n
  used_on-OnDay today n t (d, u) = ground (arith, d, u)

  counted : (n m k : ℕ) (b : Bool) → b ≡ true → (m + n) + k ≡ n + (if b then m + k else k)
  counted n m k b e = rw e (omega arith)

  uncounted : (n m k : ℕ) (b : Bool) → b ≡ false → n + k ≡ n + (if b then m + k else k)
  uncounted n m k b e = rw e refl

  recount :
      (today : Date) (name : Text) (p q : ℤ) (m n j k : ℕ) (qm : QuotaManager)
      → p ≡ q
      → m + j ≡ n + k
      → IsBounded today name p m (j, qm)
      → IsBounded today name q n (k, qm)
  recount today name p q m n j k qm e c (x, f, used, bound) =
      (x, f, used ∙ ap pos c, rw (sym e, sym c) bound)

  -- If what a tenant has used on a date is within its quota, an int64, then on that date at most
  -- `quota_per_day` calls of CheckAndConsume for it are granted, counted with those uses, whatever calls
  -- for other tenants come between them and whatever they cost: at the end the tracker counts for the
  -- date exactly the uses before and the grants of the run, and they are within the quota. Uses count
  -- for the day of the year of the last reset only.
  pub run_day-IsBounded :
      (today : Date) (name : Text) (l : List (Text × Float64)) (qm : QuotaManager) (n : ℕ)
      (t : QuotaTracker)
      → find_tracker qm name ≡ some t
      → used_on today t ≡ pos n
      → pos n ≤ℤ t.tenant.quota_per_day
      → t.tenant.quota_per_day ≤ℤ pos max_int64
      → IsBounded today name t.tenant.quota_per_day n (run_day today name qm l)
  run_day-IsBounded today name [] qm n t h u q m =
      (t, h, u ∙ ap pos (omega arith), ground (arith, q))
  run_day-IsBounded today name ((who, cost) ∷ l) qm n t h u q m =
      let next = (check_and_consume ops qm today who cost).1 in
      let v = start_day today t in
      let v' = (consume ops v cost).1 in
      let used = one_if (consume ops v cost).0 in
      elim (Bool-cases (text_eq who name)) [
        | inr other ↦
            recount today name _ _ n n _ _ _ refl
              (uncounted n (one_if (check_and_consume ops qm today who cost).0)
                (run_day today name next l).0 (text_eq who name) other)
              (run_day-IsBounded today name l next n t
                (check_and_consume-other ops qm who cost today name other ∙ h) u q m)
        | inl own ↦
            let same = eq_of_text_eq who name own in
            let tenant = consume-tenant v cost ∙ start_day-tenant today t in
            let (day, room) =
              consume-OnDay today n v cost (start_day-OnDay today n t u)
                (rw (start_day-tenant today t) q) (rw (start_day-tenant today t) m) in
            let found =
              ap (λ k. find_tracker (check_and_consume ops qm today k cost).1 name) same
              ∙ check_and_consume-own ops qm name cost today t h in
            let reply =
              ap (λ k. one_if (check_and_consume ops qm today k cost).0) same
              ∙ ap (λ y. one_if y.0) (check_and_consume-today ops qm name cost today t h) in
            recount today name _ _ (used + n) n _ _ _ (ap (λ y. y.quota_per_day) tenant)
              (ap (λ y. y + n + (run_day today name next l).0) (sym reply)
                ∙ counted n (one_if (check_and_consume ops qm today who cost).0)
                    (run_day today name next l).0 (text_eq who name) own)
              (run_day-IsBounded today name l next (used + n) v' found
                (used_on-OnDay today (used + n) v' day) (rw (consume-tenant v cost) room)
                (rw (consume-tenant v cost, start_day-tenant today t) m))
      ]
