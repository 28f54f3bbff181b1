-- ===== src/Tenancy/Isolation/Closed.antt =====
-- pkg/multitenancy/isolation.go: a tenant that was deactivated.
use agentic_operator_core.Base.{
  ℕ, false, none, some, [], ◌∷◌, ◌++◌, ◌≡◌, inl, inr, is_empty, refl, sym, ap, arith, Bool-cases,
}
use agentic_operator_core.Base.Text.{Text, text_eq, eq_of_text_eq}
use agentic_operator_core.Base.Strings.{has_prefix}
use agentic_operator_core.Tenancy.Isolation.{
  Tenant, Resolver, inactive, find_tenant, set_tenant, get_tenant, registered,
  extract_from_namespace, validate_tenant, deactivate_tenant, namespace_prefix, trim_prefix,
}

find-set :
    (r : Resolver) (name : Text) (t u : Tenant)
    → find_tenant r name ≡ some t
    → find_tenant (set_tenant r name u) name ≡ some u
unfolding find_tenant set_tenant
find-set [] name t u h = absurd (ground arith)
find-set ((n, x) ∷ r) name t u h = elim (Bool-cases (text_eq n name)) [
  | inl e ↦ ground arith
  | inr ne ↦ ground (arith, find-set r name t u (ground arith))
]

find-set_other :
    (r : Resolver) (name other : Text) (u : Tenant)
    → text_eq name other ≡ false
    → find_tenant (set_tenant r name u) other ≡ find_tenant r other
unfolding find_tenant set_tenant
find-set_other [] name other u h = refl
find-set_other ((n, x) ∷ r) name other u h = elim (Bool-cases (text_eq n name)) [
  | inr ne ↦ ground (arith, find-set_other r name other u h)
  | inl e ↦
      let same : n ≡ name = eq_of_text_eq n name e in ground (arith, ap (λ k. text_eq k other) same)
]

-- The tenant of the name is there and inactive, and the others are as before.
abbrev IsClosed : Resolver → Resolver → Text → Type 0
IsClosed r r' name =
    (t : Tenant) × (find_tenant r' name ≡ some t)
    × (t.is_active ≡ false)
    × ((other : Text) → text_eq name other ≡ false → find_tenant r' other ≡ find_tenant r other)

deactivate_tenant-IsClosed :
    (now : ℕ) (r r' : Resolver) (name : Text)
    → deactivate_tenant now r name ≡ inr r'
    → IsClosed r r' name
unfolding deactivate_tenant get_tenant
deactivate_tenant-IsClosed now r r' name h =
    elim (find_tenant r name) as (λ x. find_tenant r name ≡ x → IsClosed r r' name) [
      | none ↦ λ e. absurd (ground (arith, e, h))
      | some t ↦ λ e. elim (Bool-cases t.is_active) [
        | inr off ↦ absurd (ground (arith, e, off, h))
        | inl on ↦
            let u : Tenant = record t { is_active = false; updated_at = now } in
            let same : set_tenant r name u ≡ r' = ground (arith, e, on, h) in
            rw (sym same)
              (u, find-set r name t u e, refl, λ other d. find-set_other r name other u d)
      ]
    ]
      refl

extract-prefixed :
    (r : Resolver) (name : Text)
    → is_empty name ≡ false
    → extract_from_namespace r (namespace_prefix ++ name) ≡ registered r name
unfolding extract_from_namespace has_prefix trim_prefix
extract-prefixed r name h = ground (arith, h)

-- After a tenant was deactivated, it is refused as inactive wherever it is looked up, by its name, by its
-- namespace and for its license, and at any time; all other tenants are found as before.
pub deactivate_tenant-refused :
    (now : ℕ) (r r' : Resolver) (name : Text)
    → is_empty name ≡ false
    → deactivate_tenant now r name ≡ inr r'
    → (get_tenant r' name ≡ inl (inactive name))
      × (extract_from_namespace r' (namespace_prefix ++ name) ≡ inl (inactive name))
      × ((later : ℕ) → validate_tenant later r' name ≡ inl (inactive name))
      × ((other : Text) → text_eq name other ≡ false → get_tenant r' other ≡ get_tenant r other)
unfolding get_tenant registered validate_tenant
deactivate_tenant-refused now r r' name ne h =
    let (t, found, off, rest) = deactivate_tenant-IsClosed now r r' name h in
    let e = extract-prefixed r' name ne in
    (
      ground (arith, found, off),
      ground (arith, e, found, off),
      λ later. ground (arith, found, off),
      λ other d. rw (rest other d, get_tenant) refl,
    )
