-- ===== src/Tenancy/Isolation.antt =====
-- pkg/multitenancy/isolation.go: the tenants and their namespaces. The clock is an argument, and times are
-- numbers.
pub mod Closed
use agentic_operator_core.Base.{
  ℕ, Bool, true, false, not, ltb, Option, none, some, List, [], ◌∷◌, is_empty, if◌then◌else◌, ◌⊎◌,
  inl, inr,
}
use agentic_operator_core.Base.Text.{Text, txt, text_eq}
use agentic_operator_core.Base.Strings.{has_prefix}

-- The fields of `TenantContext` that the resolver reads; a license is the time at which it expires.
pub record Tenant : Type 0 where
  pub name : Text
  pub namespace : Text
  pub license : Option ℕ
  pub updated_at : ℕ
  pub is_active : Bool

-- `tenants`: each name has one tenant.
abbrev pub Resolver : Type 0
Resolver = List (Text × Tenant)

pub data TenantError : Type 0 where
  name_required namespace_required license_required not_found no_license : TenantError
  not_registered inactive : Text → TenantError
  expired : ℕ → TenantError

unfoldable pub find_tenant : Resolver → Text → Option Tenant
find_tenant [] name = none
find_tenant ((n, t) ∷ r) name =
    let rest = find_tenant r name in if text_eq n name then some t else rest

-- A tenant takes the place of the one of its name.
unfoldable pub set_tenant : Resolver → Text → Tenant → Resolver
set_tenant [] name t = []
set_tenant ((n, u) ∷ r) name t =
    let rest = set_tenant r name t in if text_eq n name then (n, t) ∷ r else (n, u) ∷ rest

unfoldable pub put_tenant : Resolver → Text → Tenant → Resolver
put_tenant r name t = elim (find_tenant r name) [
  | none ↦ (name, t) ∷ r
  | some u ↦ set_tenant r name t
]

abbrev pub new_resolver : Resolver
new_resolver = []

-- `RegisterTenant`, of a tenant that is not nil.
unfoldable pub register_tenant : Resolver → Tenant → TenantError ⊎ Resolver
register_tenant r t =
    if is_empty t.name
    then inl name_required
    else if is_empty t.namespace
    then inl namespace_required
    else elim t.license [ none ↦ inl license_required | some at ↦ inr (put_tenant r t.name t) ]

unfoldable pub get_tenant : Resolver → Text → TenantError ⊎ Tenant
get_tenant r name = elim (find_tenant r name) [
  | none ↦ inl not_found
  | some t ↦ if not t.is_active then inl (inactive name) else inr t
]

abbrev pub namespace_prefix : Text
namespace_prefix = txt "agentic-customer-"

-- `strings.TrimPrefix`
unfoldable pub trim_prefix : Text → Text → Text
trim_prefix [] s = s
trim_prefix (c ∷ p) [] = []
trim_prefix (c ∷ p) (d ∷ s) = trim_prefix p s

-- `ExtractFromNamespace`, from the name on.
unfoldable pub registered : Resolver → Text → TenantError ⊎ Option Tenant
registered r name = elim (find_tenant r name) [
  | none ↦ inl (not_registered name)
  | some t ↦ if not t.is_active then inl (inactive name) else inr (some t)
]

-- `none` is a namespace of no customer.
unfoldable pub extract_from_namespace : Resolver → Text → TenantError ⊎ Option Tenant
extract_from_namespace r ns =
    if not (has_prefix ns namespace_prefix)
    then inr none
    else let name = trim_prefix namespace_prefix ns in
      if is_empty name then inl not_found else registered r name

-- `ValidateTenant`; the result is the license that is valid.
unfoldable pub validate_tenant : ℕ → Resolver → Text → TenantError ⊎ ℕ
validate_tenant now r name = elim (get_tenant r name) [
  | inl e ↦ inl e
  | inr t ↦ elim t.license [
    | none ↦ inl no_license
    | some at ↦ if ltb at now then inl (expired at) else inr at
  ]
]

-- `ListTenants`; the order of a map is any.
unfoldable pub list_tenants : Resolver → List Tenant
list_tenants [] = []
list_tenants ((n, t) ∷ r) = let rest = list_tenants r in if t.is_active then t ∷ rest else rest

unfoldable pub deactivate_tenant : ℕ → Resolver → Text → TenantError ⊎ Resolver
deactivate_tenant now r name = elim (get_tenant r name) [
  | inl e ↦ inl e
  | inr t ↦ inr (set_tenant r name (record t { is_active = false; updated_at = now }))
]
