-- ===== src/Tenancy/Registry/Consistent.antt =====
-- The two dictionaries of the registry agree.
use peka_saas.Common.{ℕ, ◌≡◌, true, some, arith, inl, inr, Option-cases}
use peka_saas.Tenancy.Registry.{
  TenantDefinition, TenantRegistry, is_text, add, remove, remove_by_slug,
}

-- What a host resolves to has that host, and is what its slug resolves to.
abbrev pub IsConsistent : (ℕ → ℕ) → TenantRegistry → Type 0
IsConsistent lower r =
    (h : ℕ) (t : TenantDefinition)
    → r.by_host h ≡ some t
    → (is_text t.hostname ≡ true) × (lower t.hostname ≡ h) × (r.by_slug (lower t.slug) ≡ some t)

module _ (lower : ℕ → ℕ) (r : TenantRegistry) (ok : IsConsistent lower r) where
  pub add-IsConsistent : (t : TenantDefinition) → IsConsistent lower (add lower t r)
  unfolding add
  add-IsConsistent t h u e = elim (Option-cases (r.by_slug (lower t.slug))) [
    | inl e' ↦ ground (arith, ok h u)
    | inr (old, e') ↦ ground (arith, ok h u)
  ]

  pub remove-IsConsistent : (host : ℕ) → IsConsistent lower (remove lower host r)
  unfolding remove
  remove-IsConsistent host h u e = elim (Option-cases (r.by_host (lower host))) [
    | inl e' ↦ ground (arith, ok h u)
    | inr (old, e') ↦ ground (arith, ok h u, ok (lower host) old e')
  ]

  pub remove_by_slug-IsConsistent : (slug : ℕ) → IsConsistent lower (remove_by_slug lower slug r)
  unfolding remove_by_slug
  remove_by_slug-IsConsistent slug h u e = elim (Option-cases (r.by_slug (lower slug))) [
    | inl e' ↦ ground (arith, ok h u)
    | inr (old, e') ↦ ground (arith, ok h u)
  ]
