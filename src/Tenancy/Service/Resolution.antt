-- ===== src/Tenancy/Service/Resolution.antt =====
-- What the registry resolves a tenant's slug and host to after a call.
use peka_saas.Common.{
  ℕ, ◌≡◌, ◌≢◌, refl, sym, ap, ◌∙◌, Bool, true, Option, none, some, arith, find_holds,
  find-update_rows, ◌==◌, ==_refl, Option-cases, inl, inr,
}
use peka_saas.Common.Exec.{ok, is_ok}
use peka_saas.Accounts.Invites.{PlatformAdmin}
use peka_saas.Tenancy.Registry.{TenantDefinition, TenantRegistry, get, add, remove_by_slug}
use peka_saas.Tenancy.Registry
use peka_saas.Tenancy.Registry.Consistent.{IsConsistent, remove_by_slug-IsConsistent}
use peka_saas.Tenancy.Types.{Tenant, Env, World, get_by_slug}
use peka_saas.Tenancy.Service.{set_active, delete, definition, with_status}

added-found :
    (lower : ℕ → ℕ) (t : TenantDefinition) (r : TenantRegistry)
    → Registry.get_by_slug lower t.slug (add lower t r) ≡ some t
unfolding Registry.get_by_slug add
added-found lower t r = ground (arith, ==_refl (lower t.slug))

removed-lost :
    (lower : ℕ → ℕ) (slug : ℕ) (r : TenantRegistry)
    → Registry.get_by_slug lower slug (remove_by_slug lower slug r) ≡ none
unfolding Registry.get_by_slug remove_by_slug
removed-lost lower slug r = ground (arith, ==_refl (lower slug))

-- No host of a consistent registry resolves to a slug that it does not know.
host-lost :
    (lower : ℕ → ℕ) (slug : ℕ) (r : TenantRegistry)
    → IsConsistent lower r
    → Registry.get_by_slug lower slug r ≡ none
    → (host : ℕ) (t : TenantDefinition) → get lower host r ≡ some t
    → lower t.slug ≢ lower slug
unfolding Registry.get_by_slug get
host-lost lower slug r agree lost host t e same =
    ground (arith, agree (lower host) t e, ap r.by_slug same)

module _ (env : Env) (slug : ℕ) (actor : Option PlatformAdmin) (w : World) where
  -- What a call of `set_active` that returns leaves.
  set_active-leaves :
      (on : Bool) (t : Tenant)
      → (set_active env slug on actor w).0 ≡ ok t
      → ((set_active env slug on actor w).1.registry ≡ add env.lower (definition t) w.registry)
        × (t.slug ≡ slug)
        × ((definition t).enabled ≡ on)
        × (get_by_slug slug (set_active env slug on actor w).1.committed ≡ some t)
  unfolding set_active
  set_active-leaves on t h = elim (Option-cases (get_by_slug slug w.working)) [
    | inl e ↦ absurd (ground arith)
    | inr (old, e) ↦
        let kept =
          find-update_rows (λ x. x.slug == slug) (λ x. x.id == old.id) (with_status on) (λ x. refl)
            w.working.tenants in
        let named = find_holds (λ x. x.slug == slug) w.working.tenants old e in
        (ground arith, ground (arith, named), ground arith, ground (arith, kept, ==_refl old.id))
  ]

  delete-leaves :
      (confirmation : ℕ)
      → is_ok (delete env slug confirmation actor w).0 ≡ true
      → (delete env slug confirmation actor w).1.registry ≡ remove_by_slug env.lower slug w.registry
  unfolding delete
  delete-leaves confirmation h = elim (Option-cases (get_by_slug slug w.working)) [
    | inl e ↦ absurd (ground arith)
    | inr (t, e) ↦ ground arith
  ]

  -- After a call of `set_active` that returns, the committed row of the slug and the registry's
  -- definition of the slug are those of the tenant it returns, enabled as asked. When each host of
  -- the registry resolves to what its slug does, after a call of `delete` that returns neither the
  -- slug nor any host resolves to a tenant of the slug, up to case.
  pub registry_follows :
      IsConsistent env.lower w.registry
      → ((on : Bool) (t : Tenant)
          → (set_active env slug on actor w).0 ≡ ok t
          → (Registry.get_by_slug env.lower slug (set_active env slug on actor w).1.registry
              ≡ some (definition t))
            × ((definition t).enabled ≡ on)
            × (get_by_slug slug (set_active env slug on actor w).1.committed ≡ some t))
        × ((confirmation : ℕ)
            → is_ok (delete env slug confirmation actor w).0 ≡ true
            → (Registry.get_by_slug env.lower slug (delete env slug confirmation actor w).1.registry
                ≡ none)
              × ((host : ℕ) (t : TenantDefinition)
                  → get env.lower host (delete env slug confirmation actor w).1.registry ≡ some t
                  → env.lower t.slug ≢ env.lower slug))
  registry_follows agree = (
    λ on t h.
        let (leaves, named, enabled, row) = set_active-leaves on t h in
        (
          rw leaves (
              ap (λ s. Registry.get_by_slug env.lower s (add env.lower (definition t) w.registry))
                (sym named)
              ∙ added-found env.lower (definition t) w.registry),
          enabled,
          row,
        ),
    λ confirmation h.
        let leaves = delete-leaves confirmation h in
        (
          rw leaves (removed-lost env.lower slug w.registry),
          rw leaves (
              host-lost env.lower slug (remove_by_slug env.lower slug w.registry)
                (remove_by_slug-IsConsistent env.lower w.registry agree slug)
                (removed-lost env.lower slug w.registry)),
        ),
  )
