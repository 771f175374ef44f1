-- ===== src/Witness/Tenants.antt =====
-- An example of the theorem on the registry of tenants.
use peka_saas.Common.{ℕ, ◌≡◌, ◌≢◌, Bool, Option, true, false, none, some, [], ◌∷◌, refl}
use peka_saas.Common.Exec.{ok, is_ok}
use peka_saas.Connector.Types.{active}
use peka_saas.Accounts.Invites.{PlatformAdmin}
use peka_saas.Tenancy.Registry.{TenantDefinition, get, empty, add}
use peka_saas.Tenancy.Registry
use peka_saas.Tenancy.Registry.Consistent.{IsConsistent, add-IsConsistent}
use peka_saas.Tenancy.Types.{Tenant, Db, Env, World, get_by_slug}
use peka_saas.Tenancy.Service.{set_active, delete, definition, with_status}
use peka_saas.Tenancy.Service.Resolution.{registry_follows}
use peka_saas.Witness.AccountData

abbrev env : Env
env = record {
  accounts = AccountData.env;
  platform_hostname = λ slug. slug;
  url_of = λ slug host. host;
  lower = λ x. x;
  system = 1;
}

abbrev tenant : Tenant
tenant = record {
  id = 1;
  slug = 5;
  name = 6;
  display_name = 6;
  status = active;
  primary_domain = none;
  subdomain = some 50;
  tenant_url = some 51;
  timezone = 7;
}

abbrev tables : Db
tables = record { tenants = tenant ∷ []; sso_configs = []; invites = []; audits = [] }

abbrev world : World
world = record {
  working = tables;
  committed = tables;
  registry = add env.lower (definition tenant) empty;
}

abbrev nobody : Option PlatformAdmin
nobody = none

-- The registry with the tenant, which began empty.
agree : IsConsistent env.lower world.registry
agree = add-IsConsistent env.lower empty (λ h t e. cc) (definition tenant)

registry_follows_example :
    ((on : Bool) (t : Tenant)
      → (set_active env 5 on nobody world).0 ≡ ok t
      → (Registry.get_by_slug env.lower 5 (set_active env 5 on nobody world).1.registry
          ≡ some (definition t))
        × ((definition t).enabled ≡ on)
        × (get_by_slug 5 (set_active env 5 on nobody world).1.committed ≡ some t))
    × ((confirmation : ℕ)
        → is_ok (delete env 5 confirmation nobody world).0 ≡ true
        → (Registry.get_by_slug env.lower 5 (delete env 5 confirmation nobody world).1.registry
            ≡ none)
          × ((host : ℕ) (t : TenantDefinition)
              → get env.lower host (delete env 5 confirmation nobody world).1.registry ≡ some t
              → env.lower t.slug ≢ env.lower 5))
registry_follows_example = registry_follows env 5 nobody world agree

-- The suspension returns the tenant.
suspended : (set_active env 5 false nobody world).0 ≡ ok (with_status false tenant)
unfolding set_active
suspended = refl
