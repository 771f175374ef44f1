-- ===== src/Tenancy/Service.antt =====
-- `TenantService` of backend/app/services/tenant_service.py, with `TenantRegistryManager.add` of
-- tenant_registry_manager.py and `TenantBootstrapService.bootstrap` of tenant_bootstrap_service.py.
pub mod Resolution
use peka_saas.Common.{
  ℕ, String, Bool, true, false, Option, none, some, List, [], ◌∷◌, ◌++◌, ◌&&◌, not, ◌==◌, is_some,
  is_empty, if◌then◌else◌, or_else,
}
use mathlib.Core.Option
use peka_saas.Common.Exec.{◌>>=◌, ◌>>◌, pure, raise, raise_if}
use peka_saas.Connector.Types.{TenantStatus, active, suspended, tenant_retired, is_active}
use peka_saas.Accounts.Types.{has_text}
use peka_saas.Accounts.Repository.{Fresh}
use peka_saas.Accounts.Invites.{PlatformAdmin, bootstrap_invite}
use peka_saas.Tenancy.Registry.{TenantDefinition, add, remove_by_slug}
use peka_saas.Tenancy.Types.{
  Tenant, FieldChange, text_change, status_change, TenantAuditEvent, Db, Env, Action,
  already_exists, domain_already_exists, not_found, lifecycle_error, query, write, register,
  save_or_rollback, get_by_slug, exists_by_slug, exists_by_domain, modify_tenant, delete_tenant,
}

pub record TenantCreate : Type 0 where
  pub slug : ℕ
  pub display_name : ℕ
  pub primary_domain : Option ℕ
  pub subdomain : Option ℕ
  pub tenant_url : Option ℕ
  pub timezone : ℕ
  pub initial_admin_email : ℕ
  pub initial_admin_full_name : ℕ

pub record TenantUpdate : Type 0 where
  pub display_name : Option ℕ
  pub timezone : Option ℕ

pub record TenantCreateResponse : Type 0 where
  pub tenant : Tenant
  pub admin_setup_link : ℕ

-- `status.value`
abbrev pub value_of : TenantStatus → String
value_of active = "active"
value_of suspended = "suspended"
value_of tenant_retired = "retired"

-- The definition that `TenantRegistryManager.add` builds; the empty text is 0.
abbrev pub definition : Tenant → TenantDefinition
definition t = record {
  tenant_id = t.id;
  slug = t.slug;
  hostname = or_else t.subdomain 0;
  enabled = is_active t.status;
  display_name = t.display_name;
  timezone = t.timezone;
}

-- `value or default` of texts
abbrev pub text_or : Option ℕ → ℕ → ℕ
text_or value default = if has_text value then or_else value 0 else default

abbrev pub audit_event :
    Env → Tenant → Option PlatformAdmin → String → List FieldChange → TenantAuditEvent
audit_event env t actor action changes = record {
  tenant_id = t.id;
  tenant_slug = t.slug;
  tenant_display_name = t.display_name;
  actor_platform_admin_id = Option.map (λ (a : PlatformAdmin). a.id) actor;
  actor_username = or_else (Option.map (λ (a : PlatformAdmin). a.username) actor) env.system;
  action = action;
  changes = changes;
  request_id = env.accounts.request_id;
}

-- `_audit`
abbrev pub audit :
    Env → Tenant → Option PlatformAdmin → String → List FieldChange → Action (Unit {0})
audit env t actor action changes =
    write λ db. record db { audits = db.audits ++ audit_event env t actor action changes ∷ [] }

abbrev pub new_tenant : Env → Fresh → TenantCreate → Tenant
new_tenant env n p =
    let subdomain = text_or p.subdomain (env.platform_hostname p.slug) in
    record {
      id = n.id;
      slug = p.slug;
      name = p.display_name;
      display_name = p.display_name;
      status = active;
      primary_domain = p.primary_domain;
      subdomain = some subdomain;
      tenant_url = some (text_or p.tenant_url (env.url_of p.slug subdomain));
      timezone = p.timezone;
    }

-- `bootstrap`: the configuration of single sign-on, and the first invitation.
abbrev pub bootstrap : Env → Fresh → Tenant → ℕ → ℕ → Option ℕ → Action ℕ
bootstrap env n t email full_name created_by = do
  write λ db. record db {
    sso_configs = db.sso_configs ++ record { tenant_id = t.id; enabled = false } ∷ [];
    invites = db.invites ++ bootstrap_invite env.accounts n t.id email full_name created_by ∷ [];
  }
  pure (env.accounts.setup_url t.slug n.raw_token t.subdomain)

abbrev pub creation_changes : TenantCreate → List FieldChange
creation_changes p =
    text_change "display_name" none p.display_name
    ∷ text_change "timezone" none p.timezone
    ∷ text_change "slug" none p.slug
    ∷ []

-- `tenant.primary_domain and self.repository.exists_by_domain(tenant.primary_domain)`
abbrev pub domain_taken : Option ℕ → Db → Bool
domain_taken domain db = has_text domain && exists_by_domain (or_else domain 0) db

unfoldable pub create :
    Env → Fresh → TenantCreate → Option PlatformAdmin → Action TenantCreateResponse
create env n p actor = do
  taken ← query (exists_by_slug p.slug)
  raise_if taken already_exists
  domain ← query (domain_taken p.primary_domain)
  raise_if domain domain_already_exists
  write (λ db. record db { tenants = db.tenants ++ new_tenant env n p ∷ [] })
  link ←
      bootstrap env n (new_tenant env n p) p.initial_admin_email p.initial_admin_full_name
        (Option.map (λ (a : PlatformAdmin). a.id) actor)
  audit env (new_tenant env n p) actor "TENANT_CREATED" (creation_changes p)
  save_or_rollback env
  register (add env.lower (definition (new_tenant env n p)))
  pure (record { tenant = new_tenant env n p; admin_setup_link = link })

-- The tenant of `get_by_slug_or_raise`, by the row of its slug.
abbrev pub found_or_raise : Option Tenant → Action Tenant
found_or_raise none = raise not_found
found_or_raise (some t) = pure t

abbrev pub get_by_slug_or_raise : ℕ → Action Tenant
get_by_slug_or_raise slug = do found ← query (get_by_slug slug); found_or_raise found

-- `payload.x is not None and payload.x != tenant.x`
abbrev pub differs : Option ℕ → ℕ → Bool
differs none old = false
differs (some new) old = not (new == old)

abbrev pub change_of : String → Option ℕ → ℕ → List FieldChange
change_of field new old =
    if differs new old then text_change field (some old) (or_else new old) ∷ [] else []

abbrev pub changes_of : TenantUpdate → Tenant → List FieldChange
changes_of p t =
    change_of "display_name" p.display_name t.display_name
    ++ change_of "timezone" p.timezone t.timezone

-- The assignments of `update`; an equal value is assigned to no effect, except that `name` follows
-- a new display name only.
abbrev pub updated : TenantUpdate → Tenant → Tenant
updated p t = record t {
  display_name = or_else p.display_name t.display_name;
  name = if differs p.display_name t.display_name then or_else p.display_name t.name else t.name;
  timezone = or_else p.timezone t.timezone;
}

-- The end of `update` and of `set_active`: the event, the commit, and the registry.
abbrev pub publish : Env → Tenant → Option PlatformAdmin → String → List FieldChange → Action Tenant
publish env t actor action changes = do
  audit env t actor action changes
  save_or_rollback env
  register (add env.lower (definition t))
  pure t

abbrev pub apply_update : Env → TenantUpdate → Option PlatformAdmin → Tenant → Action Tenant
apply_update env p actor t w =
    if is_empty (changes_of p t)
    then pure t w
    else (do
      modify_tenant t.id (updated p)
      publish env (updated p t) actor "TENANT_UPDATED" (changes_of p t))
        w

unfoldable pub update : Env → ℕ → TenantUpdate → Option PlatformAdmin → Action Tenant
update env slug p actor = do t ← get_by_slug_or_raise slug; apply_update env p actor t

abbrev pub status_of : Bool → TenantStatus
status_of true = active
status_of false = suspended

abbrev pub with_status : Bool → Tenant → Tenant
with_status on t = record t { status = status_of on }

unfoldable pub set_active : Env → ℕ → Bool → Option PlatformAdmin → Action Tenant
set_active env slug on actor = do
  t ← get_by_slug_or_raise slug
  modify_tenant t.id (with_status on)
  publish env (with_status on t) actor (if on then "TENANT_ACTIVATED" else "TENANT_DEACTIVATED")
      (status_change (value_of t.status) (value_of (status_of on)) ∷ [])

unfoldable pub delete : Env → ℕ → ℕ → Option PlatformAdmin → Action (Unit {0})
delete env slug confirmation actor = do
  t ← get_by_slug_or_raise slug
  raise_if (not (confirmation == slug))
      (lifecycle_error "Tenant deletion confirmation does not match.")
  raise_if (is_active t.status) (lifecycle_error "Deactivate the tenant before deleting it.")
  audit env t actor "TENANT_DELETED" (status_change (value_of t.status) "deleted" ∷ [])
  delete_tenant t.id
  save_or_rollback env
  register (remove_by_slug env.lower slug)
