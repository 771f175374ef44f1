-- ===== src/Tenancy/Types.antt =====
-- The rows that the administration of tenants writes, and the state of its service: the session and
-- the registry, which a rollback does not undo.
use peka_saas.Common.{
  ℕ, String, Bool, Option, List, ◌==◌, equals, is_some, find, update_rows, where_rows, not,
  if◌then◌else◌,
}
use peka_saas.Common.Exec.{Exec, ok, err}
use peka_saas.Connector.Types.{TenantStatus}
use peka_saas.Accounts.Types.{TenantAdminInvite}
use peka_saas.Accounts.Repository
use peka_saas.Tenancy.Registry.{TenantRegistry}

pub record Tenant : Type 0 where
  pub id : ℕ
  pub slug : ℕ
  pub name : ℕ
  pub display_name : ℕ
  pub status : TenantStatus
  pub primary_domain : Option ℕ
  pub subdomain : Option ℕ
  pub tenant_url : Option ℕ
  pub timezone : ℕ

pub record TenantSsoConfig : Type 0 where
  pub tenant_id : ℕ
  pub enabled : Bool

-- One entry of the column `changes`: of texts, or of the status.
pub data FieldChange : Type 0 where
  text_change : String → Option ℕ → ℕ → FieldChange
  status_change : String → String → FieldChange

pub record TenantAuditEvent : Type 0 where
  pub tenant_id : ℕ
  pub tenant_slug : ℕ
  pub tenant_display_name : ℕ
  pub actor_platform_admin_id : Option ℕ
  pub actor_username : ℕ
  pub action : String
  pub changes : List FieldChange
  pub request_id : Option ℕ

pub record Db : Type 0 where
  pub tenants : List Tenant
  pub sso_configs : List TenantSsoConfig
  pub invites : List TenantAdminInvite
  pub audits : List TenantAuditEvent

pub record World : Type 0 where
  pub working : Db
  pub committed : Db
  pub registry : TenantRegistry

pub data TenantError : Type 0 where
  already_exists domain_already_exists not_found database_error : TenantError
  lifecycle_error : String → TenantError

-- The settings and functions of the accounts' services, the platform's host of a slug, the URL of a
-- slug and a host, `str.lower`, and the text "system".
pub record Env : Type 0 where
  pub accounts : Repository.Env
  pub platform_hostname : ℕ → ℕ
  pub url_of : ℕ → ℕ → ℕ
  pub lower : ℕ → ℕ
  pub system : ℕ

abbrev pub Action : Type 0 → Type 0
Action = Exec World TenantError

abbrev pub query : {A : Type 0} → (Db → A) → Action A
query f w = (ok (f w.working), w)

abbrev pub write : (Db → Db) → Action (Unit {0})
write f w = (ok tt, record w { working = f w.working })

abbrev pub register : (TenantRegistry → TenantRegistry) → Action (Unit {0})
register f w = (ok tt, record w { registry = f w.registry })

-- `commit()` under `except Exception: rollback(); raise`.
abbrev pub save_or_rollback : Env → Action (Unit {0})
save_or_rollback env w =
    if env.accounts.commit_fails
    then (err database_error, record w { working = w.committed })
    else (ok tt, record w { committed = w.working })

abbrev pub get_by_slug : ℕ → Db → Option Tenant
get_by_slug slug db = find (λ t. t.slug == slug) db.tenants

abbrev pub exists_by_slug : ℕ → Db → Bool
exists_by_slug slug db = is_some (get_by_slug slug db)

abbrev pub exists_by_domain : ℕ → Db → Bool
exists_by_domain domain db = is_some (find (λ t. equals t.primary_domain domain) db.tenants)

abbrev pub modify_tenant : ℕ → (Tenant → Tenant) → Action (Unit {0})
modify_tenant id f = write λ db. record db { tenants = update_rows (λ t. t.id == id) f db.tenants }

abbrev pub delete_tenant : ℕ → Action (Unit {0})
delete_tenant id = write λ db. record db { tenants = where_rows (λ t. not (t.id == id)) db.tenants }
