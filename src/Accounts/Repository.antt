-- ===== src/Accounts/Repository.antt =====
-- `TenantUserRepository` and `TenantAdminInviteRepository` of backend/app/repositories, with the
-- tables and the surroundings of the services.
use peka_saas.Common.{
  ℕ, ◌*◌, String, Bool, Option, List, [], ◌∷◌, ◌++◌, ◌&&◌, ◌==◌, equals, is_none, find, update_rows,
  count_rows, if◌then◌else◌,
}
use peka_saas.Common.Exec.{Exec, Session, ◌>>◌, raise, write, commit, rollback}
use peka_saas.Common.Order.{latest}
use peka_saas.Accounts.Types.{
  TenantUser, TenantPasswordResetToken, DevelopmentEmail, TenantInvitePurpose, bootstrap,
  TenantAdminInvite, TenantAuditEvent, Tenant, is_admin, same_purpose,
}

-- The tables that the services read and write.
pub record Db : Type 0 where
  pub users : List TenantUser
  pub invites : List TenantAdminInvite
  pub reset_tokens : List TenantPasswordResetToken
  pub emails : List DevelopmentEmail
  pub audits : List TenantAuditEvent
  pub tenants : List Tenant

-- The functions on texts and the settings: `normalize_email`, `lower(trim(column))`, `sha256` of a
-- token, `hash_password`, `verify_password` (none where it raises), the two builders of links,
-- the name of a bootstrap administrator, `strip`, `len`, the subject and the body of the email, the
-- texts "tenant-self-service" and "platform-admin-reset", the two tests of the settings, the
-- lifetime of a reset token, the id of the request, and whether the database refuses the commit.
pub record Env : Type 0 where
  pub normalize_email : ℕ → ℕ
  pub lower_trim : ℕ → ℕ
  pub hash_token : ℕ → ℕ
  pub hash_password : ℕ → ℕ
  pub verify_password : ℕ → ℕ → Option Bool
  pub setup_url : ℕ → ℕ → Option ℕ → ℕ
  pub reset_url : ℕ → ℕ → Option ℕ → ℕ
  pub admin_username : ℕ → ℕ
  pub strip : ℕ → ℕ
  pub length_of : ℕ → ℕ
  pub reset_subject : ℕ → ℕ
  pub reset_body : ℕ → ℕ → ℕ → ℕ
  pub self_service : ℕ
  pub platform_admin_reset : ℕ
  pub is_development_outbox : Bool
  pub is_development_environment : Bool
  pub tenant_password_reset_minutes : ℕ
  pub request_id : Option ℕ
  pub commit_fails : Bool

-- What a call takes from its surroundings: the clock, the ids of the rows that it adds and a new
-- random token.
pub record Fresh : Type 0 where
  pub now : ℕ
  pub id : ℕ
  pub token_id : ℕ
  pub raw_token : ℕ

-- The exceptions, with their messages where the services tell them apart.
pub data AccountError : Type 0 where
  management_error value_error reset_error : String → AccountError
  invalid_invite_token invite_already_used invite_expired : AccountError
  user_already_exists username_already_exists : AccountError
  authentication_error attribute_error verify_error database_error : AccountError

abbrev pub Action : Type 0 → Type 0
Action = Exec (Session Db) AccountError

-- `commit()` whose exception leaves the transaction to be discarded.
abbrev pub save : Env → Action (Unit {0})
save env s = if env.commit_fails then raise database_error s else commit s

-- `commit()` under `except Exception: rollback(); raise`.
abbrev pub save_or_rollback : Env → Action (Unit {0})
save_or_rollback env s =
    if env.commit_fails then (do rollback; raise database_error) s else commit s

abbrev pub get_user : ℕ → Db → Option TenantUser
get_user id db = find (λ u. u.id == id) db.users

abbrev pub get_by_tenant_and_email : Env → ℕ → ℕ → Db → Option TenantUser
get_by_tenant_and_email env tenant_id email db =
    find (λ u. u.tenant_id == tenant_id && env.lower_trim u.email == env.normalize_email email)
      db.users

abbrev pub get_by_tenant_and_username : ℕ → ℕ → Db → Option TenantUser
get_by_tenant_and_username tenant_id username db =
    find (λ u. u.tenant_id == tenant_id && equals u.username username) db.users

abbrev pub is_active_admin : ℕ → TenantUser → Bool
is_active_admin tenant_id u = u.tenant_id == tenant_id && (u.is_active && is_admin u.role)

abbrev pub count_active_admins : ℕ → Db → ℕ
count_active_admins tenant_id db = count_rows (is_active_admin tenant_id) db.users

abbrev pub count_active_for_tenant : ℕ → Db → ℕ
count_active_for_tenant tenant_id db =
    count_rows (λ u. u.tenant_id == tenant_id && u.is_active) db.users

abbrev pub get_by_token_hash : ℕ → Db → Option TenantAdminInvite
get_by_token_hash token_hash db = find (λ i. i.token_hash == token_hash) db.invites

-- The condition of `get_latest_for_tenant`.
abbrev pub is_bootstrap_of : ℕ → TenantAdminInvite → Bool
is_bootstrap_of tenant_id i = i.tenant_id == tenant_id && same_purpose i.purpose bootstrap

abbrev pub get_latest_for_tenant : ℕ → Db → Option TenantAdminInvite
get_latest_for_tenant tenant_id db =
    latest (λ i. i.created_at) (is_bootstrap_of tenant_id) db.invites

abbrev pub get_latest_unused_for_tenant : ℕ → Db → Option TenantAdminInvite
get_latest_unused_for_tenant tenant_id db =
    latest (λ i. i.created_at) (λ i. is_none i.used_at && is_bootstrap_of tenant_id i) db.invites

-- The condition of `get_unused_for_user`.
abbrev pub is_unused_for_user : ℕ → TenantInvitePurpose → TenantAdminInvite → Bool
is_unused_for_user user_id purpose i =
    equals i.user_id user_id && (same_purpose i.purpose purpose && is_none i.used_at)

abbrev pub get_tenant : ℕ → Db → Option Tenant
get_tenant id db = find (λ t. t.id == id) db.tenants

-- Assignments to the attributes of a loaded row.
abbrev pub modify_user : ℕ → (TenantUser → TenantUser) → Action (Unit {0})
modify_user id f = write λ db. record db { users = update_rows (λ u. u.id == id) f db.users }

abbrev pub modify_invite : ℕ → (TenantAdminInvite → TenantAdminInvite) → Action (Unit {0})
modify_invite id f = write λ db. record db { invites = update_rows (λ i. i.id == id) f db.invites }

abbrev pub add_user : TenantUser → Action (Unit {0})
add_user u = write λ db. record db { users = db.users ++ u ∷ [] }

abbrev pub add_invite : TenantAdminInvite → Action (Unit {0})
add_invite i = write λ db. record db { invites = db.invites ++ i ∷ [] }

abbrev pub add_audit : TenantAuditEvent → Action (Unit {0})
add_audit a = write λ db. record db { audits = db.audits ++ a ∷ [] }

-- A lifetime in hours and in minutes.
abbrev pub hours : ℕ → ℕ
hours n = n * 3600000000

abbrev pub minutes : ℕ → ℕ
minutes n = n * 60000000
