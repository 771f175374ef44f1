-- ===== src/Accounts/Users.antt =====
-- `TenantUserManagementService` of backend/app/services/tenant_user_management_service.py.
pub mod Writes
pub mod Admins
use peka_saas.Common.{
  ℕ, ◌+◌, Bool, true, false, Option, none, some, List, ◌&&◌, ◌||◌, not, leb, ◌==◌, is_some,
  where_rows, update_rows, if◌then◌else◌, or_else,
}
use peka_saas.Common.Exec.{◌>>=◌, ◌>>◌, pure, raise, raise_if, query, write}
use peka_saas.Accounts.Types.{
  TenantUser, TenantUserRole, local, TenantAdminInvite, TenantInvitePurpose, user_setup,
  password_reset, Tenant, is_local, is_admin, has_text,
}
use peka_saas.Accounts.Repository.{
  Db, Env, Fresh, Action, management_error, attribute_error, verify_error, save, save_or_rollback,
  get_user, get_by_tenant_and_email, get_by_tenant_and_username, count_active_admins,
  is_unused_for_user, get_tenant, modify_user, add_user, add_invite, hours,
}
use peka_saas.Accounts.Invites.{expiring}

pub record TenantUserCreate : Type 0 where
  pub full_name : ℕ
  pub email : ℕ
  pub username : ℕ
  pub role : TenantUserRole

pub record TenantUserInvitationResponse : Type 0 where
  pub user : TenantUser
  pub setup_link : ℕ
  pub expires_at : ℕ

abbrev pub list_for_tenant : ℕ → Db → List TenantUser
list_for_tenant tenant_id db = where_rows (λ u. u.tenant_id == tenant_id) db.users

-- The user of `get`, by the row of its id.
abbrev pub of_tenant : ℕ → Option TenantUser → Action TenantUser
of_tenant tenant_id none = raise (management_error "Tenant user was not found.")
of_tenant tenant_id (some u) =
    if u.tenant_id == tenant_id
    then pure u
    else raise (management_error "Tenant user was not found.")

abbrev pub get : ℕ → ℕ → Action TenantUser
get tenant_id user_id = do found ← query (get_user user_id); of_tenant tenant_id found

abbrev pub new_invite : Env → Fresh → TenantUser → TenantInvitePurpose → TenantAdminInvite
new_invite env n u purpose = record {
  id = n.token_id;
  created_at = n.now;
  tenant_id = u.tenant_id;
  email = u.email;
  full_name = u.full_name;
  token_hash = env.hash_token n.raw_token;
  expires_at = n.now + hours 24;
  used_at = none;
  created_by_platform_admin_id = none;
  user_id = some u.id;
  purpose = purpose;
}

-- `_invite`
abbrev pub invite : Env → Fresh → TenantUser → TenantInvitePurpose → Action TenantAdminInvite
invite env n u purpose = do
  write λ db. record db {
    invites = update_rows (is_unused_for_user u.id purpose) (expiring n.now) db.invites;
  }
  add_invite (new_invite env n u purpose)
  pure (new_invite env n u purpose)

-- `_link`, by the row of the tenant.
abbrev pub link : Env → ℕ → Option Tenant → Action ℕ
link env raw none = raise attribute_error
link env raw (some t) = pure (env.setup_url t.slug raw t.subdomain)

abbrev pub new_user : Env → Fresh → ℕ → TenantUserCreate → TenantUser
new_user env n tenant_id p = record {
  id = n.id;
  tenant_id = tenant_id;
  username = some p.username;
  email = env.normalize_email p.email;
  full_name = p.full_name;
  auth_source = local;
  password_hash = none;
  external_subject = none;
  is_active = false;
  last_login_at = none;
  role = p.role;
  failed_login_attempts = 0;
  locked = false;
}

-- The rows with the email or the username of the payload.
abbrev pub is_taken : Env → ℕ → TenantUserCreate → Db → Bool
is_taken env tenant_id p db =
    is_some (get_by_tenant_and_email env tenant_id (env.normalize_email p.email) db)
    || is_some (get_by_tenant_and_username tenant_id p.username db)

-- The end of `create` and of `reset`.
abbrev pub invited :
    Env → Fresh → ℕ → TenantUser → TenantAdminInvite → Action TenantUserInvitationResponse
invited env n tenant_id u i = do
  tenant ← query (get_tenant tenant_id)
  url ← link env n.raw_token tenant
  pure (record { user = u; setup_link = url; expires_at = i.expires_at })

unfoldable pub create : Env → Fresh → ℕ → TenantUserCreate → Action TenantUserInvitationResponse
create env n tenant_id p = do
  taken ← query (is_taken env tenant_id p)
  raise_if taken (management_error "Username or email is already in use.")
  add_user (new_user env n tenant_id p)
  i ← invite env n (new_user env n tenant_id p) user_setup
  save_or_rollback env
  invited env n tenant_id (new_user env n tenant_id p) i

unfoldable pub reset : Env → Fresh → ℕ → ℕ → Action TenantUserInvitationResponse
reset env n tenant_id user_id = do
  u ← get tenant_id user_id
  raise_if (not (is_local u.auth_source))
      (management_error "Password is managed by the identity provider.")
  i ← invite env n u password_reset
  save env
  invited env n tenant_id u i

-- `verify_password`, which may raise.
abbrev pub verify : Env → ℕ → ℕ → Action Bool
verify env password hash = elim (env.verify_password password hash) [
  | none ↦ raise verify_error
  | some b ↦ pure b
]

-- `not user.password_hash or not verify_password(current, user.password_hash)`
abbrev pub is_wrong : Env → ℕ → Option ℕ → Action Bool
is_wrong env current hash =
    if has_text hash then (do b ← verify env current (or_else hash 0); pure (not b)) else pure true

unfoldable pub change_password : Env → TenantUser → ℕ → ℕ → Action (Unit {0})
change_password env u current new = do
  raise_if (not (is_local u.auth_source))
      (management_error "Password is managed by the identity provider.")
  wrong ← is_wrong env current u.password_hash
  raise_if wrong (management_error "Current password is incorrect.")
  same ← verify env new (or_else u.password_hash 0)
  raise_if same (management_error "New password must be different.")
  modify_user u.id (λ r. record r { password_hash = some (env.hash_password new) })
  save env

-- The condition that keeps the last administrator.
abbrev pub is_last : TenantUser → ℕ → Bool
is_last u admins = is_admin u.role && (u.is_active && leb admins 1)

abbrev pub with_role : TenantUserRole → TenantUser → TenantUser
with_role role u = record u { role = role }

unfoldable pub set_role : Env → ℕ → ℕ → TenantUserRole → Action TenantUser
set_role env tenant_id user_id role = do
  u ← get tenant_id user_id
  admins ← query (count_active_admins tenant_id)
  raise_if (not (is_admin role) && is_last u admins)
      (management_error "The last active tenant administrator cannot be demoted.")
  modify_user u.id (with_role role)
  save env
  pure (with_role role u)

abbrev pub with_active : Bool → TenantUser → TenantUser
with_active active u = record u { is_active = active }

-- The id of the acting user stands for the actor.
unfoldable pub set_active : Env → ℕ → ℕ → Bool → ℕ → Action TenantUser
set_active env tenant_id user_id active actor_id = do
  u ← get tenant_id user_id
  raise_if (not active && u.id == actor_id)
      (management_error "You cannot deactivate your own account.")
  admins ← query (count_active_admins tenant_id)
  raise_if (not active && is_last u admins)
      (management_error "The last active tenant administrator cannot be deactivated.")
  modify_user u.id (with_active active)
  save env
  pure (with_active active u)
