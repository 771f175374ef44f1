-- ===== src/Accounts/Activation.antt =====
-- `TenantAccountActivationService` of backend/app/services/tenant_account_activation_service.py.
pub mod Access
use peka_saas.Common.{
  ℕ, Bool, true, false, Option, none, some, not, ltb, ◌==◌, is_some, if◌then◌else◌, ◌||◌,
}
use peka_saas.Common.Exec.{◌>>=◌, ◌>>◌, pure, raise, raise_if, query}
use peka_saas.Accounts.Types.{TenantUser, local, tenant_admin, TenantAdminInvite, Tenant}
use peka_saas.Accounts.Repository.{
  Env, Fresh, Action, invalid_invite_token, invite_already_used, invite_expired,
  user_already_exists, username_already_exists, save_or_rollback, get_user, get_by_token_hash,
  get_by_tenant_and_email, get_by_tenant_and_username, get_tenant, modify_user, modify_invite,
  add_user,
}

abbrev pub used : ℕ → TenantAdminInvite → TenantAdminInvite
used now i = record i { used_at = some now }

-- The assignments to the user of an invitation.
abbrev pub activated : Env → ℕ → TenantUser → TenantUser
activated env password u = record u {
  password_hash = some (env.hash_password password);
  is_active = true;
}

-- The invited user, by the row of its id.
abbrev pub activate_user :
    Env → Fresh → ℕ → ℕ → TenantAdminInvite → Option TenantUser → Action TenantUser
activate_user env n password tenant_id i none = raise invalid_invite_token
activate_user env n password tenant_id i (some u) = do
  raise_if (not (u.tenant_id == tenant_id)) invalid_invite_token
  modify_user u.id (activated env password)
  modify_invite i.id (used n.now)
  save_or_rollback env
  pure (activated env password u)

abbrev pub first_admin : Env → Fresh → ℕ → TenantAdminInvite → Tenant → TenantUser
first_admin env n password i t = record {
  id = n.id;
  tenant_id = i.tenant_id;
  username = some (env.admin_username t.slug);
  email = env.normalize_email i.email;
  full_name = i.full_name;
  auth_source = local;
  password_hash = some (env.hash_password password);
  external_subject = none;
  is_active = true;
  last_login_at = none;
  role = tenant_admin;
  failed_login_attempts = 0;
  locked = false;
}

-- The first administrator of the tenant.
abbrev pub activate_admin : Env → Fresh → ℕ → TenantAdminInvite → Tenant → Action TenantUser
activate_admin env n password i t = do
  by_email ← query (get_by_tenant_and_email env i.tenant_id (env.normalize_email i.email))
  raise_if (is_some by_email) user_already_exists
  by_name ← query (get_by_tenant_and_username i.tenant_id (env.admin_username t.slug))
  raise_if (is_some by_name) username_already_exists
  add_user (first_admin env n password i t)
  modify_invite i.id (used n.now)
  save_or_rollback env
  pure (first_admin env n password i t)

-- The part after the invitation's tests, by its tenant and its user.
unfoldable pub activate_for :
    Env → Fresh → ℕ → ℕ → TenantAdminInvite → Option Tenant → Option ℕ → Action TenantUser
activate_for env n password tenant_id i none user = raise invalid_invite_token
activate_for env n password tenant_id i (some t) none = do
  raise_if (not (t.id == tenant_id)) invalid_invite_token
  activate_admin env n password i t
activate_for env n password tenant_id i (some t) (some user_id) = do
  raise_if (not (t.id == tenant_id)) invalid_invite_token
  found ← query (get_user user_id)
  activate_user env n password tenant_id i found

-- `activate`, by the invitation of the token.
unfoldable pub redeem : Env → Fresh → ℕ → ℕ → Option TenantAdminInvite → Action TenantUser
unfolding activate_for
redeem env n password tenant_id none = raise invalid_invite_token
redeem env n password tenant_id (some i) = do
  raise_if (is_some i.used_at) invite_already_used
  raise_if (ltb i.expires_at n.now) invite_expired
  t ← query (get_tenant i.tenant_id)
  activate_for env n password tenant_id i t i.user_id

unfoldable pub activate : Env → Fresh → ℕ → ℕ → ℕ → Action TenantUser
unfolding redeem
activate env n token password expected_tenant_id = do
  found ← query (get_by_token_hash (env.hash_token token))
  redeem env n password expected_tenant_id found
