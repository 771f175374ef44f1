-- ===== src/Witness/AccountData.antt =====
-- A tenant with an administrator, and an invitation that renews the administrator's password.
use peka_saas.Common.{◌+◌, ◌==◌, true, false, none, some, [], ◌∷◌}
use peka_saas.Accounts.Types.{
  TenantUser, local, tenant_admin, TenantAdminInvite, password_reset, Tenant,
}
use peka_saas.Accounts.Repository.{Db, Env, Fresh}

abbrev pub env : Env
env = record {
  normalize_email = λ x. x;
  lower_trim = λ x. x;
  hash_token = λ t. t + 1;
  hash_password = λ p. p + 100;
  verify_password = λ p h. some (p + 100 == h);
  setup_url = λ slug raw host. raw;
  reset_url = λ slug raw host. raw;
  admin_username = λ slug. slug;
  strip = λ x. x;
  length_of = λ p. p;
  reset_subject = λ name. name;
  reset_body = λ name url time. url;
  self_service = 1;
  platform_admin_reset = 2;
  is_development_outbox = true;
  is_development_environment = true;
  tenant_password_reset_minutes = 30;
  request_id = none;
  commit_fails = false;
}

abbrev pub fresh : Fresh
fresh = record { now = 50; id = 20; token_id = 21; raw_token = 900 }

abbrev pub tenant : Tenant
tenant = record { id = 1; slug = 5; display_name = 6; subdomain = none }

abbrev pub admin : TenantUser
admin = record {
  id = 2;
  tenant_id = 1;
  username = some 7;
  email = 8;
  full_name = 9;
  auth_source = local;
  password_hash = some 111;
  external_subject = none;
  is_active = true;
  last_login_at = none;
  role = tenant_admin;
  failed_login_attempts = 5;
  locked = true;
}

abbrev pub invitation : TenantAdminInvite
invitation = record {
  id = 30;
  created_at = 10;
  tenant_id = 1;
  email = 8;
  full_name = 9;
  token_hash = 701;
  expires_at = 1000;
  used_at = none;
  created_by_platform_admin_id = none;
  user_id = some 2;
  purpose = password_reset;
}

abbrev pub tables : Db
tables = record {
  users = admin ∷ [];
  invites = invitation ∷ [];
  reset_tokens = [];
  emails = [];
  audits = [];
  tenants = tenant ∷ [];
}

-- The administrator before the failures.
abbrev pub usable : TenantUser
usable = record admin { failed_login_attempts = 0; locked = false }
