-- ===== src/Platform/Login.antt =====
-- `PlatformAdminService` of backend/app/services/platform_admin_service.py.
use peka_saas.Common.{ℕ, ◌+◌, Bool, true, false, Option, none, some, ◌||◌, not, leb, if◌then◌else◌}
use peka_saas.Common.Exec.{ok, ◌>>=◌, ◌>>◌, pure, query}
use peka_saas.Platform.Types.{
  PlatformAdmin, platform_admin, Env, Fresh, Action, database_error, save, save_or_rollback,
  get_by_username, modify_admin, add_admin,
}
use peka_saas.Platform.Users.{is_wrong}

abbrev pub created_admin : Env → Fresh → ℕ → ℕ → ℕ → ℕ → Bool → PlatformAdmin
created_admin env n username email password full_name is_super_admin = record {
  id = n.id;
  username = username;
  email = email;
  password_hash = some (env.hash_password password);
  full_name = full_name;
  last_login_at = none;
  failed_login_attempts = 0;
  locked = false;
  is_active = true;
  is_super_admin = is_super_admin;
  role = platform_admin;
}

unfoldable pub create_admin : Env → Fresh → ℕ → ℕ → ℕ → ℕ → Bool → Action PlatformAdmin
create_admin env n username email password full_name is_super_admin = do
  add_admin (created_admin env n username email password full_name is_super_admin)
  save_or_rollback env database_error
  pure (created_admin env n username email password full_name is_super_admin)

-- The assignments of `record_successful_login` and of `record_failed_login`.
abbrev pub logged_in : ℕ → PlatformAdmin → PlatformAdmin
logged_in now u = record u { failed_login_attempts = 0; last_login_at = some now }

abbrev pub failed : PlatformAdmin → PlatformAdmin
failed u = record u {
  failed_login_attempts = u.failed_login_attempts + 1;
  locked = u.locked || leb 5 (u.failed_login_attempts + 1);
}

-- The end of `authenticate`, by the check of the password.
abbrev pub record_login : Env → PlatformAdmin → ℕ → Bool → Action (Option PlatformAdmin)
record_login env u now true = do modify_admin u.id failed; save env; pure none
record_login env u now false = do
  modify_admin u.id (logged_in now)
  save env
  pure (some (logged_in now u))

-- `authenticate`, by the row of the username.
unfoldable pub check : Env → ℕ → ℕ → Option PlatformAdmin → Action (Option PlatformAdmin)
check env password now none s = (ok none, s)
check env password now (some u) s =
    if not u.is_active || u.locked
    then (ok none, s)
    else (do wrong ← is_wrong env password u.password_hash; record_login env u now wrong) s

unfoldable pub authenticate : Env → ℕ → ℕ → ℕ → Action (Option PlatformAdmin)
unfolding check
authenticate env username password now = do
  found ← query (get_by_username username)
  check env password now found
