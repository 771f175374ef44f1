-- ===== src/Accounts/Login.antt =====
-- `TenantLocalAuthenticationService` of
-- backend/app/services/tenant_local_authentication_service.py.
pub mod Lockout
use peka_saas.Common.{
  ℕ, ◌+◌, ◌≡◌, refl, Bool, true, false, Option, none, some, ◌&&◌, ◌||◌, not, leb, if◌then◌else◌,
}
use peka_saas.Common.Exec.{Session, ◌>>=◌, ◌>>◌, pure, raise, query}
use peka_saas.Accounts.Types.{TenantUser, is_local, has_text}
use peka_saas.Accounts.Repository.{
  Db, Env, Action, authentication_error, save, save_or_rollback, get_by_tenant_and_username,
  modify_user,
}

-- `password_valid`: an exception of `verify_password` counts as a refusal.
unfoldable pub is_valid : Env → ℕ → Option ℕ → Bool
is_valid env password none = false
is_valid env password (some hash) =
    has_text (some hash) && elim (env.verify_password password hash) [ none ↦ false | some b ↦ b ]

-- A local account that is active and not locked.
abbrev pub is_usable : TenantUser → Bool
is_usable u = is_local u.auth_source && (u.is_active && not u.locked)

-- The assignments of a failed login.
abbrev pub failed : TenantUser → TenantUser
failed u = record u {
  failed_login_attempts = u.failed_login_attempts + 1;
  locked = u.locked || leb 5 (u.failed_login_attempts + 1);
}

-- The assignments of a login.
abbrev pub logged_in : ℕ → TenantUser → TenantUser
logged_in now u = record u { last_login_at = some now; failed_login_attempts = 0 }

-- `authenticate`, by the row of the username.
unfoldable pub check : Env → ℕ → ℕ → Option TenantUser → Action TenantUser
check env password now none = raise authentication_error
check env password now (some u) =
    if is_usable u && is_valid env password u.password_hash
    then (do modify_user u.id (logged_in now); save_or_rollback env; pure (logged_in now u))
    else (do
      (if is_usable u then (do modify_user u.id failed; save env) else pure tt)
      raise authentication_error)

unfoldable pub authenticate : Env → ℕ → ℕ → ℕ → ℕ → Action TenantUser
unfolding check
authenticate env tenant_id username password now = do
  found ← query (get_by_tenant_and_username tenant_id username)
  check env password now found

-- What `authenticate` does is what `check` does with the row of the username.
pub authenticate-check :
    (env : Env) (tenant_id username password now : ℕ) (s : Session Db) (found : Option TenantUser)
    → get_by_tenant_and_username tenant_id username s.working ≡ found
    → authenticate env tenant_id username password now s ≡ check env password now found s
unfolding authenticate
authenticate-check env tenant_id username password now s found e = rw e refl
