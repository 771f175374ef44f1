-- ===== src/Platform/Recovery.antt =====
-- `PlatformAdminRecoveryService` of backend/app/services/platform_admin_recovery_service.py.
use peka_saas.Common.{ℕ, Option, none, some, not, if◌then◌else◌}
use peka_saas.Common.Exec.{◌>>=◌, ◌>>◌, pure, raise, raise_if, query, rollback}
use peka_saas.Platform.Types.{
  PlatformAdmin, Env, Action, recovery_error, save_or_rollback, is_admin, get_by_email,
  get_by_username, modify_admin,
}
use peka_saas.Platform.Users.{is_short, restored}

-- The account of `resolve`, by the row that its lookup returns.
abbrev pub resolved : Option PlatformAdmin → Action PlatformAdmin
resolved none = raise (recovery_error "Platform administrator was not found.")
resolved (some u) =
    if is_admin u.role
    then pure u
    else raise (recovery_error "The selected account is not a Platform Admin.")

unfoldable pub resolve : Option ℕ → Option ℕ → Action PlatformAdmin
resolve (some email) none = do found ← query (get_by_email email); resolved found
resolve none (some username) = do found ← query (get_by_username username); resolved found
resolve _ _ = raise (recovery_error "Select exactly one account by email or username.")

-- The `try` block; the message of the policy follows the one of the service.
abbrev pub recover : Env → PlatformAdmin → ℕ → Action PlatformAdmin
recover env u password s =
    if is_short env password
    then (do
      rollback
      raise (
          recovery_error
            "Password does not meet policy requirements. Password must be at least 12 characters."))
        s
    else (do
      modify_admin u.id (restored env password)
      save_or_rollback env (recovery_error "Password recovery failed.")
      pure (restored env password u))
        s

unfoldable pub reset_password : Env → PlatformAdmin → ℕ → Action PlatformAdmin
reset_password env u password = do
  raise_if (not (is_admin u.role)) (recovery_error "The selected account is not a Platform Admin.")
  recover env u password
