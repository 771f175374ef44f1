-- ===== src/Accounts/Passwords.antt =====
-- `TenantPasswordResetService` of backend/app/services/tenant_password_reset_service.py.
pub mod Recovery
use peka_saas.Common.{
  ℕ, ◌+◌, Bool, true, false, Option, none, some, [], ◌∷◌, ◌++◌, ◌&&◌, ◌||◌, not, ltb, ◌==◌, is_none,
  is_some, find, update_rows, if◌then◌else◌, or_else,
}
use mathlib.Core.Option
use peka_saas.Common.Exec.{◌>>=◌, ◌>>◌, pure, raise, raise_if, query, write, rollback, commit}
use peka_saas.Accounts.Types.{
  TenantUser, TenantPasswordResetToken, DevelopmentEmail, TenantAuditEvent, reset_requested,
  reset_completed, Tenant, is_local, is_admin, has_text,
}
use peka_saas.Accounts.Repository.{
  Db, Env, Fresh, Action, reset_error, save, get_user, modify_user, add_audit, minutes,
}
use peka_saas.Accounts.Invites.{PlatformAdmin}

-- The condition of the loop of `_issue`.
abbrev pub is_live : ℕ → ℕ → ℕ → TenantPasswordResetToken → Bool
is_live tenant_id user_id now r =
    r.tenant_id == tenant_id
    && (r.tenant_user_id == user_id && (is_none r.used_at && ltb now r.expires_at))

abbrev pub ending : ℕ → TenantPasswordResetToken → TenantPasswordResetToken
ending now r = record r { expires_at = now }

abbrev pub new_token :
    Env → Fresh → Tenant → TenantUser → Option PlatformAdmin → TenantPasswordResetToken
new_token env n t u actor = record {
  id = n.token_id;
  tenant_id = t.id;
  tenant_user_id = u.id;
  requested_by_platform_admin_id = Option.map (λ (a : PlatformAdmin). a.id) actor;
  token_hash = env.hash_token n.raw_token;
  expires_at = n.now + minutes env.tenant_password_reset_minutes;
  used_at = none;
}

abbrev pub reset_email : Env → Fresh → Tenant → TenantUser → DevelopmentEmail
reset_email env n t u =
    let url = env.reset_url t.slug n.raw_token t.subdomain in
    record {
      tenant_id = t.id;
      recipient = u.email;
      subject = env.reset_subject t.display_name;
      body_text = env.reset_body t.display_name url env.tenant_password_reset_minutes;
      action_url = url;
      delivery_state = "captured";
    }

abbrev pub requested_event : Env → Tenant → TenantUser → Option PlatformAdmin → TenantAuditEvent
requested_event env t u actor = record {
  tenant_id = t.id;
  tenant_slug = t.slug;
  tenant_display_name = t.display_name;
  actor_platform_admin_id = Option.map (λ (a : PlatformAdmin). a.id) actor;
  actor_username = or_else (Option.map (λ (a : PlatformAdmin). a.username) actor) env.self_service;
  action = "tenant_password_reset_requested";
  changes =
      reset_requested u.id u.email (if is_some actor then "platform_admin" else "tenant_login");
  request_id = none;
}

-- `_deliver`
abbrev pub deliver : Env → DevelopmentEmail → Action (Unit {0})
deliver env email =
    if env.is_development_outbox
    then write (λ db. record db { emails = db.emails ++ email ∷ [] })
    else raise (reset_error "Tenant email delivery is not configured.")

-- `_issue`
unfoldable pub issue : Env → Fresh → Tenant → TenantUser → Option PlatformAdmin → Action (Unit {0})
issue env n t u actor = do
  raise_if (env.is_development_outbox && not env.is_development_environment)
      (reset_error "The development email outbox is disabled in this environment.")
  write λ db. record db {
    reset_tokens =
        update_rows (is_live t.id u.id n.now) (ending n.now) db.reset_tokens
        ++ new_token env n t u actor ∷ [];
  }
  deliver env (reset_email env n t u)
  add_audit (requested_event env t u actor)
  (if env.commit_fails
      then (do rollback; raise (reset_error "Password reset delivery failed."))
      else commit)

-- The condition of the query of `request_for_email`.
abbrev pub is_addressed : Env → ℕ → ℕ → TenantUser → Bool
is_addressed env tenant_id email u =
    u.tenant_id == tenant_id
    && (env.lower_trim u.email == env.normalize_email email
        && (is_local u.auth_source && u.is_active))

-- The rest of `request_for_email`, by the user that its query returns.
abbrev pub issue_if_found : Env → Fresh → Tenant → Option TenantUser → Action (Unit {0})
issue_if_found env n t none = pure tt
issue_if_found env n t (some u) = issue env n t u none

unfoldable pub request_for_email : Env → Fresh → Tenant → ℕ → Action (Unit {0})
request_for_email env n t email = do
  found ← query (λ db. find (is_addressed env t.id email) db.users)
  issue_if_found env n t found

abbrev not_found : Action (Unit {0})
not_found = raise (reset_error "Tenant administrator was not found.")

-- The rest of `request_by_platform_admin`, by the row of the user.
request_for : Env → Fresh → Tenant → PlatformAdmin → Option TenantUser → Action (Unit {0})
request_for env n t actor none = not_found
request_for env n t actor (some u) =
    if not (u.tenant_id == t.id) || not (is_admin u.role) then not_found else (do
      raise_if (not (is_local u.auth_source))
          (reset_error "Password is managed by the identity provider.")
      raise_if (not u.is_active)
          (reset_error "Password reset is unavailable for an inactive administrator.")
      issue env n t u (some actor))

unfoldable pub request_by_platform_admin :
    Env → Fresh → Tenant → ℕ → PlatformAdmin → Action (Unit {0})
unfolding request_for
request_by_platform_admin env n t user_id actor = do
  found ← query (get_user user_id)
  request_for env n t actor found

-- `validate_local_password` of backend/app/core/password_policy.py refuses fewer characters.
abbrev pub platform_password_min_length : ℕ
platform_password_min_length = 12

-- The condition of the query of `reset`.
abbrev pub is_usable_token : ℕ → ℕ → ℕ → TenantPasswordResetToken → Bool
is_usable_token tenant_id token_hash now r =
    r.tenant_id == tenant_id
    && (r.token_hash == token_hash && (is_none r.used_at && ltb now r.expires_at))

abbrev pub renewed : Env → ℕ → TenantUser → TenantUser
renewed env password u = record u {
  password_hash = some (env.hash_password password);
  failed_login_attempts = 0;
  locked = false;
}

abbrev pub spent : ℕ → TenantPasswordResetToken → TenantPasswordResetToken
spent now r = record r { used_at = some now }

-- The truth of an id that may be None; `user.username or user.email`.
abbrev pub completed_event : Env → Tenant → TenantUser → TenantPasswordResetToken → TenantAuditEvent
completed_event env t u r = record {
  tenant_id = t.id;
  tenant_slug = t.slug;
  tenant_display_name = t.display_name;
  actor_platform_admin_id = r.requested_by_platform_admin_id;
  actor_username =
      if is_some r.requested_by_platform_admin_id
      then env.platform_admin_reset
      else if has_text u.username
      then or_else u.username 0
      else u.email;
  action = "tenant_password_reset_completed";
  changes = reset_completed u.id u.email;
  request_id = none;
}

abbrev pub invalid_link : Action (Unit {0})
invalid_link = raise (reset_error "This password reset link is invalid or has expired.")

-- The rest of `reset`, by the row of the token's user.
unfoldable pub apply :
    Env → Tenant → ℕ → ℕ → TenantPasswordResetToken → Option TenantUser → Action (Unit {0})
apply env t password now r none = invalid_link
apply env t password now r (some u) =
    if not (u.tenant_id == t.id) || (not (is_local u.auth_source) || not u.is_active)
    then invalid_link
    else (do
      modify_user u.id (renewed env password)
      write λ db. record db {
        reset_tokens = update_rows (λ x. x.id == r.id) (spent now) db.reset_tokens;
      }
      add_audit (completed_event env t u r)
      save env)

-- The rest of `reset`, by the token that its query returns.
unfoldable pub redeem : Env → Tenant → ℕ → ℕ → Option TenantPasswordResetToken → Action (Unit {0})
unfolding apply
redeem env t password now none = invalid_link
redeem env t password now (some r) = do
  found ← query (get_user r.tenant_user_id)
  apply env t password now r found

unfoldable pub reset : Env → Tenant → ℕ → ℕ → ℕ → Action (Unit {0})
unfolding redeem
reset env t raw_token new_password now = do
  raise_if (ltb (env.length_of new_password) platform_password_min_length)
      (reset_error "Password must be at least 12 characters.")
  found ← query (λ db. find (is_usable_token t.id (env.hash_token raw_token) now) db.reset_tokens)
  redeem env t new_password now found
