-- ===== src/Platform/Users.antt =====
-- `PlatformUserService` of backend/app/services/platform_user_service.py. The acting administrator is
-- given by its id.
pub mod Writes
use peka_saas.Common.{
  ℕ, ◌+◌, ◌*◌, Bool, true, false, Option, none, some, List, [], ◌∷◌, ◌++◌, ◌&&◌, ◌||◌, not, leb,
  ltb, ◌==◌, is_some, update_rows, if◌then◌else◌, or_else,
}
use peka_saas.Common.Exec.{◌>>=◌, ◌>>◌, pure, raise, raise_if, query, write, rollback}
use peka_saas.Accounts.Types.{has_text}
use peka_saas.Platform.Types.{
  PlatformAdmin, PlatformAdminRole, PlatformAdminInvite, PlatformAdminInvitePurpose, setup,
  password_reset, Db, Env, Fresh, Action, user_error, verify_error, database_error, save,
  save_or_rollback, is_admin, get_by_id, get_by_email, exists_by_username, exists_by_email,
  count_active_admins, get_by_token_hash, is_unused, modify_admin, add_admin,
}

pub record PlatformUserCreate : Type 0 where
  pub username : ℕ
  pub email : ℕ
  pub full_name : ℕ
  pub role : PlatformAdminRole

pub record PlatformUserUpdate : Type 0 where
  pub email : ℕ
  pub full_name : ℕ
  pub role : PlatformAdminRole

pub record PlatformInvitationResponse : Type 0 where
  pub user : PlatformAdmin
  pub setup_link : ℕ
  pub expires_at : ℕ

-- The user of `get`, by the row of its id.
abbrev pub found_or_raise : Option PlatformAdmin → Action PlatformAdmin
found_or_raise none = raise (user_error "Platform user was not found.")
found_or_raise (some u) = pure u

abbrev pub get : ℕ → Action PlatformAdmin
get user_id = do found ← query (get_by_id user_id); found_or_raise found

abbrev pub new_invite : Env → Fresh → ℕ → ℕ → PlatformAdminInvitePurpose → PlatformAdminInvite
new_invite env n user_id actor_id purpose = record {
  id = n.token_id;
  user_id = user_id;
  token_hash = env.hash_token n.raw_token;
  purpose = purpose;
  expires_at = n.now + 24 * 3600000000;
  used_at = none;
  created_by_platform_admin_id = actor_id;
}

abbrev pub expiring : ℕ → PlatformAdminInvite → PlatformAdminInvite
expiring now i = record i { expires_at = now }

-- `_new_invite`
abbrev pub invite : Env → Fresh → ℕ → ℕ → PlatformAdminInvitePurpose → Action PlatformAdminInvite
invite env n user_id actor_id purpose = do
  write λ db. record db {
    invites =
        update_rows (is_unused user_id purpose) (expiring n.now) db.invites
        ++ new_invite env n user_id actor_id purpose ∷ [];
  }
  pure (new_invite env n user_id actor_id purpose)

abbrev pub new_admin : Fresh → PlatformUserCreate → PlatformAdmin
new_admin n p = record {
  id = n.id;
  username = p.username;
  email = p.email;
  password_hash = none;
  full_name = p.full_name;
  last_login_at = none;
  failed_login_attempts = 0;
  locked = false;
  is_active = false;
  is_super_admin = false;
  role = p.role;
}

abbrev pub invitation :
    Env → Fresh → PlatformAdmin → PlatformAdminInvite → PlatformInvitationResponse
invitation env n u i = record {
  user = u;
  setup_link = env.reset_link n.raw_token;
  expires_at = i.expires_at;
}

unfoldable pub create : Env → Fresh → PlatformUserCreate → ℕ → Action PlatformInvitationResponse
create env n p actor_id = do
  by_name ← query (exists_by_username p.username)
  by_email ← query (exists_by_email p.email)
  raise_if (by_name || by_email) (user_error "Username or email is already in use.")
  add_admin (new_admin n p)
  i ← invite env n n.id actor_id setup
  save_or_rollback env database_error
  pure (invitation env n (new_admin n p) i)

abbrev pub updated : PlatformUserUpdate → PlatformAdmin → PlatformAdmin
updated p u = record u { email = p.email; full_name = p.full_name; role = p.role }

-- `existing is not None and existing.id != user.id`
abbrev pub is_other : ℕ → Option PlatformAdmin → Bool
is_other id none = false
is_other id (some u) = not (u.id == id)

-- The condition under which an administrator is kept from giving the role up.
abbrev pub gives_up_last : PlatformUserUpdate → ℕ → PlatformAdmin → ℕ → Bool
gives_up_last p actor_id u admins =
    u.id == actor_id && (is_admin u.role && (not (is_admin p.role) && leb admins 1))

unfoldable pub update : Env → ℕ → PlatformUserUpdate → ℕ → Action PlatformAdmin
update env user_id p actor_id = do
  u ← get user_id
  admins ← query count_active_admins
  raise_if (gives_up_last p actor_id u admins)
      (user_error "The last active platform administrator cannot remove their own admin role.")
  existing ← query (get_by_email p.email)
  raise_if (is_other u.id existing) (user_error "Email is already in use.")
  modify_admin u.id (updated p)
  save env
  pure (updated p u)

abbrev pub with_active : Bool → PlatformAdmin → PlatformAdmin
with_active active u = record u { is_active = active }

-- The condition that keeps the last administrator active.
abbrev pub is_last : PlatformAdmin → ℕ → Bool
is_last u admins = is_admin u.role && (u.is_active && leb admins 1)

unfoldable pub set_active : Env → ℕ → Bool → ℕ → Action PlatformAdmin
set_active env user_id active actor_id = do
  u ← get user_id
  raise_if (not active && u.id == actor_id) (user_error "You cannot deactivate your own account.")
  admins ← query count_active_admins
  raise_if (not active && is_last u admins)
      (user_error "The last active platform administrator cannot be deactivated.")
  modify_admin u.id (with_active active)
  save env
  pure (with_active active u)

unfoldable pub reset_password : Env → Fresh → ℕ → ℕ → Action PlatformInvitationResponse
reset_password env n user_id actor_id = do
  u ← get user_id
  i ← invite env n u.id actor_id password_reset
  save_or_rollback env database_error
  pure (invitation env n u i)

-- `validate_platform_password` refuses fewer than twelve characters.
abbrev pub is_short : Env → ℕ → Bool
is_short env password = ltb (env.length_of password) 12

abbrev pub policy_message : Action (Unit {0})
policy_message = do rollback; raise (user_error "Password must be at least 12 characters.")

-- The assignments to the user of a reset.
abbrev pub restored : Env → ℕ → PlatformAdmin → PlatformAdmin
restored env password u = record u {
  password_hash = some (env.hash_password password);
  is_active = true;
  locked = false;
  failed_login_attempts = 0;
}

abbrev pub used : ℕ → PlatformAdminInvite → PlatformAdminInvite
used now i = record i { used_at = some now }

-- The `try` block of `consume_reset`.
abbrev pub restore : Env → ℕ → ℕ → PlatformAdminInvite → PlatformAdmin → Action (Unit {0})
restore env password now i u s =
    if is_short env password
    then policy_message s
    else (do
      modify_admin u.id (restored env password)
      write λ db. record db { invites = update_rows (λ x. x.id == i.id) (used now) db.invites }
      save_or_rollback env database_error)
        s

-- `consume_reset`, by the invitation of the token.
consume : Env → ℕ → ℕ → Option PlatformAdminInvite → Action (Unit {0})
consume env password now none = raise (user_error "Invalid or already used password setup token.")
consume env password now (some i) = do
  raise_if (is_some i.used_at) (user_error "Invalid or already used password setup token.")
  raise_if (leb i.expires_at now) (user_error "Password setup token has expired.")
  u ← get i.user_id
  restore env password now i u

unfoldable pub consume_reset : Env → ℕ → ℕ → ℕ → Action (Unit {0})
unfolding consume
consume_reset env raw_token password now = do
  found ← query (get_by_token_hash (env.hash_token raw_token))
  consume env password now found

-- `verify_password`, which may raise.
abbrev pub verify : Env → ℕ → ℕ → Action Bool
verify env password hash = elim (env.verify_password password hash) [
  | none ↦ raise verify_error
  | some b ↦ pure b
]

-- `not user.password_hash or not verify_password(…)`
abbrev pub is_wrong : Env → ℕ → Option ℕ → Action Bool
is_wrong env password hash =
    if has_text hash then (do b ← verify env password (or_else hash 0); pure (not b)) else pure true

abbrev pub with_password : Env → ℕ → PlatformAdmin → PlatformAdmin
with_password env password u = record u { password_hash = some (env.hash_password password) }

-- The `try` block of `change_password`.
abbrev pub set_password : Env → PlatformAdmin → ℕ → Action (Unit {0})
set_password env u password s =
    if is_short env password
    then policy_message s
    else (do modify_admin u.id (with_password env password); save_or_rollback env database_error) s

unfoldable pub change_password : Env → PlatformAdmin → ℕ → ℕ → Action (Unit {0})
change_password env u current new = do
  wrong ← is_wrong env current u.password_hash
  raise_if wrong (user_error "Current password is incorrect.")
  same ← verify env new (or_else u.password_hash 0)
  raise_if same (user_error "New password must be different from the current password.")
  set_password env u new
