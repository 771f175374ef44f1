-- ===== src/Platform/Types.antt =====
-- The rows of backend/app/models/platform_admin.py and platform_admin_invite.py, and the queries of
-- platform_admin_repository.py and platform_admin_invite_repository.py. UUIDs, texts, hashes and
-- timestamps are natural numbers, with the empty text 0.
use peka_saas.Common.{
  ℕ, String, Bool, true, false, Option, List, [], ◌∷◌, ◌++◌, ◌&&◌, ◌==◌, is_none, is_some, find,
  update_rows, count_rows, if◌then◌else◌,
}
use peka_saas.Common.Exec.{Exec, Session, ◌>>◌, raise, write, commit, rollback}

pub data PlatformAdminRole : Type 0 where
  platform_admin platform_readonly : PlatformAdminRole

pub record PlatformAdmin : Type 0 where
  pub id : ℕ
  pub username : ℕ
  pub email : ℕ
  pub password_hash : Option ℕ
  pub full_name : ℕ
  pub last_login_at : Option ℕ
  pub failed_login_attempts : ℕ
  pub locked : Bool
  pub is_active : Bool
  pub is_super_admin : Bool
  pub role : PlatformAdminRole

pub data PlatformAdminInvitePurpose : Type 0 where
  setup password_reset : PlatformAdminInvitePurpose

pub record PlatformAdminInvite : Type 0 where
  pub id : ℕ
  pub user_id : ℕ
  pub token_hash : ℕ
  pub purpose : PlatformAdminInvitePurpose
  pub expires_at : ℕ
  pub used_at : Option ℕ
  pub created_by_platform_admin_id : ℕ

pub record Db : Type 0 where
  pub admins : List PlatformAdmin
  pub invites : List PlatformAdminInvite

-- `sha256` of a token, `hash_password`, `verify_password` (none where it raises), `len`, the builder
-- of links, and whether the database refuses the commit.
pub record Env : Type 0 where
  pub hash_token : ℕ → ℕ
  pub hash_password : ℕ → ℕ
  pub verify_password : ℕ → ℕ → Option Bool
  pub length_of : ℕ → ℕ
  pub reset_link : ℕ → ℕ
  pub commit_fails : Bool

-- The clock, the ids of the rows that a call adds, and a new random token.
pub record Fresh : Type 0 where
  pub now : ℕ
  pub id : ℕ
  pub token_id : ℕ
  pub raw_token : ℕ

-- `PlatformUserError`, `PlatformAdminRecoveryError`, and other exceptions.
pub data PlatformError : Type 0 where
  user_error recovery_error : String → PlatformError
  verify_error database_error : PlatformError

abbrev pub Action : Type 0 → Type 0
Action = Exec (Session Db) PlatformError

-- `commit()` without a handler, and under `except Exception: rollback(); raise`.
abbrev pub save : Env → Action (Unit {0})
save env s = if env.commit_fails then raise database_error s else commit s

abbrev pub save_or_rollback : Env → PlatformError → Action (Unit {0})
save_or_rollback env e s = if env.commit_fails then (do rollback; raise e) s else commit s

abbrev pub is_admin : PlatformAdminRole → Bool
is_admin platform_admin = true
is_admin platform_readonly = false

unfoldable pub same_purpose : PlatformAdminInvitePurpose → PlatformAdminInvitePurpose → Bool
same_purpose setup setup = true
same_purpose password_reset password_reset = true
same_purpose _ _ = false

abbrev pub get_by_id : ℕ → Db → Option PlatformAdmin
get_by_id id db = find (λ u. u.id == id) db.admins

abbrev pub get_by_username : ℕ → Db → Option PlatformAdmin
get_by_username username db = find (λ u. u.username == username) db.admins

abbrev pub get_by_email : ℕ → Db → Option PlatformAdmin
get_by_email email db = find (λ u. u.email == email) db.admins

abbrev pub exists_by_username : ℕ → Db → Bool
exists_by_username username db = is_some (get_by_username username db)

abbrev pub exists_by_email : ℕ → Db → Bool
exists_by_email email db = is_some (get_by_email email db)

abbrev pub is_active_admin : PlatformAdmin → Bool
is_active_admin u = u.is_active && is_admin u.role

abbrev pub count_active_admins : Db → ℕ
count_active_admins db = count_rows is_active_admin db.admins

abbrev pub get_by_token_hash : ℕ → Db → Option PlatformAdminInvite
get_by_token_hash token_hash db = find (λ i. i.token_hash == token_hash) db.invites

-- The condition of `get_unused`.
abbrev pub is_unused : ℕ → PlatformAdminInvitePurpose → PlatformAdminInvite → Bool
is_unused user_id purpose i =
    i.user_id == user_id && (same_purpose i.purpose purpose && is_none i.used_at)

abbrev pub modify_admin : ℕ → (PlatformAdmin → PlatformAdmin) → Action (Unit {0})
modify_admin id f = write λ db. record db { admins = update_rows (λ u. u.id == id) f db.admins }

abbrev pub add_admin : PlatformAdmin → Action (Unit {0})
add_admin u = write λ db. record db { admins = db.admins ++ u ∷ [] }
