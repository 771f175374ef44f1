-- ===== src/Platform/Admins.antt =====
-- The last active administrator of the platform, under the calls that write administrators.
use peka_saas.Common.{
  ℕ, ◌≡◌, ◌≢◌, inl, inr, refl, Bool, true, false, arith, All, Any, ◌==◌, ◌&&◌, not, Bool-cases,
}
use peka_saas.Common.Exec.{begin}
use peka_saas.Common.Guarded.{IsManned, Touched-IsManned, Added-IsManned, Wrote-IsManned, left_out}
use peka_saas.Platform.Types.{PlatformAdmin, Db, Env, Fresh, is_active_admin, count_active_admins}
use peka_saas.Platform.Users.{
  PlatformUserCreate, PlatformUserUpdate, create, new_admin, update, updated, gives_up_last,
  set_active, with_active, is_last, consume_reset, restored, change_password, with_password,
}
use peka_saas.Platform.Login.{create_admin, created_admin, authenticate, logged_in, failed}
use peka_saas.Platform.Recovery.{reset_password}
use peka_saas.Platform.Users.Writes.{
  Wrote, create-Added, update-Wrote, set_active-Wrote, consume_reset-Touched,
  change_password-Touched,
}
use peka_saas.Platform.Logins.{create_admin-Added, reset_password-Touched, authenticate-Logged}

abbrev pub key : PlatformAdmin → ℕ
key u = u.id

-- The acting administrator is in the table, active and in the role.
abbrev pub IsActing : ℕ → Db → Type 0
IsActing id d = Any (λ u. (u.id ≡ id) × (is_active_admin u ≡ true)) d.admins

-- A call that writes administrators, from the committed tables `d` to those it leaves. A new row
-- has an id of its own, and the one who changes another's role is an active administrator.
pub data Change (env : Env) (d : Db) : Db → Type 0 where
  creates :
      (n : Fresh) (p : PlatformUserCreate) (actor_id : ℕ)
      → All (λ u. u.id ≢ n.id) d.admins
      → Change env d (create env n p actor_id (begin d)).1.committed
  first :
      (n : Fresh) (username email password full_name : ℕ) (super : Bool)
      → All (λ u. u.id ≢ n.id) d.admins
      → Change env d
          (create_admin env n username email password full_name super (begin d)).1.committed
  updates :
      (user_id : ℕ) (p : PlatformUserUpdate) (actor_id : ℕ)
      → IsActing actor_id d
      → Change env d (update env user_id p actor_id (begin d)).1.committed
  actives :
      (user_id : ℕ) (active : Bool) (actor_id : ℕ)
      → Change env d (set_active env user_id active actor_id (begin d)).1.committed
  resets :
      (raw password now : ℕ)
      → Change env d (consume_reset env raw password now (begin d)).1.committed
  passwords :
      (u : PlatformAdmin) (current new : ℕ)
      → Change env d (change_password env u current new (begin d)).1.committed
  logins :
      (username password now : ℕ)
      → Change env d (authenticate env username password now (begin d)).1.committed
  recoveries :
      (u : PlatformAdmin) (password : ℕ)
      → Change env d (reset_password env u password (begin d)).1.committed

-- The administrators have different ids, and one is active.
abbrev pub IsManaged : Db → Type 0
IsManaged d = IsManned key is_active_admin d.admins

module _ (d e : Db) (h : IsManaged d) where
  updates-IsManaged :
      (p : PlatformUserUpdate) (actor_id : ℕ)
      → IsActing actor_id d
      → Wrote (updated p) (λ u. gives_up_last p actor_id u (count_active_admins d) ≡ false) d e
      → IsManaged e
  updates-IsManaged p actor_id acting =
      Wrote-IsManned key is_active_admin d.admins e.admins h (updated p)
        (λ u. gives_up_last p actor_id u (count_active_admins d) ≡ false) (λ u. refl)
        (λ u guard a b. elim (Bool-cases (u.id == actor_id)) [
          | inl e ↦ inl (ground arith)
          | inr e ↦ inr (
              left_out key is_active_admin u.id actor_id (updated p) d.admins (ground arith) acting)
        ])

-- Whatever call of the services writes administrators, and whoever changes a role being an active
-- administrator: where administrators have different ids, they still do, and where one of them is
-- active, one still is.
pub Change_keeps_admin : (env : Env) (d e : Db) → Change env d e → IsManaged d → IsManaged e
Change_keeps_admin env d e (creates n p actor_id fresh) h =
    Added-IsManned key is_active_admin d.admins e.admins h (new_admin n p) fresh
      (create-Added env d n p actor_id)
Change_keeps_admin env d e (first n username email password full_name super fresh) h =
    Added-IsManned key is_active_admin d.admins e.admins h
      (created_admin env n username email password full_name super) fresh
      (create_admin-Added env d n username email password full_name super)
Change_keeps_admin env d e (updates user_id p actor_id acting) h =
    updates-IsManaged d e h p actor_id acting (update-Wrote env d user_id p actor_id)
Change_keeps_admin env d e (actives user_id active actor_id) h =
    Wrote-IsManned key is_active_admin d.admins e.admins h (with_active active)
      (λ u. (not active && is_last u (count_active_admins d)) ≡ false) (λ u. refl)
      (λ u p a b. inl (ground arith)) (set_active-Wrote env d user_id active actor_id)
Change_keeps_admin env d e (resets raw password now) h =
    Touched-IsManned key is_active_admin d.admins e.admins h (restored env password) (λ u. refl)
      (λ u a. ground arith) (consume_reset-Touched env d raw password now)
Change_keeps_admin env d e (passwords u current new) h =
    Touched-IsManned key is_active_admin d.admins e.admins h (with_password env new) (λ u. refl)
      (λ u a. a) (change_password-Touched env d u current new)
Change_keeps_admin env d e (logins username password now) h =
    elim (authenticate-Logged env d username password now) [
      | inl touched ↦
          Touched-IsManned key is_active_admin d.admins e.admins h failed (λ u. refl) (λ u a. a)
            touched
      | inr touched ↦
          Touched-IsManned key is_active_admin d.admins e.admins h (logged_in now) (λ u. refl)
            (λ u a. a) touched
    ]
Change_keeps_admin env d e (recoveries u password) h =
    Touched-IsManned key is_active_admin d.admins e.admins h (restored env password) (λ u. refl)
      (λ u a. ground arith) (reset_password-Touched env d u password)
