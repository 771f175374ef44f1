-- ===== src/Accounts/Users/Admins.antt =====
-- The last active administrator of a tenant, under the calls of the services that write users.
use peka_saas.Common.{ℕ, ◌≡◌, ◌≢◌, inl, inr, refl, Bool, false, some, arith, All, ◌&&◌, not}
use peka_saas.Common.Exec.{begin}
use peka_saas.Common.Guarded.{IsManned, Touched-IsManned, Added-IsManned, Wrote-IsManned}
use peka_saas.Accounts.Types.{TenantUser, Tenant, TenantUserRole, is_admin}
use peka_saas.Accounts.Repository.{Db, Env, Fresh, is_active_admin, count_active_admins}
use peka_saas.Accounts.Users.{
  TenantUserCreate, create, new_user, set_role, set_active, with_role, with_active, is_last,
  change_password,
}
use peka_saas.Accounts.Activation.{activate, activated, first_admin}
use peka_saas.Accounts.Login.{authenticate, failed, logged_in}
use peka_saas.Accounts.Passwords.{is_usable_token, renewed}
use peka_saas.Accounts.Passwords
use peka_saas.Accounts.Users.Writes.{
  set_role-Wrote, set_active-Wrote, authenticate-Touched, change_password-Touched, reset-Touched,
  create-Added, activate-Activated,
}

abbrev pub key : TenantUser → ℕ
key u = u.id

-- A call of the services that writes users, from the committed tables `d` to the committed tables
-- it leaves. A new row has an id of its own.
pub data Change (env : Env) (d : Db) : Db → Type 0 where
  creates :
      (n : Fresh) (tenant_id : ℕ) (p : TenantUserCreate)
      → All (λ u. u.id ≢ n.id) d.users
      → Change env d (create env n tenant_id p (begin d)).1.committed
  roles :
      (tenant_id user_id : ℕ) (role : TenantUserRole)
      → Change env d (set_role env tenant_id user_id role (begin d)).1.committed
  actives :
      (tenant_id user_id : ℕ) (active : Bool) (actor_id : ℕ)
      → Change env d (set_active env tenant_id user_id active actor_id (begin d)).1.committed
  passwords :
      (u : TenantUser) (current new : ℕ)
      → Change env d (change_password env u current new (begin d)).1.committed
  activations :
      (n : Fresh) (token password tenant_id : ℕ)
      → All (λ u. u.id ≢ n.id) d.users
      → Change env d (activate env n token password tenant_id (begin d)).1.committed
  logins :
      (tenant_id username password now : ℕ)
      → Change env d (authenticate env tenant_id username password now (begin d)).1.committed
  resets :
      (t : Tenant) (raw password now : ℕ)
      → Change env d (Passwords.reset env t raw password now (begin d)).1.committed

-- The users have different ids, and the tenant has an active administrator.
abbrev pub IsManaged : ℕ → Db → Type 0
IsManaged tenant_id d = IsManned key (is_active_admin tenant_id) d.users

-- Whatever call of the services writes users: where users have different ids, they still do, and a
-- tenant that has an active administrator still has one.
pub Change-IsManaged :
    (env : Env) (t : ℕ) (d e : Db) → Change env d e → IsManaged t d → IsManaged t e
Change-IsManaged env t d e (creates n tenant_id p fresh) h =
    Added-IsManned key (is_active_admin t) d.users e.users h (new_user env n tenant_id p) fresh
      (create-Added env d n tenant_id p)
Change-IsManaged env t d e (roles tenant_id user_id role) h =
    Wrote-IsManned key (is_active_admin t) d.users e.users h (with_role role)
      (λ u.
        (u.tenant_id ≡ tenant_id)
        × ((not (is_admin role) && is_last u (count_active_admins tenant_id d)) ≡ false))
      (λ u. refl) (λ u p a b. inl (ground arith)) (set_role-Wrote env d tenant_id user_id role)
Change-IsManaged env t d e (actives tenant_id user_id active actor_id) h =
    Wrote-IsManned key (is_active_admin t) d.users e.users h (with_active active)
      (λ u.
        (u.tenant_id ≡ tenant_id)
        × ((not active && is_last u (count_active_admins tenant_id d)) ≡ false))
      (λ u. refl) (λ u p a b. inl (ground arith))
      (set_active-Wrote env d tenant_id user_id active actor_id)
Change-IsManaged env t d e (passwords u current new) h =
    Touched-IsManned key (is_active_admin t) d.users e.users h
      (λ r. record r { password_hash = some (env.hash_password new) }) (λ u. refl) (λ u a. a)
      (change_password-Touched env d u current new)
Change-IsManaged env t d e (activations n token password tenant_id fresh) h =
    elim (activate-Activated env d n token password tenant_id) [
      | inl touched ↦
          Touched-IsManned key (is_active_admin t) d.users e.users h (activated env password)
            (λ u. refl) (λ u a. ground arith) touched
      | inr (i, tenant, added) ↦
          Added-IsManned key (is_active_admin t) d.users e.users h
            (first_admin env n password i tenant) fresh added
    ]
Change-IsManaged env t d e (logins tenant_id username password now) h =
    elim (authenticate-Touched env d tenant_id username password now) [
      | inl touched ↦
          Touched-IsManned key (is_active_admin t) d.users e.users h failed (λ u. refl) (λ u a. a)
            touched
      | inr touched ↦
          Touched-IsManned key (is_active_admin t) d.users e.users h (logged_in now) (λ u. refl)
            (λ u a. a) touched
    ]
Change-IsManaged env t d e (resets tenant raw password now) h =
    Touched-IsManned key (is_active_admin t) d.users e.users h (renewed env password) (λ u. refl)
      (λ u a. a) (reset-Touched env d tenant raw password now)
