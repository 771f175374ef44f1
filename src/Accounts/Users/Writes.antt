-- ===== src/Accounts/Users/Writes.antt =====
-- What the calls of the services write to the users.
use peka_saas.Common.{
  ℕ, ◌≡◌, ◌⊎◌, inl, inr, refl, sym, subst, Bool, false, Option, none, some, arith, Any, ◌==◌, ◌&&◌,
  not, Option-cases, Bool-cases, find, is_some, ltb,
}
use peka_saas.Common.Guarded
use peka_saas.Common.Exec.{begin, is_ok, Result, Session}
use peka_saas.Common.Keyed.{find-Any}
use peka_saas.Accounts.Types.{TenantUser, Tenant, TenantAdminInvite, TenantUserRole, is_admin}
use peka_saas.Accounts.Repository.{
  Db, Env, Fresh, AccountError, get_user, count_active_admins, get_by_tenant_and_username,
  get_by_token_hash, get_tenant,
}
use peka_saas.Accounts.Users.{
  TenantUserCreate, create, new_user, is_taken, set_role, set_active, with_role, with_active,
  is_last, change_password,
}
use peka_saas.Accounts.Activation.{
  activate, redeem, activate_for, activate_user, activate_admin, activated, first_admin,
}
use peka_saas.Accounts.Login.{
  authenticate, check, authenticate-check, is_usable, is_valid, failed, logged_in,
}
use peka_saas.Accounts.Passwords.{is_usable_token, renewed}
use peka_saas.Accounts.Passwords

-- A guarded write to a row that the call found, a write to the rows of an id, and a new row; or the
-- table as it was.
abbrev pub Wrote : (TenantUser → TenantUser) → (TenantUser → Type 0) → Db → Db → Type 0
Wrote f P d e = Guarded.Wrote (λ u. u.id) f P d.users e.users

abbrev pub Touched : (TenantUser → TenantUser) → Db → Db → Type 0
Touched f d e = Guarded.Touched (λ u. u.id) f d.users e.users

abbrev pub Added : TenantUser → Db → Db → Type 0
Added u d e = Guarded.Added (λ u. u.id) u d.users e.users

abbrev found_user :
    (id : ℕ) (d : Db) (u : TenantUser) → get_user id d ≡ some u → Any (λ x. x ≡ u) d.users
found_user id d u e = find-Any (λ x. x.id == id) d.users u e

module _ (env : Env) (d : Db) where
  pub set_role-Wrote :
      (tenant_id user_id : ℕ) (role : TenantUserRole)
      → Wrote
          (with_role role)
          (λ u.
            (u.tenant_id ≡ tenant_id)
            × ((not (is_admin role) && is_last u (count_active_admins tenant_id d)) ≡ false))
          d
          (set_role env tenant_id user_id role (begin d)).1.committed
  unfolding set_role
  set_role-Wrote tenant_id user_id role = elim (Option-cases (get_user user_id d)) [
    | inl e ↦ inl (ground arith)
    | inr (u, e) ↦
        elim (Bool-cases (
          u.tenant_id == tenant_id
          && (not env.commit_fails
              && not (not (is_admin role) && is_last u (count_active_admins tenant_id d))))) [
                | inr e' ↦ inl (ground arith)
                | inl e' ↦
                    inr (u, found_user user_id d u e, (ground arith, ground arith), ground arith)
              ]
  ]

  pub set_active-Wrote :
      (tenant_id user_id : ℕ) (active : Bool) (actor_id : ℕ)
      → Wrote
          (with_active active)
          (λ u.
            (u.tenant_id ≡ tenant_id)
            × ((not active && is_last u (count_active_admins tenant_id d)) ≡ false))
          d
          (set_active env tenant_id user_id active actor_id (begin d)).1.committed
  unfolding set_active
  set_active-Wrote tenant_id user_id active actor_id = elim (Option-cases (get_user user_id d)) [
    | inl e ↦ inl (ground arith)
    | inr (u, e) ↦
        elim (Bool-cases (
          u.tenant_id == tenant_id
          && (not env.commit_fails
              && (not (not active && u.id == actor_id)
                  && not (not active && is_last u (count_active_admins tenant_id d)))))) [
                    | inr e' ↦ inl (ground arith)
                    | inl e' ↦
                        inr
                          (u, found_user user_id d u e, (ground arith, ground arith), ground arith)
                  ]
  ]

module _ (env : Env) (d : Db) where
  check-Touched :
      (password now : ℕ) (found : Option TenantUser)
      → Touched failed d (check env password now found (begin d)).1.committed
        ⊎ Touched (logged_in now) d (check env password now found (begin d)).1.committed
  unfolding check
  check-Touched password now none = inl (inl refl)
  check-Touched password now (some u) = elim (Bool-cases (is_usable u && not env.commit_fails)) [
    | inr e ↦ inl (inl (ground arith))
    | inl e ↦ elim (Bool-cases (is_valid env password u.password_hash)) [
      | inl e' ↦ inr (inr (u.id, ground arith))
      | inr e' ↦ inl (inr (u.id, ground arith))
    ]
  ]

  pub authenticate-Touched :
      (tenant_id username password now : ℕ)
      → Touched failed d (authenticate env tenant_id username password now (begin d)).1.committed
        ⊎ Touched
            (logged_in now)
            d
            (authenticate env tenant_id username password now (begin d)).1.committed
  authenticate-Touched tenant_id username password now =
      let found : Option TenantUser = get_by_tenant_and_username tenant_id username d in
      subst
        (λ (r : Result AccountError TenantUser × Session Db).
          Touched failed d r.1.committed ⊎ Touched (logged_in now) d r.1.committed)
        (sym (authenticate-check env tenant_id username password now (begin d) found refl))
        (check-Touched password now found)

  pub change_password-Touched :
      (u : TenantUser) (current new : ℕ)
      → Touched
          (λ r. record r { password_hash = some (env.hash_password new) })
          d
          (change_password env u current new (begin d)).1.committed
  unfolding change_password
  change_password-Touched u current new =
      elim (Bool-cases (is_ok (change_password env u current new (begin d)).0)) [
        | inl e ↦ inr (u.id, ground arith)
        | inr e ↦ inl (ground arith)
      ]

  pub reset-Touched :
      (t : Tenant) (raw password now : ℕ)
      → Touched
          (renewed env password)
          d
          (Passwords.reset env t raw password now (begin d)).1.committed
  unfolding Passwords.reset
  reset-Touched t raw password now =
      elim (Option-cases (find (is_usable_token t.id (env.hash_token raw) now) d.reset_tokens)) [
        | inl e ↦ inl (ground arith)
        | inr (r, e) ↦ elim (Option-cases (get_user r.tenant_user_id d)) [
          | inl e' ↦ inl (ground arith)
          | inr (u, e') ↦
              elim (Bool-cases (is_ok (Passwords.reset env t raw password now (begin d)).0)) [
                | inl e'' ↦ inr (u.id, ground arith)
                | inr e'' ↦ inl (ground arith)
              ]
        ]
      ]

  pub create-Added :
      (n : Fresh) (tenant_id : ℕ) (p : TenantUserCreate)
      → Added (new_user env n tenant_id p) d (create env n tenant_id p (begin d)).1.committed
  unfolding create
  create-Added n tenant_id p =
      elim (Bool-cases (not (is_taken env tenant_id p d) && not env.commit_fails)) [
        | inl e ↦ inr (ground arith)
        | inr e ↦ inl (ground arith)
      ]

  activate_user-Touched :
      (n : Fresh) (password tenant_id : ℕ) (i : TenantAdminInvite) (found : Option TenantUser)
      → Touched
          (activated env password)
          d
          (activate_user env n password tenant_id i found (begin d)).1.committed
  activate_user-Touched n password tenant_id i none = inl refl
  activate_user-Touched n password tenant_id i (some u) =
      elim (Bool-cases (u.tenant_id == tenant_id && not env.commit_fails)) [
        | inl e ↦ inr (u.id, ground arith)
        | inr e ↦ inl (ground arith)
      ]

  activate_admin-Added :
      (n : Fresh) (password : ℕ) (i : TenantAdminInvite) (t : Tenant)
      → Added
          (first_admin env n password i t)
          d
          (activate_admin env n password i t (begin d)).1.committed
  activate_admin-Added n password i t =
      elim (Bool-cases (is_ok (activate_admin env n password i t (begin d)).0)) [
        | inl e ↦ inr (ground arith)
        | inr e ↦ inl (ground arith)
      ]

  -- What an activation writes.
  abbrev pub Activated : Fresh → ℕ → Db → Type 0
  Activated n password e =
      Touched (activated env password) d e
      ⊎ ((i : TenantAdminInvite) × (t : Tenant) × Added (first_admin env n password i t) d e)

  activate_for-Activated :
      (n : Fresh) (password tenant_id : ℕ) (i : TenantAdminInvite) (t : Option Tenant)
      (user : Option ℕ)
      → Activated n password (activate_for env n password tenant_id i t user (begin d)).1.committed
  unfolding activate_for
  activate_for-Activated n password tenant_id i none user = inl (inl refl)
  activate_for-Activated n password tenant_id i (some t) none =
      elim (Bool-cases (t.id == tenant_id)) [
        | inl e ↦ inr (i, t, rw e (activate_admin-Added n password i t))
        | inr e ↦ inl (inl (rw e refl))
      ]
  activate_for-Activated n password tenant_id i (some t) (some user_id) =
      elim (Bool-cases (t.id == tenant_id)) [
        | inl e ↦ inl (rw e (activate_user-Touched n password tenant_id i (get_user user_id d)))
        | inr e ↦ inl (inl (rw e refl))
      ]

  redeem-Activated :
      (n : Fresh) (password tenant_id : ℕ) (found : Option TenantAdminInvite)
      → Activated n password (redeem env n password tenant_id found (begin d)).1.committed
  unfolding redeem
  redeem-Activated n password tenant_id none = inl (inl refl)
  redeem-Activated n password tenant_id (some i) = elim (Bool-cases (is_some i.used_at)) [
    | inl e ↦ inl (inl (rw e refl))
    | inr e ↦ elim (Bool-cases (ltb i.expires_at n.now)) [
      | inl e' ↦ inl (inl (rw (e, e') refl))
      | inr e' ↦
          rw (e, e')
            (activate_for-Activated n password tenant_id i (get_tenant i.tenant_id d) i.user_id)
    ]
  ]

  pub activate-Activated :
      (n : Fresh) (token password tenant_id : ℕ)
      → Activated n password (activate env n token password tenant_id (begin d)).1.committed
  unfolding activate
  activate-Activated n token password tenant_id =
      redeem-Activated n password tenant_id (get_by_token_hash (env.hash_token token) d)
