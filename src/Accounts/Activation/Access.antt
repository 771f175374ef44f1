-- ===== src/Accounts/Activation/Access.antt =====
-- What an invited user can do after the activation.
use peka_saas.Common.{
  ℕ, ◌≤◌, ◌≡◌, ◌≢◌, ◌↔◌, refl, sym, subst, ap, ◌∙◌, true, false, none, some, arith, update_rows,
  find, find-update_rows, ◌==◌, ==_refl, ◌&&◌, equals, ltb, is_some,
}
use peka_saas.Common.Exec.{begin, ok, err, is_ok, Result, Session}
use peka_saas.Accounts.Types.{TenantUser, TenantAdminInvite, Tenant, is_local}
use peka_saas.Accounts.Repository.{
  Db, Env, Fresh, AccountError, invite_already_used, get_user, get_by_token_hash, get_tenant,
  get_by_tenant_and_username,
}
use peka_saas.Accounts.Activation.{activate, redeem, activate_for, activate_user, activated, used}
use peka_saas.Accounts.Login.{authenticate, check, authenticate-check, is_valid}

-- What a token of an invited user finds at the time of the activation.
pub record IsInvited (env : Env) (d : Db) (token tenant_id now : ℕ) (i : TenantAdminInvite)
    (t : Tenant) (u : TenantUser) : Type 0 where
  pub invite : get_by_token_hash (env.hash_token token) d ≡ some i
  pub unused : i.used_at ≡ none
  pub current : now ≤ i.expires_at
  pub tenant : get_tenant i.tenant_id d ≡ some t
  pub expected : t.id ≡ tenant_id
  pub user_id : i.user_id ≡ some u.id
  pub user : get_user u.id d ≡ some u
  pub member : u.tenant_id ≡ tenant_id

activate_user-ok :
    (env : Env) (n : Fresh) (password tenant_id : ℕ) (i : TenantAdminInvite) (u : TenantUser)
    (d : Db)
    → env.commit_fails ≡ false
    → u.tenant_id ≡ tenant_id
    → ((activate_user env n password tenant_id i (some u) (begin d)).0
        ≡ ok (activated env password u))
      × ((activate_user env n password tenant_id i (some u) (begin d)).1.committed ≡ record d {
        users = update_rows (λ x. x.id == u.id) (activated env password) d.users;
        invites = update_rows (λ x. x.id == i.id) (used n.now) d.invites;
      })
activate_user-ok env n password tenant_id i u d saved member = (ground arith, ground arith)

activate-ok :
    (env : Env) (n : Fresh) (token password tenant_id : ℕ) (i : TenantAdminInvite) (t : Tenant)
    (u : TenantUser) (d : Db)
    → env.commit_fails ≡ false
    → IsInvited env d token tenant_id n.now i t u
    → ((activate env n token password tenant_id (begin d)).0 ≡ ok (activated env password u))
      × ((activate env n token password tenant_id (begin d)).1.committed ≡ record d {
        users = update_rows (λ x. x.id == u.id) (activated env password) d.users;
        invites = update_rows (λ x. x.id == i.id) (used n.now) d.invites;
      })
unfolding activate redeem activate_for
activate-ok env n token password tenant_id i t u d saved h =
    let same : (t.id == tenant_id) ≡ true = ground (arith, h.expected) in
    let fresh : is_some i.used_at ≡ false = ground (arith, h.unused) in
    let live : ltb i.expires_at n.now ≡ false = ground (arith, h.current) in
    rw (h.invite, fresh, live, h.tenant, h.user_id, same, h.user)
      (activate_user-ok env n password tenant_id i u d saved h.member)

-- The stored hash accepts the password, and is not empty.
abbrev pub Accepts : Env → ℕ → Type 0
Accepts env password =
    (env.verify_password password (env.hash_password password) ≡ some true)
    × (env.hash_password password ≢ 0)

activated-found :
    (env : Env) (tenant_id username password : ℕ) (u : TenantUser) (d : Db)
    → get_by_tenant_and_username tenant_id username d ≡ some u
    → find
        (λ x. x.tenant_id == tenant_id && equals x.username username)
        (update_rows (λ x. x.id == u.id) (activated env password) d.users)
      ≡ some (activated env password u)
activated-found env tenant_id username password u d named = ground (
  arith,
  find-update_rows (λ x. x.tenant_id == tenant_id && equals x.username username) (λ x. x.id == u.id)
      (activated env password) (λ x. refl) d.users,
  ==_refl u.id,
)

used-found :
    (env : Env) (token now : ℕ) (i : TenantAdminInvite) (d : Db)
    → get_by_token_hash (env.hash_token token) d ≡ some i
    → find
        (λ x. x.token_hash == env.hash_token token)
        (update_rows (λ x. x.id == i.id) (used now) d.invites)
      ≡ some (used now i)
used-found env token now i d found = ground (
  arith,
  find-update_rows (λ x. x.token_hash == env.hash_token token) (λ x. x.id == i.id) (used now)
      (λ x. refl) d.invites,
  ==_refl i.id,
)

check-activated :
    (env : Env) (password later : ℕ) (u : TenantUser) (e : Db)
    → env.commit_fails ≡ false
    → Accepts env password
    → (is_ok (check env password later (some (activated env password u)) (begin e)).0 ≡ true)
      ↔ ((is_local u.auth_source ≡ true) × (u.locked ≡ false))
unfolding check is_valid
check-activated env password later u e saved accepts =
    (λ h. (ground arith, ground arith), λ h. ground (arith, accepts.1))

redeem-used :
    (env : Env) (n : Fresh) (token password tenant_id now : ℕ) (i : TenantAdminInvite) (e : Db)
    → get_by_token_hash (env.hash_token token) e ≡ some (used now i)
    → (activate env n token password tenant_id (begin e)).0 ≡ err invite_already_used
unfolding activate redeem
redeem-used env n token password tenant_id now i e found = rw found refl

-- When the token of an unused, unexpired invitation is for a user of the tenant, the database
-- accepts the commit, and the new hash is not empty and accepts the new password: the activation
-- returns; the user can then log in with the password exactly when the account is local and is not
-- locked, a lock of before the activation included; and every further activation with the token is
-- refused as used.
pub activate-authenticate :
    (env : Env) (n : Fresh) (token password tenant_id username later : ℕ) (i : TenantAdminInvite)
    (t : Tenant) (u : TenantUser) (d : Db)
    → env.commit_fails ≡ false
    → Accepts env password
    → IsInvited env d token tenant_id n.now i t u
    → get_by_tenant_and_username tenant_id username d ≡ some u
    → (is_ok (activate env n token password tenant_id (begin d)).0 ≡ true)
      × ((is_ok
              (authenticate env tenant_id username password later
                (begin (activate env n token password tenant_id (begin d)).1.committed)).0
            ≡ true)
          ↔ ((is_local u.auth_source ≡ true) × (u.locked ≡ false)))
      × ((m : Fresh) (other tenant : ℕ)
          → (activate env m token other tenant
              (begin (activate env n token password tenant_id (begin d)).1.committed)).0
            ≡ err invite_already_used)
activate-authenticate env n token password tenant_id username later i t u d saved accepts h named =
    let (returns, leaves) = activate-ok env n token password tenant_id i t u d saved h in
    let e : Db = (activate env n token password tenant_id (begin d)).1.committed in
    (
      ap is_ok returns,
      subst
          (λ (r : Result AccountError TenantUser × Session Db).
            (is_ok r.0 ≡ true) ↔ ((is_local u.auth_source ≡ true) × (u.locked ≡ false)))
          (sym (
            authenticate-check env tenant_id username password later (begin e)
              (some (activated env password u))
              (ap (get_by_tenant_and_username tenant_id username) leaves
                ∙ activated-found env tenant_id username password u d named)))
          (check-activated env password later u e saved accepts),
      λ m other tenant. redeem-used env m token other tenant n.now i e (
          ap (get_by_token_hash (env.hash_token token)) leaves
          ∙ used-found env token n.now i d h.invite),
    )
