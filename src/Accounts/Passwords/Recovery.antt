-- ===== src/Accounts/Passwords/Recovery.antt =====
-- A forgotten password: from the request by email, through the reset, to the login.
use peka_saas.Common.{
  ℕ, ◌+◌, ◌≤◌, ◌<◌, ◌≡◌, ◌≢◌, refl, sym, subst, ap, ◌∙◌, true, false, none, some, List, [], ◌∷◌,
  ◌++◌, arith, All, update_rows, find, find-update_rows, find_holds, ◌==◌, ==_refl, ◌&&◌, equals,
  ltb,
}
use peka_saas.Common.Exec.{begin, is_ok, Result, Session}
use peka_saas.Accounts.Types.{TenantUser, TenantPasswordResetToken, Tenant, is_local}
use peka_saas.Accounts.Repository.{
  Db, Env, Fresh, AccountError, get_user, get_by_tenant_and_username, minutes,
}
use peka_saas.Accounts.Login.{authenticate, check, authenticate-check, is_valid}
use peka_saas.Accounts.Activation.Access.{Accepts}
use peka_saas.Accounts.Passwords.{
  request_for_email, issue, reset, redeem, apply, is_addressed, is_live, ending, new_token,
  is_usable_token, renewed, spent,
}

-- No token of the table has the hash.
abbrev pub IsFreshHash : ℕ → List TenantPasswordResetToken → Type 0
IsFreshHash hash = All (λ r. r.token_hash ≢ hash)

-- What a request by email leaves.
request-leaves :
    (env : Env) (n : Fresh) (t : Tenant) (email : ℕ) (u : TenantUser) (d : Db)
    → env.commit_fails ≡ false
    → env.is_development_outbox ≡ true
    → env.is_development_environment ≡ true
    → find (is_addressed env t.id email) d.users ≡ some u
    → (is_ok (request_for_email env n t email (begin d)).0 ≡ true)
      × ((request_for_email env n t email (begin d)).1.committed.users ≡ d.users)
      × ((request_for_email env n t email (begin d)).1.committed.reset_tokens
          ≡ update_rows (is_live t.id u.id n.now) (ending n.now) d.reset_tokens
            ++ new_token env n t u none ∷ [])
unfolding request_for_email issue
request-leaves env n t email u d saved outbox development found =
    (ground arith, ground arith, ground arith)

-- The new token is the one that its hash finds before its end.
token-found :
    (env : Env) (n : Fresh) (t : Tenant) (u : TenantUser) (later : ℕ)
    (rs : List TenantPasswordResetToken)
    → later < n.now + minutes env.tenant_password_reset_minutes
    → IsFreshHash (env.hash_token n.raw_token) rs
    → find
        (is_usable_token t.id (env.hash_token n.raw_token) later)
        (update_rows (is_live t.id u.id n.now) (ending n.now) rs ++ new_token env n t u none ∷ [])
      ≡ some (new_token env n t u none)
token-found env n t u later [] soon fresh =
    ground (arith, ==_refl t.id, ==_refl (env.hash_token n.raw_token))
token-found env n t u later (r ∷ rs) soon fresh =
    ground (arith, fresh.0, token-found env n t u later rs soon fresh.1)

apply-leaves :
    (env : Env) (t : Tenant) (password now : ℕ) (r : TenantPasswordResetToken) (u : TenantUser)
    (d : Db)
    → env.commit_fails ≡ false
    → u.tenant_id ≡ t.id
    → is_local u.auth_source ≡ true
    → u.is_active ≡ true
    → (is_ok (apply env t password now r (some u) (begin d)).0 ≡ true)
      × ((apply env t password now r (some u) (begin d)).1.committed.users
          ≡ update_rows (λ x. x.id == u.id) (renewed env password) d.users)
      × ((apply env t password now r (some u) (begin d)).1.committed.reset_tokens
          ≡ update_rows (λ x. x.id == r.id) (spent now) d.reset_tokens)
unfolding apply
apply-leaves env t password now r u d saved member here active =
    (ground arith, ground arith, ground arith)

-- What a reset leaves.
reset-leaves :
    (env : Env) (t : Tenant) (raw password now : ℕ) (r : TenantPasswordResetToken) (u : TenantUser)
    (d : Db)
    → env.commit_fails ≡ false
    → 12 ≤ env.length_of password
    → find (is_usable_token t.id (env.hash_token raw) now) d.reset_tokens ≡ some r
    → get_user r.tenant_user_id d ≡ some u
    → u.tenant_id ≡ t.id
    → is_local u.auth_source ≡ true
    → u.is_active ≡ true
    → (is_ok (reset env t raw password now (begin d)).0 ≡ true)
      × ((reset env t raw password now (begin d)).1.committed.users
          ≡ update_rows (λ x. x.id == u.id) (renewed env password) d.users)
      × ((reset env t raw password now (begin d)).1.committed.reset_tokens
          ≡ update_rows (λ x. x.id == r.id) (spent now) d.reset_tokens)
unfolding reset redeem
reset-leaves env t raw password now r u d saved long found user member here active =
    let enough : ltb (env.length_of password) 12 ≡ false = ground arith in
    rw (enough, found, user) (apply-leaves env t password now r u d saved member here active)

reset-refused :
    (env : Env) (t : Tenant) (raw password now : ℕ) (d : Db)
    → find (is_usable_token t.id (env.hash_token raw) now) d.reset_tokens ≡ none
    → is_ok (reset env t raw password now (begin d)).0 ≡ false
unfolding reset redeem
reset-refused env t raw password now d found = ground arith

-- The spent token is not found again.
spent-lost :
    (env : Env) (n : Fresh) (t : Tenant) (u : TenantUser) (later again : ℕ)
    (rs : List TenantPasswordResetToken)
    → IsFreshHash (env.hash_token n.raw_token) rs
    → find (is_usable_token t.id (env.hash_token n.raw_token) again) (
        update_rows
          (λ x. x.id == n.token_id)
          (spent later)
          (update_rows (is_live t.id u.id n.now) (ending n.now) rs
            ++ new_token env n t u none ∷ []))
      ≡ none
spent-lost env n t u later again [] fresh = ground (arith, ==_refl n.token_id)
spent-lost env n t u later again (r ∷ rs) fresh =
    ground (arith, fresh.0, spent-lost env n t u later again rs fresh.1)

check-renewed :
    (env : Env) (password at : ℕ) (u : TenantUser) (d : Db)
    → env.commit_fails ≡ false
    → Accepts env password
    → is_local u.auth_source ≡ true
    → u.is_active ≡ true
    → is_ok (check env password at (some (renewed env password u)) (begin d)).0 ≡ true
unfolding check is_valid
check-renewed env password at u d saved accepts here active = ground (arith, accepts.1)

renewed-found :
    (env : Env) (tenant_id username password : ℕ) (u : TenantUser) (us : List TenantUser)
    → find (λ x. x.tenant_id == tenant_id && equals x.username username) us ≡ some u
    → find
        (λ x. x.tenant_id == tenant_id && equals x.username username)
        (update_rows (λ x. x.id == u.id) (renewed env password) us)
      ≡ some (renewed env password u)
renewed-found env tenant_id username password u us named = ground (
  arith,
  find-update_rows (λ x. x.tenant_id == tenant_id && equals x.username username) (λ x. x.id == u.id)
      (renewed env password) (λ x. refl) us,
  ==_refl u.id,
)

-- What a user who asks for a reset has: the email finds the row of the user, which is also the row
-- of its id and of its username, and the hash of the new token is new.
pub record IsForgetful (env : Env) (n : Fresh) (t : Tenant) (email username : ℕ) (u : TenantUser)
    (d : Db) : Type 0 where
  pub addressed : find (is_addressed env t.id email) d.users ≡ some u
  pub row : get_user u.id d ≡ some u
  pub named : get_by_tenant_and_username t.id username d ≡ some u
  pub fresh : IsFreshHash (env.hash_token n.raw_token) d.reset_tokens

-- Where the development outbox delivers emails and the database accepts the commits, and the hash of
-- a new password of at least twelve characters is not empty and accepts it: a request for the email
-- of a user returns; a reset with its token before the token's end returns; the user can then log in
-- with the new password, locked before or not; and every further reset with the token is refused.
pub request-reset-authenticate :
    (env : Env) (n : Fresh) (t : Tenant) (email username password later at : ℕ) (u : TenantUser)
    (d : Db)
    → env.commit_fails ≡ false
    → env.is_development_outbox ≡ true
    → env.is_development_environment ≡ true
    → IsForgetful env n t email username u d
    → Accepts env password
    → 12 ≤ env.length_of password
    → later < n.now + minutes env.tenant_password_reset_minutes
    → (is_ok (request_for_email env n t email (begin d)).0 ≡ true)
      × (is_ok
            (reset env t n.raw_token password later
              (begin (request_for_email env n t email (begin d)).1.committed)).0
          ≡ true)
      × (is_ok
            (authenticate env t.id username password at (
              begin
                (reset env t n.raw_token password later
                  (begin (request_for_email env n t email (begin d)).1.committed)).1.committed)).0
          ≡ true)
      × ((other again : ℕ)
          → is_ok
              (reset env t n.raw_token other again (
                begin
                  (reset env t n.raw_token password later
                    (begin (request_for_email env n t email (begin d)).1.committed)).1.committed)).0
            ≡ false)
request-reset-authenticate env n t email username password later at u d saved outbox development h
      accepts long soon =
    let (asked, users, tokens) =
      request-leaves env n t email u d saved outbox development h.addressed in
    let e : Db = (request_for_email env n t email (begin d)).1.committed in
    let holds : is_addressed env t.id email u ≡ true =
      find_holds (is_addressed env t.id email) d.users u h.addressed in
    let token : TenantPasswordResetToken = new_token env n t u none in
    let (renewed_ok, users', tokens') =
      reset-leaves env t n.raw_token password later token u e saved long
        (subst
          (λ rs. find (is_usable_token t.id (env.hash_token n.raw_token) later) rs ≡ some token)
          (sym tokens) (token-found env n t u later d.reset_tokens soon h.fresh))
        (subst (λ us. find (λ x. x.id == u.id) us ≡ some u) (sym users) h.row) (ground arith)
        (ground arith) (ground arith) in
    let f : Db = (reset env t n.raw_token password later (begin e)).1.committed in
    (
      asked,
      renewed_ok,
      subst (λ (r : Result AccountError TenantUser × Session Db). is_ok r.0 ≡ true)
          (sym (
            authenticate-check env t.id username password at (begin f)
              (some (renewed env password u))
              (ap (find (λ x. x.tenant_id == t.id && equals x.username username))
                  (users' ∙ ap (update_rows (λ x. x.id == u.id) (renewed env password)) users)
                ∙ renewed-found env t.id username password u d.users h.named)))
          (check-renewed env password at u f saved accepts (ground arith) (ground arith)),
      λ other again. reset-refused env t n.raw_token other again f (
          subst (λ rs. find (is_usable_token t.id (env.hash_token n.raw_token) again) rs ≡ none)
            (sym (tokens' ∙ ap (update_rows (λ x. x.id == n.token_id) (spent later)) tokens))
            (spent-lost env n t u later again d.reset_tokens h.fresh)),
    )
