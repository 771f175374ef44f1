-- ===== src/Accounts/Login/Lockout.antt =====
-- When a login succeeds, and what repeated failures do.
use peka_saas.Common.{
  ℕ, ◌+◌, ◌≤◌, ◌<◌, ◌≡◌, ◌↔◌, ◌⊎◌, inl, inr, refl, sym, subst, ap, ◌∙◌, true, false, Option, some,
  List, [], ◌∷◌, arith, All, length, find-update_rows, ◌==◌, ==_refl, ◌&&◌, equals, Bool-cases,
  if◌then◌else◌,
}
use peka_saas.Common.Exec.{begin, is_ok, Result, Session}
use peka_saas.Accounts.Types.{TenantUser, is_local}
use peka_saas.Accounts.Repository.{Db, Env, AccountError, get_by_tenant_and_username}
use peka_saas.Accounts.Login.{authenticate, check, authenticate-check, is_usable, is_valid, failed}

-- What a login needs of the row of the username.
pub record IsAdmitted (env : Env) (password : ℕ) (u : TenantUser) : Type 0 where
  pub source : is_local u.auth_source ≡ true
  pub active : u.is_active ≡ true
  pub unlocked : u.locked ≡ false
  pub valid : is_valid env password u.password_hash ≡ true

check-ok :
    (env : Env) (password now : ℕ) (u : TenantUser) (s : Session Db)
    → env.commit_fails ≡ false
    → (is_ok (check env password now (some u) s).0 ≡ true) ↔ IsAdmitted env password u
unfolding check
check-ok env password now u s saved = (
  λ h. record {
    source = ground arith;
    active = ground arith;
    unlocked = ground arith;
    valid = ground arith;
  },
  λ h. ground (arith, h.source, h.active, h.unlocked, h.valid),
)

-- Logins one after another, each with its password and its time.
abbrev pub logins : Env → ℕ → ℕ → List (ℕ × ℕ) → Db → Db
logins env tenant_id username [] d = d
logins env tenant_id username ((password, now) ∷ rest) d =
    logins env tenant_id username rest
      (authenticate env tenant_id username password now (begin d)).1.committed

-- No password of the list is the account's.
abbrev pub AllWrong : Env → Option ℕ → List (ℕ × ℕ) → Type 0
AllWrong env hash = All (λ a. is_valid env a.0 hash ≡ false)

check-unusable :
    (env : Env) (password now : ℕ) (u : TenantUser) (s : Session Db)
    → is_usable u ≡ false
    → is_ok (check env password now (some u) s).0 ≡ false
unfolding check
check-unusable env password now u s e = ground arith

-- The row after a refused login.
abbrev after_wrong : TenantUser → TenantUser
after_wrong u = if is_usable u then failed u else u

check-wrong :
    (env : Env) (tenant_id username password now : ℕ) (u : TenantUser) (d : Db)
    → env.commit_fails ≡ false
    → is_valid env password u.password_hash ≡ false
    → get_by_tenant_and_username tenant_id username d ≡ some u
    → get_by_tenant_and_username tenant_id username
        (check env password now (some u) (begin d)).1.committed
      ≡ some (after_wrong u)
unfolding check
check-wrong env tenant_id username password now u d saved wrong found =
    elim (Bool-cases (is_usable u)) [
      | inl e ↦ ground (
        arith,
        find-update_rows (λ x. x.tenant_id == tenant_id && equals x.username username)
            (λ x. x.id == u.id) failed (λ x. refl) d.users,
        ==_refl u.id,
      )
      | inr e ↦ ground arith
    ]

authenticate-wrong :
    (env : Env) (tenant_id username password now : ℕ) (u : TenantUser) (d : Db)
    → env.commit_fails ≡ false
    → is_valid env password u.password_hash ≡ false
    → get_by_tenant_and_username tenant_id username d ≡ some u
    → get_by_tenant_and_username tenant_id username
        (authenticate env tenant_id username password now (begin d)).1.committed
      ≡ some (after_wrong u)
authenticate-wrong env tenant_id username password now u d saved wrong found =
    ap
      (λ (r : Result AccountError TenantUser × Session Db).
        get_by_tenant_and_username tenant_id username r.1.committed)
      (authenticate-check env tenant_id username password now (begin d) (some u) found)
    ∙ check-wrong env tenant_id username password now u d saved wrong found

-- A usable account is below the limit.
abbrev IsLow : TenantUser → Type 0
IsLow u = is_usable u ≡ true → u.failed_login_attempts < 5

-- The account is not usable, or stands at as many failures.
abbrev IsAt : ℕ → TenantUser → Type 0
IsAt n u = (is_usable u ≡ false) ⊎ (n ≤ u.failed_login_attempts)

after_wrong-hash : (u : TenantUser) → (after_wrong u).password_hash ≡ u.password_hash
after_wrong-hash u = ground arith

after_wrong-IsLow : (u : TenantUser) → IsLow (after_wrong u)
after_wrong-IsLow u e = elim (Bool-cases (is_usable u)) [
  | inl e' ↦ ground arith
  | inr e' ↦ absurd (ground arith)
]

after_wrong-IsAt : (n : ℕ) (u : TenantUser) → IsAt n u → IsAt (n + 1) (after_wrong u)
after_wrong-IsAt n u (inl e) = inl (rw e e)
after_wrong-IsAt n u (inr le) = elim (Bool-cases (is_usable u)) [
  | inl e ↦ rw e (inr (omega arith))
  | inr e ↦ rw e (inl e)
]

after_failures :
    (env : Env) (tenant_id username : ℕ) (ks : List (ℕ × ℕ)) (n : ℕ) (u : TenantUser) (d : Db)
    → env.commit_fails ≡ false
    → AllWrong env u.password_hash ks
    → get_by_tenant_and_username tenant_id username d ≡ some u
    → IsAt n u
    → IsLow u
    → (v : TenantUser) × (get_by_tenant_and_username tenant_id username
          (logins env tenant_id username ks d)
        ≡ some v)
      × IsAt (n + length ks) v
      × IsLow v
after_failures env tenant_id username [] n u d saved wrong found reached low =
    (u, found, subst (λ m. IsAt m u) (omega arith) reached, low)
after_failures env tenant_id username ((password, now) ∷ rest) n u d saved wrong found reached low =
    let (w, found', reached', low') =
      after_failures env tenant_id username rest (n + 1) (after_wrong u)
        (authenticate env tenant_id username password now (begin d)).1.committed saved
        (subst (λ h. AllWrong env h rest) (sym (after_wrong-hash u)) wrong.1)
        (authenticate-wrong env tenant_id username password now u d saved wrong.0 found)
        (after_wrong-IsAt n u reached) (after_wrong-IsLow u) in
    (w, found', subst (λ m. IsAt m w) (omega arith) reached', low')

-- When the database accepts the commits, a login succeeds exactly when the row of the username is
-- local, active and not locked and its hash accepts the password; and after five or more logins
-- in a row with wrong passwords for the username, every login for it is refused, with whatever
-- password.
pub authenticate_locked :
    (env : Env) (tenant_id username : ℕ) (d : Db) (u : TenantUser)
    → env.commit_fails ≡ false
    → get_by_tenant_and_username tenant_id username d ≡ some u
    → ((password now : ℕ)
        → (is_ok (authenticate env tenant_id username password now (begin d)).0 ≡ true)
          ↔ IsAdmitted env password u)
      × ((ks : List (ℕ × ℕ))
          → AllWrong env u.password_hash ks
          → 5 ≤ length ks
          → (password now : ℕ)
          → is_ok
              (authenticate env tenant_id username password now
                (begin (logins env tenant_id username ks d))).0
            ≡ false)
authenticate_locked env tenant_id username d u saved found = (
  λ password now.
      subst
        (λ (r : Result AccountError TenantUser × Session Db).
          (is_ok r.0 ≡ true) ↔ IsAdmitted env password u)
        (sym (authenticate-check env tenant_id username password now (begin d) (some u) found))
        (check-ok env password now u (begin d) saved),
  locked,
)
  where
    refused :
        (ks : List (ℕ × ℕ)) (v : TenantUser) (password now : ℕ)
        → get_by_tenant_and_username tenant_id username (logins env tenant_id username ks d)
          ≡ some v
        → is_usable v ≡ false
        → is_ok
            (authenticate env tenant_id username password now
              (begin (logins env tenant_id username ks d))).0
          ≡ false
    refused ks v password now found' e =
        ap (λ (r : Result AccountError TenantUser × Session Db). is_ok r.0)
          (authenticate-check env tenant_id username password now
            (begin (logins env tenant_id username ks d)) (some v) found')
        ∙ check-unusable env password now v (begin (logins env tenant_id username ks d)) e

    locked :
        (ks : List (ℕ × ℕ))
        → AllWrong env u.password_hash ks
        → 5 ≤ length ks
        → (password now : ℕ)
        → is_ok
            (authenticate env tenant_id username password now
              (begin (logins env tenant_id username ks d))).0
          ≡ false
    locked [] wrong many password now = absurd (omega arith)
    locked ((first, at) ∷ rest) wrong many password now =
        let d' : Db = (authenticate env tenant_id username first at (begin d)).1.committed in
        let (v, found', reached, low) =
          after_failures env tenant_id username rest 1 (after_wrong u) d' saved
            (subst (λ h. AllWrong env h rest) (sym (after_wrong-hash u)) wrong.1)
            (authenticate-wrong env tenant_id username first at u d saved wrong.0 found)
            (after_wrong-IsAt 0 u (inr (omega arith))) (after_wrong-IsLow u) in
        refused ((first, at) ∷ rest) v password now found' (ground (arith, reached, low, many))
