-- ===== src/Platform/Logins.antt =====
-- What logins, the first administrator and a recovery write to the table of administrators.
use peka_saas.Common.{
  ℕ, ◌⊎◌, inl, inr, refl, Bool, true, false, Option, none, some, ◌||◌, not, Option-cases,
  Bool-cases, or_else,
}
use peka_saas.Common.Exec.{begin, ◌>>=◌, pure}
use peka_saas.Accounts.Types.{has_text}
use peka_saas.Platform.Types.{PlatformAdmin, Db, Env, Fresh, is_admin, get_by_username}
use peka_saas.Platform.Users.{restored, is_short, verify}
use peka_saas.Platform.Login.{
  create_admin, created_admin, authenticate, check, record_login, logged_in, failed,
}
use peka_saas.Platform.Recovery.{reset_password}
use peka_saas.Platform.Users.Writes.{Touched, Added}

module _ (env : Env) (d : Db) where
  pub create_admin-Added :
      (n : Fresh) (username email password full_name : ℕ) (super : Bool)
      → Added
          (created_admin env n username email password full_name super)
          d
          (create_admin env n username email password full_name super (begin d)).1.committed
  unfolding create_admin
  create_admin-Added n username email password full_name super =
      elim (Bool-cases env.commit_fails) [ inl e ↦ inl (rw e refl) | inr e ↦ inr (rw e refl) ]

  pub reset_password-Touched :
      (u : PlatformAdmin) (password : ℕ)
      → Touched (restored env password) d (reset_password env u password (begin d)).1.committed
  unfolding reset_password
  reset_password-Touched u password = elim (Bool-cases (is_admin u.role)) [
    | inr e ↦ inl (rw e refl)
    | inl e ↦ elim (Bool-cases (is_short env password)) [
      | inl e' ↦ inl (rw (e, e') refl)
      | inr e' ↦ elim (Bool-cases env.commit_fails) [
        | inl e'' ↦ inl (rw (e, e', e'') refl)
        | inr e'' ↦ inr (u.id, rw (e, e', e'') refl)
      ]
    ]
  ]

  -- What a login writes.
  abbrev pub Logged : ℕ → Db → Type 0
  Logged now e = Touched failed d e ⊎ Touched (logged_in now) d e

  record_login-Logged :
      (u : PlatformAdmin) (now : ℕ) (wrong : Bool)
      → Logged now (record_login env u now wrong (begin d)).1.committed
  record_login-Logged u now true = elim (Bool-cases env.commit_fails) [
    | inl e ↦ inl (inl (rw e refl))
    | inr e ↦ inl (inr (u.id, rw e refl))
  ]
  record_login-Logged u now false = elim (Bool-cases env.commit_fails) [
    | inl e ↦ inr (inl (rw e refl))
    | inr e ↦ inr (inr (u.id, rw e refl))
  ]

  -- A check of the password writes nothing.
  verify-Logged :
      (u : PlatformAdmin) (now password hash : ℕ)
      → Logged now
          ((do
            wrong ← (do b ← verify env password hash; pure (not b))
            record_login env u now wrong)
            (begin d)).1.committed
  verify-Logged u now password hash = elim (Option-cases (env.verify_password password hash)) [
    | inl e ↦ inl (inl (rw (verify, e) refl))
    | inr (b, e) ↦ rw (verify, e) (record_login-Logged u now (not b))
  ]

  check-Logged :
      (password now : ℕ) (found : Option PlatformAdmin)
      → Logged now (check env password now found (begin d)).1.committed
  unfolding check
  check-Logged password now none = inl (inl refl)
  check-Logged password now (some u) = elim (Bool-cases (not u.is_active || u.locked)) [
    | inl e ↦ inl (inl (rw e refl))
    | inr e ↦ elim (Bool-cases (has_text u.password_hash)) [
      | inr e' ↦ rw (e, e') (record_login-Logged u now true)
      | inl e' ↦ rw (e, e') (verify-Logged u now password (or_else u.password_hash 0))
    ]
  ]

  pub authenticate-Logged :
      (username password now : ℕ)
      → Logged now (authenticate env username password now (begin d)).1.committed
  unfolding authenticate
  authenticate-Logged username password now = check-Logged password now (get_by_username username d)
