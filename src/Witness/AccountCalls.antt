-- ===== src/Witness/AccountCalls.antt =====
-- Examples of the theorems on users.
use peka_saas.Common.{ℕ, ◌≡◌, ◌↔◌, refl, true, false, List, [], ◌∷◌, arith, length, ◌≤◌}
use peka_saas.Common.Exec.{begin, err, is_ok}
use peka_saas.Accounts.Types.{is_local, tenant_user}
use peka_saas.Accounts.Repository.{Fresh, invite_already_used}
use peka_saas.Accounts.Users.{set_role}
use peka_saas.Accounts.Users.Admins.{IsManaged, roles, Change-IsManaged}
use peka_saas.Accounts.Activation.{activate}
use peka_saas.Accounts.Activation.Access.{activate-authenticate}
use peka_saas.Accounts.Login.{authenticate}
use peka_saas.Accounts.Login.Lockout.{IsAdmitted, AllWrong, logins, authenticate_locked}
use peka_saas.Accounts.Passwords.{request_for_email, reset}
use peka_saas.Accounts.Passwords.Recovery.{request-reset-authenticate}
use peka_saas.Witness.AccountData.{env, fresh, tenant, admin, invitation, tables, usable}

Change-IsManaged_example : IsManaged 1 (set_role env 1 2 tenant_user (begin tables)).1.committed
Change-IsManaged_example =
    Change-IsManaged env 1 tables (set_role env 1 2 tenant_user (begin tables)).1.committed
      (roles 1 2 tenant_user) ((tt, tt), omega arith)

-- The administrator logs in with the new password only if the account is not locked.
activate-authenticate_example :
    (is_ok (activate env fresh 700 60 1 (begin tables)).0 ≡ true)
    × ((is_ok
            (authenticate env 1 7 60 80
              (begin (activate env fresh 700 60 1 (begin tables)).1.committed)).0
          ≡ true)
        ↔ ((is_local admin.auth_source ≡ true) × (admin.locked ≡ false)))
    × ((m : Fresh) (other t : ℕ)
        → (activate env m 700 other t
            (begin (activate env fresh 700 60 1 (begin tables)).1.committed)).0
          ≡ err invite_already_used)
activate-authenticate_example =
    activate-authenticate env fresh 700 60 1 7 80 invitation tenant admin tables refl
      (refl, omega arith)
      (record {
        invite = refl;
        unused = refl;
        current = omega arith;
        tenant = refl;
        expected = refl;
        user_id = refl;
        user = refl;
        member = refl;
      })
      refl

authenticate_locked_example :
    ((password now : ℕ)
      → (is_ok (authenticate env 1 7 password now (begin (record tables { users = usable ∷ [] }))).0
          ≡ true)
        ↔ IsAdmitted env password usable)
    × ((ks : List (ℕ × ℕ))
        → AllWrong env usable.password_hash ks
        → 5 ≤ length ks
        → (password now : ℕ)
        → is_ok
            (authenticate env 1 7 password now
              (begin (logins env 1 7 ks (record tables { users = usable ∷ [] })))).0
          ≡ false)
authenticate_locked_example =
    authenticate_locked env 1 7 (record tables { users = usable ∷ [] }) usable refl refl

request-reset-authenticate_example :
    (is_ok (request_for_email env fresh tenant 8 (begin tables)).0 ≡ true)
    × (is_ok
          (reset env tenant 900 60 70
            (begin (request_for_email env fresh tenant 8 (begin tables)).1.committed)).0
        ≡ true)
    × (is_ok
          (authenticate env 1 7 60 80 (
            begin
              (reset env tenant 900 60 70 (
                begin
                  (request_for_email env fresh tenant 8
                    (begin tables)).1.committed)).1.committed)).0
        ≡ true)
    × ((other again : ℕ)
        → is_ok
            (reset env tenant 900 other again (
              begin
                (reset env tenant 900 60 70 (
                  begin
                    (request_for_email env fresh tenant 8
                      (begin tables)).1.committed)).1.committed)).0
          ≡ false)
request-reset-authenticate_example =
    request-reset-authenticate env fresh tenant 8 7 60 70 80 admin tables refl refl refl
      (record { addressed = refl; row = refl; named = refl; fresh = tt }) (refl, omega arith)
      (omega arith) (omega arith)
