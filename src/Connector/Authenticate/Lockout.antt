-- ===== src/Connector/Authenticate/Lockout.antt =====
-- When authentication succeeds, and what repeated failures do.
use peka_saas.Common.{
  subst, sym, length, All, List, [], ◌∷◌, ℕ, ◌+◌, ◌≤◌, ◌≡◌, ◌≢◌, ◌↔◌, refl, true, false, none, some,
  arith, find-update_rows, find_holds, ◌==◌,
}
use peka_saas.Common.Exec.{err, is_ok, Session}
use peka_saas.Connector.Types.{ManagedConnector, authentication_failed}
use peka_saas.Connector.Status.{derive, recalculate}
use peka_saas.Connector.Repository.{Db, get_unscoped, service_error}
use peka_saas.Connector.Authenticate.{
  Credentials, authenticate, secret_matches, header_matches, failed_row,
}

-- What an accepted request presents.
pub record IsAccepted (k : Credentials) (c : ManagedConnector) : Type 0 where
  pub secret : secret_matches k c.secret_hash ≡ true
  pub header : header_matches k ≡ true
  pub current : c.retired_at ≡ none
  pub unlocked : k.reject_authentication_failed ≡ true → c.status ≢ authentication_failed

module _ (k : Credentials) (now : ℕ) (s : Session Db) where
  -- A request for a connector that exists is authenticated exactly when its bearer secret matches the
  -- stored hash, its header names the connector, the connector is not retired, and, if the caller asks
  -- for it, the connector is not in AUTHENTICATION_FAILED.
  pub authenticate-ok_iff :
      (c : ManagedConnector)
      → get_unscoped k.connector_id s.working ≡ some c
      → (is_ok (authenticate k now s).0 ≡ true) ↔ IsAccepted k c
  unfolding authenticate
  authenticate-ok_iff c found = (
    λ h. record {
      secret = ground arith;
      header = ground arith;
      current = ground arith;
      unlocked = λ e. ground arith;
    },
    λ h. ground (arith, h.unlocked),
  )

  -- A wrong secret is counted on the row, and the count is committed.
  pub authenticate-wrong_secret :
      (c : ManagedConnector)
      → get_unscoped k.connector_id s.working ≡ some c
      → secret_matches k c.secret_hash ≡ false
      → (get_unscoped k.connector_id (authenticate k now s).1.working ≡ some (failed_row c now))
        × ((authenticate k now s).1.committed ≡ (authenticate k now s).1.working)
  unfolding authenticate
  authenticate-wrong_secret c found wrong = ground (
    arith,
    find-update_rows (λ x. x.id == k.connector_id) (λ x. x.id == c.id) (λ r. failed_row r now)
        (λ x. unfold failed_row recalculate in refl) s.working.connectors,
    find_holds (λ x. x.id == k.connector_id) s.working.connectors c found,
  )

-- Requests one after another, each with its time.
abbrev pub attempts : List (Credentials × ℕ) → Session Db → Session Db
attempts [] s = s
attempts ((k, now) ∷ rest) s = attempts rest (authenticate k now s).1

-- The row of the connector after as many failures.
abbrev failed_times : List (Credentials × ℕ) → ManagedConnector → ManagedConnector
failed_times [] c = c
failed_times ((k, now) ∷ rest) c = failed_times rest (failed_row c now)

-- Each request names the connector, with a secret that its hash refuses.
abbrev pub AllWrong : ℕ → ℕ → List (Credentials × ℕ) → Type 0
AllWrong id hash = All (λ a. (a.0.connector_id ≡ id) × (secret_matches a.0 hash ≡ false))

attempts-row :
    (id : ℕ) (ks : List (Credentials × ℕ)) (s : Session Db) (c : ManagedConnector)
    → get_unscoped id s.working ≡ some c
    → AllWrong id c.secret_hash ks
    → get_unscoped id (attempts ks s).working ≡ some (failed_times ks c)
attempts-row id [] s c found wrong = found
attempts-row id ((k, now) ∷ rest) s c found wrong =
    attempts-row id rest (authenticate k now s).1 (failed_row c now)
      (subst (λ i. get_unscoped i (authenticate k now s).1.working ≡ some (failed_row c now))
        wrong.0.0
        (authenticate-wrong_secret k now s c
          (subst (λ i. get_unscoped i s.working ≡ some c) (sym wrong.0.0) found) wrong.0.1).0)
      (unfold failed_row recalculate in wrong.1)

failed_times-kept :
    (ks : List (Credentials × ℕ)) (c : ManagedConnector)
    → ((failed_times ks c).retired_at ≡ c.retired_at)
      × ((failed_times ks c).secret_hash ≡ c.secret_hash)
unfolding failed_row recalculate
failed_times-kept [] c = (refl, refl)
failed_times-kept ((k, now) ∷ rest) c = failed_times-kept rest (failed_row c now)

failed_times-locked :
    (ks : List (Credentials × ℕ)) (c : ManagedConnector)
    → c.retired_at ≡ none
    → (3 ≤ c.authentication_failure_count → c.status ≡ authentication_failed)
    → 3 ≤ c.authentication_failure_count + length ks
    → (failed_times ks c).status ≡ authentication_failed
failed_times-locked [] c current locked many = locked (omega arith)
failed_times-locked ((k, now) ∷ rest) c current locked many =
    failed_times-locked rest (failed_row c now) (unfold failed_row recalculate in current)
      (unfold failed_row recalculate derive in λ h. ground arith)
      (unfold failed_row recalculate in omega arith)

-- After at least three requests in a row with a wrong secret for a connector that is not retired, a
-- request with the right secret and header is refused as locked, where the caller asks for the lock.
pub authenticate_lockout :
    (k : Credentials) (now : ℕ) (s : Session Db) (c : ManagedConnector) (first : Credentials)
    (at : ℕ) (rest : List (Credentials × ℕ))
    → get_unscoped k.connector_id s.working ≡ some c
    → c.retired_at ≡ none
    → AllWrong k.connector_id c.secret_hash ((first, at) ∷ rest)
    → 2 ≤ length rest
    → k.reject_authentication_failed ≡ true
    → secret_matches k c.secret_hash ≡ true
    → header_matches k ≡ true
    → (authenticate k now (attempts ((first, at) ∷ rest) s)).0
      ≡ err (service_error "Connector authentication is locked after repeated failures." 403)
unfolding authenticate
authenticate_lockout k now s c first at rest found current wrong many strict secret header =
    let ks : List (Credentials × ℕ) = (first, at) ∷ rest in
    ground (
      arith,
      attempts-row k.connector_id ks s c found wrong,
      failed_times-kept ks c,
      failed_times-locked rest (failed_row c at) (unfold failed_row recalculate in current)
          (unfold failed_row recalculate derive in λ h. ground arith)
          (unfold failed_row recalculate in omega arith),
    )
