-- ===== src/Connector/Maintenance/Sweeps.antt =====
-- What maintenance leaves: statuses that are up to date, expiries that are recorded, and no
-- heartbeat past its retention.
use mathlib.Core.Bool.{false≢true}
use peka_saas.Common.{
  ℕ, ◌⊎◌, subst, ◌≡◌, refl, ap, sym, ◌∙◌, Bool, true, false, some, List, [], ◌∷◌, arith, All, inl,
  inr,
}
use peka_saas.Common.Exec.{Result, err, ok, is_ok, Session, ◌>>◌}
use peka_saas.Common.Sweep.{sweep, sweep-whole-All}
use peka_saas.Connector.Types.{
  ManagedConnector, ConnectorRegistrationToken, ManagedConnectorStatus, same_status,
}
use peka_saas.Connector.Status.{derive, recalculate}
use peka_saas.Connector.Repository.{
  Db, ConnectorError, list_unrecorded_expired_tokens, modify_connector,
}
use peka_saas.Connector.Authenticate.{status_event}
use peka_saas.Connector.Tokens.{record_expiry}
use peka_saas.Connector.Maintenance.{
  recalculate_each, recalculate_many, record_expiries, maintenance,
}

abbrev pub IsCurrent : ℕ → ManagedConnector → Type 0
IsCurrent now c = c.status ≡ derive c now

same_status-eq : (a b : ManagedConnectorStatus) → same_status a b ≡ true → a ≡ b
unfolding same_status
same_status-eq a b h = ground arith

-- The session after the loop's body for one connector.
abbrev after_row : ManagedConnector → ℕ → Session Db → Session Db
after_row c now s =
    ((do modify_connector c.id (λ r. recalculate r now); status_event c c.status (derive c now) now)
      s).1

recalculate_each-rows :
    (cs : List ManagedConnector) (now : ℕ) (s : Session Db)
    → ((recalculate_each cs now s).1.working.connectors
        ≡ sweep (λ c. c.id) (λ r. recalculate r now) cs s.working.connectors)
      × ((recalculate_each cs now s).1.working.tokens ≡ s.working.tokens)
      × ((recalculate_each cs now s).1.committed ≡ s.committed)
unfolding recalculate_each sweep
recalculate_each-rows [] now s = (refl, refl, refl)
recalculate_each-rows (c ∷ cs) now s =
    ground (arith, recalculate_each-rows cs now (after_row c now s))

recalculate_each-ok :
    (cs : List ManagedConnector) (now : ℕ) (s : Session Db)
    → is_ok (recalculate_each cs now s).0 ≡ true
unfolding recalculate_each
recalculate_each-ok [] now s = refl
recalculate_each-ok (c ∷ cs) now s = ground (arith, recalculate_each-ok cs now (after_row c now s))

-- The loop reports no change only if every status was up to date.
recalculate_each-unchanged :
    (cs : List ManagedConnector) (now : ℕ) (s : Session Db)
    → (recalculate_each cs now s).0 ≡ ok false
    → All (IsCurrent now) cs
unfolding recalculate_each
recalculate_each-unchanged [] now s h = tt
recalculate_each-unchanged (c ∷ cs) now s h = (
  same_status-eq c.status (derive c now)
      (ground (arith, recalculate_each-ok cs now (after_row c now s))),
  recalculate_each-unchanged cs now (after_row c now s)
      (ground (arith, recalculate_each-ok cs now (after_row c now s))),
)

mark_expired : ℕ → ConnectorRegistrationToken → ConnectorRegistrationToken
mark_expired now t = record t { expiration_event_recorded_at = some now }

-- The loop over the tokens marks the rows and leaves the connectors.
record_expiries-rows :
    (ts : List ConnectorRegistrationToken) (now : ℕ) (s : Session Db)
    → ((record_expiries ts now s).1.working.tokens
        ≡ sweep (λ t. t.id) (mark_expired now) ts s.working.tokens)
      × ((record_expiries ts now s).1.working.connectors ≡ s.working.connectors)
      × ((record_expiries ts now s).1.committed ≡ s.committed)
      × (is_ok (record_expiries ts now s).0 ≡ true)
unfolding record_expiries sweep mark_expired
record_expiries-rows [] now s = (refl, refl, refl, refl)
record_expiries-rows (t ∷ ts) now s =
    let u : Session Db = (record_expiry t t.tenant_id now s).1 in
    ground (arith, record_expiries-rows ts now u)

-- The session in which `maintenance` looks for expired tokens.
abbrev recalculated : ℕ → Session Db → Session Db
recalculated now s = (recalculate_many s.working.connectors now s).1

abbrev expiring : ℕ → Session Db → List ConnectorRegistrationToken
expiring now s = list_unrecorded_expired_tokens now (recalculated now s).working

-- The committed connectors are the swept ones, or nothing has changed.
maintenance-connectors :
    (b : Bool) (now : ℕ) (s : Session Db)
    → (recalculate_each s.working.connectors now s).0 ≡ ok b
    → ((maintenance now s).1.committed.connectors
        ≡ sweep (λ c. c.id) (λ r. recalculate r now) s.working.connectors s.working.connectors)
      ⊎ ((b ≡ false) × ((maintenance now s).1.committed.connectors ≡ s.committed.connectors))
unfolding maintenance recalculate_many
maintenance-connectors b now s h = ground (
  arith,
  recalculate_each-rows s.working.connectors now s,
  record_expiries-rows (expiring now s) now (recalculated now s),
)

-- A recalculated row is up to date.
recalculated_row : (now : ℕ) (r : ManagedConnector) → IsCurrent now (recalculate r now)
unfolding recalculate derive
recalculated_row now r = ground arith

recalculate-id : (now : ℕ) (r : ManagedConnector) → (recalculate r now).id ≡ r.id
unfolding recalculate
recalculate-id now r = refl

-- After maintenance every connector that is committed has the status that is derived for it, where
-- the request began with nothing pending.
pub maintenance-IsCurrent :
    (now : ℕ) (s : Session Db)
    → s.working ≡ s.committed
    → All (IsCurrent now) (maintenance now s).1.committed.connectors
maintenance-IsCurrent now s clean = go (recalculate_each s.working.connectors now s).0 refl
  where
    swept :
        All
          (IsCurrent now)
          (sweep (λ c. c.id) (λ r. recalculate r now) s.working.connectors s.working.connectors)
    swept =
        sweep-whole-All (λ c. c.id) (λ r. recalculate r now) (IsCurrent now) (recalculated_row now)
          (recalculate-id now) s.working.connectors

    go :
        (r : Result ConnectorError Bool)
        → (recalculate_each s.working.connectors now s).0 ≡ r
        → All (IsCurrent now) (maintenance now s).1.committed.connectors
    go (ok b) e = elim (maintenance-connectors b now s e) [
      | inl rows ↦ subst (All (IsCurrent now)) (sym rows) swept
      | inr h ↦
          subst (All (IsCurrent now)) (ap (λ (d : Db). d.connectors) clean ∙ sym h.1)
            (recalculate_each-unchanged s.working.connectors now s (e ∙ ap ok h.0))
    ]
    go (err x) e =
        absurd (false≢true (sym (ap is_ok e) ∙ recalculate_each-ok s.working.connectors now s))
