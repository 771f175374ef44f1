-- ===== src/Connector/Maintenance.antt =====
-- Recalculation, retirement and periodic maintenance in
-- backend/app/services/connector_service.py: `_recalculate_many`, `retire` and `maintenance`.
pub mod Sweeps
use peka_saas.Common.{
  ℕ, ◌*◌, ◌-◌, String, Bool, true, false, Option, none, some, List, [], ◌∷◌, ◌||◌, ltb, not,
  is_none, is_empty, length, if◌then◌else◌,
}
use peka_saas.Common.Exec.{Session, ◌>>=◌, ◌>>◌, pure, or_raise, query, write, commit}
use peka_saas.Connector.Types.{
  ManagedConnector, ConnectorRegistrationToken, retired, connector_retired, same_status, seconds,
}
use peka_saas.Connector.Status.{derive, recalculate}
use peka_saas.Connector.Repository.{
  Action, Db, service_error, get, modify_connector, event, list_unrecorded_expired_tokens,
  delete_heartbeats_before, heartbeats_before,
}
use peka_saas.Connector.Tokens.{record_expiry, commit_if}
use peka_saas.Connector.Authenticate.{connector_event, status_event}

-- The loop of `_recalculate_many`; the result is `changed`.
pub recalculate_each : List ManagedConnector → ℕ → Action Bool
recalculate_each [] now = pure false
recalculate_each (c ∷ cs) now = do
  modify_connector c.id (λ r. recalculate r now)
  status_event c c.status (derive c now) now
  rest ← recalculate_each cs now
  pure (not (same_status c.status (derive c now)) || rest)

pub recalculate_many : List ManagedConnector → ℕ → Action (Unit {0})
recalculate_many cs now = do changed ← recalculate_each cs now; commit_if changed

-- The loop of `maintenance` over the tokens whose expiry has no event.
pub record_expiries : List ConnectorRegistrationToken → ℕ → Action (Unit {0})
record_expiries [] now = pure tt
record_expiries (t ∷ ts) now = do record_expiry t t.tenant_id now; record_expiries ts now

-- `heartbeat_retention`, thirty days
abbrev pub heartbeat_retention : ℕ
heartbeat_retention = seconds (30 * 86400)

-- The result counts the connectors and the deleted heartbeats.
pub maintenance : ℕ → Action (ℕ × ℕ)
maintenance now = do
  connectors ← query (λ db. db.connectors)
  recalculate_many connectors now
  expired ← query (list_unrecorded_expired_tokens now)
  record_expiries expired now
  deleted ← query (heartbeats_before (now - heartbeat_retention))
  write (delete_heartbeats_before (now - heartbeat_retention))
  commit_if (ltb 0 deleted || not (is_empty expired))
  pure (length connectors, deleted)

-- The assignments of `retire` to a connector that is not yet retired.
abbrev pub retire_row : ℕ → ManagedConnector → ManagedConnector
retire_row now c = record c { retired_at = some now; status = retired }

abbrev mark_retired : ManagedConnector → ℕ → ℕ → Action ManagedConnector
mark_retired c actor_id now = do
  modify_connector c.id (retire_row now)
  event (
      connector_event c connector_retired (some actor_id)
        "Connector retired by tenant administrator." now)
  commit
  pure (retire_row now c)

-- The row is returned in place of the response that `detail` makes of it.
pub retire : ℕ → ℕ → ℕ → ℕ → Action ManagedConnector
unfolding recalculate_many
retire tenant_id connector_id actor_id now = do
  found ← query (get tenant_id connector_id)
  c ← or_raise found (service_error "Connector not found." 404)
  current ← (if is_none c.retired_at then mark_retired c actor_id now else pure c)
  recalculate_many (current ∷ []) now
  pure (recalculate current now)
