-- ===== src/Connector/Authenticate.antt =====
-- Connector authentication in backend/app/services/connector_service.py: `authenticate` and
-- `_record_auth_failure`.
pub mod Lockout
use Prim.Native.String.{◌++◌}
use peka_saas.Common.{
  ℕ, ◌+◌, String, Bool, true, false, Option, none, some, ◌==◌, ◌&&◌, ◌||◌, not, is_some, equals,
  if◌then◌else◌,
}
use peka_saas.Common.Exec.{Session, ◌>>=◌, ◌>>◌, pure, raise, raise_if, query, commit}
use peka_saas.Connector.Types.{
  ManagedConnector, ManagedConnectorStatus, authentication_failed, ConnectorEvent,
  ConnectorEventType, status_changed, authentication_failure, status_value, same_status,
}
use peka_saas.Connector.Status.{derive, recalculate}
use peka_saas.Connector.Repository.{
  Action, Db, service_error, get_unscoped, modify_connector, event,
}

-- An event about a connector.
abbrev pub connector_event :
    ManagedConnector → ConnectorEventType → Option ℕ → String → ℕ → ConnectorEvent
connector_event c kind actor detail now = record {
  tenant_id = c.tenant_id;
  connector_id = some c.id;
  registration_token_id = none;
  event_type = kind;
  occurred_at = now;
  actor_user_id = actor;
  detail = some detail;
}

-- `f"Status changed from {old.value} to {new.value}."`
pub status_detail : ManagedConnectorStatus → ManagedConnectorStatus → String
status_detail old new =
    "Status changed from " ++ status_value old ++ " to " ++ status_value new ++ "."

-- `if old != new: self._event(…STATUS_CHANGED…)`
abbrev pub status_event :
    ManagedConnector → ManagedConnectorStatus → ManagedConnectorStatus → ℕ → Action (Unit {0})
status_event c old new now =
    if same_status old new
    then pure tt
    else event (connector_event c status_changed none (status_detail old new) now)

-- The row after a failed authentication.
pub failed_row : ManagedConnector → ℕ → ManagedConnector
failed_row c now =
    recalculate
      (record c {
        authentication_failure_count = c.authentication_failure_count + 1;
        last_seen_at = some now;
      })
      now

pub record_auth_failure : ManagedConnector → ℕ → Action (Unit {0})
unfolding failed_row
record_auth_failure c now = do
  modify_connector c.id (λ r. failed_row r now)
  event
      (connector_event c authentication_failure none "Connector bearer authentication failed." now)
  status_event c c.status (failed_row c now).status now
  commit

-- What the request presents, the two keyword arguments, the check of a secret against a hash and
-- the hash that stands in for an unknown connector's.
pub record Credentials : Type 0 where
  pub connector_id : ℕ
  pub header_connector_id : Option ℕ
  pub bearer_secret : Option ℕ
  pub retired_status_code : ℕ
  pub reject_authentication_failed : Bool
  pub verify_connector_secret : ℕ → ℕ → Bool
  pub dummy_secret_hash : ℕ

abbrev pub secret_matches : Credentials → ℕ → Bool
secret_matches k hash = elim k.bearer_secret [
  | none ↦ false
  | some secret ↦ k.verify_connector_secret secret hash
]

abbrev pub header_matches : Credentials → Bool
header_matches k = equals k.header_connector_id k.connector_id

abbrev is_locked : ManagedConnectorStatus → Bool
is_locked authentication_failed = true
is_locked _ = false

abbrev refused : {A : Type 0} → Action A
refused = raise (service_error "Connector authentication failed." 401)

-- The rest of `authenticate`, by what `get_unscoped` finds.
verify : Credentials → Option ManagedConnector → ℕ → Action ManagedConnector
unfolding record_auth_failure
verify k none now = refused
verify k (some c) now =
    if not (secret_matches k c.secret_hash) || not (header_matches k)
    then (do record_auth_failure c now; refused)
    else (do
      raise_if (is_some c.retired_at) (
          service_error
            (if k.retired_status_code == 401
              then "Connector authentication failed."
              else "Connector is retired.")
            k.retired_status_code)
      raise_if (k.reject_authentication_failed && is_locked c.status)
          (service_error "Connector authentication is locked after repeated failures." 403)
      modify_connector c.id (λ r. record r { last_seen_at = some now })
      pure (record c { last_seen_at = some now }))

-- The work on an unknown connector's dummy hash equalises the time only.
pub authenticate : Credentials → ℕ → Action ManagedConnector
unfolding verify
authenticate k now = do found ← query (get_unscoped k.connector_id); verify k found now
