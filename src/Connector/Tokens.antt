-- ===== src/Connector/Tokens.antt =====
-- Registration tokens in `ConnectorService`: creation, listing, revocation, and their status.
pub mod Lifecycle
use peka_saas.Common.{
  ℕ, ◌+◌, ◌*◌, String, Bool, true, false, Option, none, some, List, [], ◌∷◌, ◌&&◌, map, leb, ◌==◌,
  is_some, is_none, if◌then◌else◌,
}
use peka_saas.Common.Exec.{◌>>=◌, ◌>>◌, pure, raise, or_raise, raise_if, query, commit, rollback}
use peka_saas.Connector.Types.{
  ConnectorRegistrationToken, ConnectorEvent, ConnectorEventType, registration_token_generated,
  registration_token_revoked, registration_token_expired, seconds,
}
use peka_saas.Connector.Repository.{
  Action, Db, Outcome, stored, integrity_error, operation_error, service_error, database_error,
  get_registration_token, list_registration_tokens, modify_token, add_token, event,
  is_unrecorded_expired,
}

pub data TokenStatus : Type 0 where
  active used expired revoked : TokenStatus

unfoldable pub token_status : ConnectorRegistrationToken → ℕ → TokenStatus
token_status t now =
    if is_some t.used_at
    then used
    else if is_some t.revoked_at
    then revoked
    else if leb t.expires_at now
    then expired
    else active

-- `token_lifetime`, thirty minutes
abbrev pub token_lifetime : ℕ
token_lifetime = seconds (30 * 60)

pub record RegistrationTokenResponse : Type 0 where
  pub id : ℕ
  pub tenant_id : ℕ
  pub expires_at : ℕ
  pub used_at : Option ℕ
  pub created_by_user_id : Option ℕ
  pub created_at : ℕ
  pub revoked_at : Option ℕ
  pub intended_connector_name : Option String
  pub status : TokenStatus
  pub registration_token : Option ℕ  -- the raw token, only in the response to its creation

pub token_response : ConnectorRegistrationToken → ℕ → Option ℕ → RegistrationTokenResponse
token_response t now raw = record {
  id = t.id;
  tenant_id = t.tenant_id;
  expires_at = t.expires_at;
  used_at = t.used_at;
  created_by_user_id = t.created_by_user_id;
  created_at = t.created_at;
  revoked_at = t.revoked_at;
  intended_connector_name = t.intended_connector_name;
  status = token_status t now;
  registration_token = raw;
}

-- An event about a token.
abbrev pub token_event : ℕ → ConnectorEventType → ℕ → Option ℕ → String → ℕ → ConnectorEvent
token_event tenant_id kind token_id actor detail now = record {
  tenant_id = tenant_id;
  connector_id = none;
  registration_token_id = some token_id;
  event_type = kind;
  occurred_at = now;
  actor_user_id = actor;
  detail = some detail;
}

-- The row that `create_registration_token` adds; `id` is the default of the primary key.
abbrev pub new_token : ℕ → ℕ → ℕ → Option String → ℕ → ℕ → ConnectorRegistrationToken
new_token tenant_id token_hash actor_id intended_name id now = record {
  id = id;
  tenant_id = tenant_id;
  token_hash = token_hash;
  expires_at = now + token_lifetime;
  used_at = none;
  created_by_user_id = some actor_id;
  created_at = now;
  revoked_at = none;
  intended_connector_name = intended_name;
  expiration_event_recorded_at = none;
}

-- The end of a `try` block whose handler rolls back and raises again.
abbrev commit_or_raise : {A : Type 0} → Outcome → A → Action A
commit_or_raise stored a = do commit; pure a
commit_or_raise (integrity_error _) a = do rollback; raise database_error
commit_or_raise operation_error a = do rollback; raise database_error

-- `raw` is the generated token, and `hash` is `hash_registration_token`.
unfoldable pub create_registration_token :
    (ℕ → ℕ) → ℕ → ℕ → Option String → ℕ → ℕ → Outcome → ℕ → Action RegistrationTokenResponse
create_registration_token hash tenant_id actor_id intended_name raw id outcome now = do
  let token = new_token tenant_id (hash raw) actor_id intended_name id now
  add_token token
  event (
      token_event tenant_id registration_token_generated id (some actor_id)
        "Single-use registration token generated." now)
  commit_or_raise outcome (token_response token now (some raw))

-- The body of the loops that record an expiry: the mark on the token and the event.
abbrev pub record_expiry : ConnectorRegistrationToken → ℕ → ℕ → Action (Unit {0})
record_expiry t tenant_id now = do
  modify_token t.id (λ r. record r { expiration_event_recorded_at = some now })
  event
      (token_event tenant_id registration_token_expired t.id none "Registration token expired." now)

-- The loop of `list_registration_tokens`; the result is `changed`.
record_expired : ℕ → ℕ → List ConnectorRegistrationToken → Action Bool
record_expired tenant_id now [] = pure false
record_expired tenant_id now (t ∷ ts) =
    let rest = record_expired tenant_id now ts in
    if is_unrecorded_expired now t
    then (do record_expiry t tenant_id now; rest; pure true)
    else rest

abbrev pub commit_if : Bool → Action (Unit {0})
commit_if true = commit
commit_if false = pure tt

pub list_tokens : ℕ → Bool → ℕ → Action (List RegistrationTokenResponse)
unfolding record_expired
list_tokens tenant_id include_inactive now = do
  tokens ← query (list_registration_tokens tenant_id include_inactive now)
  changed ← record_expired tenant_id now tokens
  commit_if changed
  pure (map (λ t. token_response t now none) tokens)

-- The assignment, event and commit of a token that was not yet revoked.
abbrev mark_revoked : ConnectorRegistrationToken → ℕ → ℕ → ℕ → Action RegistrationTokenResponse
mark_revoked t tenant_id actor_id now = do
  modify_token t.id (λ r. record r { revoked_at = some now })
  event (
      token_event tenant_id registration_token_revoked t.id (some actor_id)
        "Registration token revoked." now)
  commit
  pure (token_response (record t { revoked_at = some now }) now none)

unfoldable pub revoke_registration_token : ℕ → ℕ → ℕ → ℕ → Action RegistrationTokenResponse
revoke_registration_token tenant_id token_id actor_id now = do
  found ← query (get_registration_token tenant_id token_id)
  token ← or_raise found (service_error "Registration token not found." 404)
  raise_if (is_some token.used_at) (service_error "Used registration tokens cannot be revoked." 409)
  (if is_none token.revoked_at
      then mark_revoked token tenant_id actor_id now
      else pure (token_response token now none))
