-- ===== src/Tools/Requests.antt =====
-- `OperationalToolService` of backend/app/services/operational_tool_service.py. The clock, a new id
-- and a new claim token are arguments; `with_for_update` is the order of the calls, since each call
-- ends its transaction before the next begins.
pub mod Cases
pub mod Lifecycle
pub mod Refinement
pub mod History
pub mod Exchange
pub mod Handed
pub mod Ordered
pub mod Routing
use text.Mathlib.Text
use peka_saas.Common.{
  ℕ, ◌+◌, ◌-◌, ◌*◌, max, String, Bool, true, false, Option, none, some, List, [], ◌∷◌, ◌++◌, ◌&&◌,
  ◌||◌, not, leb, ltb, ◌==◌, equals, is_none, is_some, find, where_rows, update_rows, if◌then◌else◌,
}
use peka_saas.Common.Exec.{Exec, Session, ◌>>=◌, ◌>>◌, pure, raise, raise_if, query, write, commit}
use peka_saas.Common.Order.{earliest}
use peka_saas.Connector.Types.{
  ManagedConnector, ManagedConnectorStatus, connected, in_sync, degraded, ConnectorCapability,
  seconds,
}
use peka_saas.Tools.Types.{
  ToolStatus, OperationalToolRequest, OperationalToolRequestView, SubmittedStatus,
  OperationalToolResultSubmission, Db, ToolError, value_error, unavailable, conflict, is_allowed,
}

abbrev pub Action : Type 0 → Type 0
Action = Exec (Session Db) ToolError

abbrev pub request_ttl : ℕ
request_ttl = seconds 30

abbrev pub claim_ttl : ℕ
claim_ttl = seconds 15

abbrev pub maximum_attempts : ℕ
maximum_attempts = 3

-- `sha256`, the length of `json.dumps`, and the object `{}`.
pub record Env : Type 0 where
  pub sha256 : ℕ → ℕ
  pub dump_length : ℕ → ℕ
  pub empty_object : ℕ

-- `status in connected`
abbrev pub is_connected : ManagedConnectorStatus → Bool
is_connected connected = true
is_connected in_sync = true
is_connected degraded = true
is_connected _ = false

abbrev pub required_capability : String → String
required_capability tool_name =
    if Text.◌==◌ tool_name "knowledge_search" then "local_knowledge" else "operational_tools"

-- The subquery of `create`.
abbrev pub has_capability : ℕ → String → List ConnectorCapability → ℕ → Bool
has_capability tenant_id name rows id =
    is_some
      (find (λ k. k.connector_id == id && (k.tenant_id == tenant_id && Text.◌==◌ k.name name)) rows)

-- The condition of the query of `create`.
abbrev pub is_candidate : ℕ → String → Db → ManagedConnector → Bool
is_candidate tenant_id tool_name db c =
    c.tenant_id == tenant_id
    && (is_none c.retired_at
        && (is_connected c.status
            && has_capability tenant_id (required_capability tool_name) db.capabilities c.id))

-- `order_by(last_seen_at.desc().nullslast(), registered_at.desc())`
unfoldable pub precedes : ManagedConnector → ManagedConnector → Bool
precedes c d = by_seen c.last_seen_at d.last_seen_at
  where
    by_seen : Option ℕ → Option ℕ → Bool
    by_seen (some a) (some b) = ltb b a || (a == b && leb d.registered_at c.registered_at)
    by_seen (some a) none = true
    by_seen none (some b) = false
    by_seen none none = leb d.registered_at c.registered_at

unfoldable pub insert : ManagedConnector → List ManagedConnector → List ManagedConnector
insert c [] = c ∷ []
insert c (d ∷ ds) = let rest = insert c ds in if precedes c d then c ∷ d ∷ ds else d ∷ rest

unfoldable pub ordered : List ManagedConnector → List ManagedConnector
ordered [] = []
ordered (c ∷ cs) = insert c (ordered cs)

-- `now - last_seen_at <= …`; `-` stops at 0, where the source's difference is negative.
abbrev pub is_fresh : ℕ → ManagedConnector → Bool
is_fresh now c = elim c.last_seen_at [
  | none ↦ false
  | some at ↦ leb (now - at) (seconds (max 90 (c.heartbeat_interval_seconds * 2)))
]

-- The connector that `create` chooses.
unfoldable pub chosen : ℕ → String → ℕ → Db → Option ManagedConnector
chosen tenant_id tool_name now db =
    find (is_fresh now) (ordered (where_rows (is_candidate tenant_id tool_name db) db.connectors))

abbrev pub new_request : ℕ → ManagedConnector → ℕ → String → ℕ → ℕ → ℕ → OperationalToolRequest
new_request tenant_id c user_id tool_name arguments id now = record {
  id = id;
  created_at = now;
  tenant_id = tenant_id;
  connector_id = c.id;
  created_by_user_id = user_id;
  tool_name = tool_name;
  arguments = arguments;
  status = ToolStatus.pending;
  expires_at = now + request_ttl;
  claimed_at = none;
  claim_expires_at = none;
  claim_token_hash = none;
  attempt_count = 0;
  completed_at = none;
  result = none;
  error_code = none;
  error_message = none;
}

-- The rest of `create`, by the connector that it chooses.
add_for : ℕ → ℕ → String → ℕ → ℕ → ℕ → Option ManagedConnector → Action OperationalToolRequest
add_for tenant_id user_id tool_name arguments id now none =
    raise (unavailable "No active connector is currently available for this tenant.")
add_for tenant_id user_id tool_name arguments id now (some c) = do
  write λ db. record db {
    requests = db.requests ++ new_request tenant_id c user_id tool_name arguments id now ∷ [];
  }
  commit
  pure (new_request tenant_id c user_id tool_name arguments id now)

unfoldable pub create : ℕ → ℕ → String → ℕ → ℕ → ℕ → Action OperationalToolRequest
unfolding add_for
create tenant_id user_id tool_name arguments id now = do
  raise_if (not (is_allowed tool_name)) (value_error "Unsupported operational tool")
  connector ← query (chosen tenant_id tool_name now)
  add_for tenant_id user_id tool_name arguments id now connector

abbrev pub is_pending : ToolStatus → Bool
is_pending ToolStatus.pending = true
is_pending _ = false

abbrev pub is_claimed : ToolStatus → Bool
is_claimed ToolStatus.claimed = true
is_claimed _ = false

-- `value is not None and value <= now`, as SQL reads the comparison with NULL
abbrev pub has_passed : ℕ → Option ℕ → Bool
has_passed now none = false
has_passed now (some at) = leb at now

-- The condition of the query of `claim`.
abbrev pub is_claimable : ManagedConnector → ℕ → OperationalToolRequest → Bool
is_claimable c now r =
    r.connector_id == c.id
    && (r.tenant_id == c.tenant_id
        && (ltb now r.expires_at
            && (ltb r.attempt_count maximum_attempts
                && (is_pending r.status
                    || (is_claimed r.status && has_passed now r.claim_expires_at)))))

-- The assignments of `claim`.
abbrev pub claimed : ℕ → ℕ → OperationalToolRequest → OperationalToolRequest
claimed token_hash now r = record r {
  status = ToolStatus.claimed;
  claimed_at = some now;
  claim_expires_at = some (now + claim_ttl);
  claim_token_hash = some token_hash;
  attempt_count = r.attempt_count + 1;
}

abbrev pub modify_request :
    ℕ → (OperationalToolRequest → OperationalToolRequest) → Action (Unit {0})
modify_request id f =
    write λ db. record db { requests = update_rows (λ r. r.id == id) f db.requests }

-- The condition and the assignments of `_expire_old`.
abbrev pub is_old : ℕ → OperationalToolRequest → Bool
is_old now r = (is_pending r.status || is_claimed r.status) && leb r.expires_at now

abbrev pub expired : OperationalToolRequest → OperationalToolRequest
expired r = record r {
  status = ToolStatus.expired;
  claim_token_hash = none;
  claim_expires_at = none;
}

-- The loop writes to each row that the query returns, which are the rows with its condition.
abbrev pub expire_old : ℕ → Action (Unit {0})
expire_old now = write λ db. record db { requests = update_rows (is_old now) expired db.requests }

abbrev pub view : OperationalToolRequest → ℕ → OperationalToolRequestView
view r token = record {
  id = r.id;
  tool_name = r.tool_name;
  arguments = r.arguments;
  expires_at = r.expires_at;
  claim_token = token;
}

-- The rest of `claim`, by the request that its query returns.
take : Env → ℕ → ℕ → Option OperationalToolRequest → Action (Option OperationalToolRequestView)
take env token now none = do expire_old now; commit; pure none
take env token now (some r) = do
  modify_request r.id (claimed (env.sha256 token) now)
  commit
  pure (some (view r token))

unfoldable pub claim : Env → ManagedConnector → ℕ → ℕ → Action (Option OperationalToolRequestView)
unfolding take
claim env c token now = do
  found ← query (λ db. earliest (λ r. r.created_at) (is_claimable c now) db.requests)
  take env token now found

-- The row of a request that a connector names.
abbrev pub request_of : ManagedConnector → ℕ → Db → Option OperationalToolRequest
request_of c request_id db =
    find (λ r. r.id == request_id && (r.connector_id == c.id && r.tenant_id == c.tenant_id))
      db.requests

-- The negation of the second test of `submit`.
abbrev pub holds_claim : Env → ℕ → ℕ → OperationalToolRequest → Bool
holds_claim env token now r =
    is_claimed r.status
    && (equals r.claim_token_hash (env.sha256 token)
        && (elim r.claim_expires_at [ none ↦ false | some at ↦ ltb now at ]
            && ltb now r.expires_at))

abbrev pub is_too_large : Env → Option ℕ → Bool
is_too_large env none = false
is_too_large env (some result) = ltb 100000 (env.dump_length result)

-- The assignments of `submit`, by the submitted status.
abbrev pub ended :
    OperationalToolResultSubmission
    → SubmittedStatus
    → ℕ
    → OperationalToolRequest
    → OperationalToolRequest
ended s SubmittedStatus.completed now r = record r {
  status = ToolStatus.completed;
  completed_at = some now;
  result = s.result;
  error_code = none;
  error_message = none;
  claim_token_hash = none;
  claim_expires_at = none;
}
ended s SubmittedStatus.failed now r = record r {
  status = ToolStatus.failed;
  completed_at = some now;
  result = none;
  error_code = s.error_code;
  error_message = s.error_message;
  claim_token_hash = none;
  claim_expires_at = none;
}

abbrev pub submitted :
    OperationalToolResultSubmission → ℕ → OperationalToolRequest → OperationalToolRequest
submitted s now r = ended s s.status now r

-- The rest of `submit`, by the request that its query returns.
store :
    Env
    → OperationalToolResultSubmission
    → ℕ
    → Option OperationalToolRequest
    → Action OperationalToolRequest
store env s now none = raise (conflict "Operational tool request was not found.")
store env s now (some r) = do
  raise_if (not (holds_claim env s.claim_token now r))
      (conflict "Operational tool claim is expired or has already been consumed.")
  raise_if (is_too_large env s.result) (value_error "Operational tool result is too large.")
  modify_request r.id (submitted s now)
  commit
  pure (submitted s now r)

unfoldable pub submit :
    Env → ManagedConnector → ℕ → OperationalToolResultSubmission → ℕ → Action OperationalToolRequest
unfolding store
submit env c request_id s now = do found ← query (request_of c request_id); store env s now found

abbrev pub request_of_tenant : ℕ → ℕ → Db → Option OperationalToolRequest
request_of_tenant tenant_id request_id db =
    find (λ r. r.id == request_id && r.tenant_id == tenant_id) db.requests

-- `status not in {"completed", "failed"}`
abbrev pub is_open : ToolStatus → Bool
is_open ToolStatus.completed = false
is_open ToolStatus.failed = false
is_open _ = true

abbrev pub lapsed : OperationalToolRequest → OperationalToolRequest
lapsed r = record r { status = ToolStatus.expired }

-- The rest of `result`, by the request that its query returns.
report : ℕ → Option OperationalToolRequest → Action OperationalToolRequest
report now none = raise (unavailable "Operational tool request was not found.")
report now (some r) =
    if is_open r.status && leb r.expires_at now
    then (do modify_request r.id lapsed; commit; pure (lapsed r))
    else pure r

unfoldable pub result : ℕ → ℕ → ℕ → Action OperationalToolRequest
unfolding report
result tenant_id request_id now = do
  found ← query (request_of_tenant tenant_id request_id)
  report now found

abbrev pub cleared : Env → OperationalToolRequest → OperationalToolRequest
cleared env r = record r { result = none; arguments = env.empty_object }

clear : Env → Option OperationalToolRequest → Action (Unit {0})
clear env none = pure tt
clear env (some r) = do modify_request r.id (cleared env); commit

unfoldable pub clear_ephemeral_payload : Env → ℕ → ℕ → Action (Unit {0})
unfolding clear
clear_ephemeral_payload env tenant_id request_id = do
  found ← query (request_of_tenant tenant_id request_id)
  clear env found
