-- ===== src/Witness/ToolData.antt =====
-- A connector that polls for tool requests, and the tables about it.
use peka_saas.Common.{◌+◌, none, some, [], ◌∷◌}
use peka_saas.Tools.Types.{
  ToolStatus, OperationalToolRequest, OperationalToolResultSubmission, SubmittedStatus, Db,
  OperationalToolRequestView,
}
use peka_saas.Tools.Requests.{Env, claim, submit}
use peka_saas.Common.Exec.{begin}
use peka_saas.Witness.ConnectorData.{connector}

abbrev pub env : Env
env = record { sha256 = λ t. t + 1; dump_length = λ n. n; empty_object = 0 }

abbrev pub empty : Db
empty = record {
  connectors = connector ∷ [];
  capabilities =
      record { connector_id = 9; tenant_id = 1; name = "operational_tools"; last_reported_at = 20 }
      ∷ [];
  requests = [];
}

abbrev pub waiting : OperationalToolRequest
waiting = record {
  id = 3;
  created_at = 200;
  tenant_id = 1;
  connector_id = 9;
  created_by_user_id = 2;
  tool_name = "get_ticket";
  arguments = 8;
  status = ToolStatus.pending;
  expires_at = 30000200;
  claimed_at = none;
  claim_expires_at = none;
  claim_token_hash = none;
  attempt_count = 0;
  completed_at = none;
  result = none;
  error_code = none;
  error_message = none;
}

abbrev pub asked : Db
asked = record empty { requests = waiting ∷ [] }

abbrev pub handed : Db
handed = (claim env connector 50 300 (begin asked)).1.committed

abbrev pub answer : OperationalToolResultSubmission
answer = record {
  claim_token = 50;
  status = SubmittedStatus.completed;
  result = some 7;
  error_code = none;
  error_message = none;
}

abbrev pub shown : OperationalToolRequestView
shown = record {
  id = 3;
  tool_name = "get_ticket";
  arguments = 8;
  expires_at = 30000200;
  claim_token = 50;
}

abbrev pub answered : Db
answered = (submit env connector 3 answer 400 (begin handed)).1.committed
