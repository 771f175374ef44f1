-- ===== src/Tools/Types.antt =====
-- The rows of backend/app/models/connector.py that carry a tool request, and the payloads of
-- backend/app/schemas/operational_tools.py. JSON objects and hashes are natural numbers: the code
-- only copies and compares them.
use text.Mathlib.Text.{◌==◌}
use peka_saas.Common.{ℕ, String, Bool, false, Option, List, [], ◌∷◌, ◌||◌}
use peka_saas.Connector.Types.{ManagedConnector, ConnectorCapability}

-- The values of the column `status`.
pub data ToolStatus : Type 0 where
  pending claimed completed failed expired : ToolStatus

pub record OperationalToolRequest : Type 0 where
  pub id : ℕ
  pub created_at : ℕ
  pub tenant_id : ℕ
  pub connector_id : ℕ
  pub created_by_user_id : ℕ
  pub tool_name : String
  pub arguments : ℕ
  pub status : ToolStatus
  pub expires_at : ℕ
  pub claimed_at : Option ℕ
  pub claim_expires_at : Option ℕ
  pub claim_token_hash : Option ℕ
  pub attempt_count : ℕ
  pub completed_at : Option ℕ
  pub result : Option ℕ
  pub error_code : Option String
  pub error_message : Option String

allowed_operational_tools : List String
allowed_operational_tools =
    "get_inventory_summary" ∷ "count_assets" ∷ "search_assets" ∷ "get_asset_details"
    ∷ "get_asset_status" ∷ "get_asset_utilization" ∷ "get_asset_log_evidence" ∷ "search_tickets"
    ∷ "get_ticket" ∷ "get_ticket_counts" ∷ "get_asset_tickets" ∷ "correlate_tickets_with_evidence"
    ∷ "get_all_ticket_sources" ∷ "ticketing_search_records" ∷ "servicenow_get_status"
    ∷ "servicenow_get_incident" ∷ "servicenow_search_incidents" ∷ "servicenow_list_open_incidents"
    ∷ "servicenow_get_incident_updates" ∷ "servicenow_get_ci" ∷ "servicenow_get_ci_relationships"
    ∷ "servicenow_get_ci_tickets" ∷ "servicenow_search_problems" ∷ "servicenow_search_changes"
    ∷ "knowledge_search" ∷ []

-- `name in names`
abbrev is_in : String → List String → Bool
is_in name [] = false
is_in name (n ∷ names) = name == n || is_in name names

unfoldable pub is_allowed : String → Bool
unfolding allowed_operational_tools
is_allowed tool_name = is_in tool_name allowed_operational_tools

pub record OperationalToolRequestView : Type 0 where
  pub id : ℕ
  pub tool_name : String
  pub arguments : ℕ
  pub expires_at : ℕ
  pub claim_token : ℕ

-- The two values of the submitted status.
pub data SubmittedStatus : Type 0 where
  completed failed : SubmittedStatus

pub record OperationalToolResultSubmission : Type 0 where
  pub claim_token : ℕ
  pub status : SubmittedStatus
  pub result : Option ℕ
  pub error_code : Option String
  pub error_message : Option String

-- The tables that the service reads and writes.
pub record Db : Type 0 where
  pub connectors : List ManagedConnector
  pub capabilities : List ConnectorCapability
  pub requests : List OperationalToolRequest

-- `ValueError`, `OperationalToolUnavailable` and `OperationalToolConflict`.
pub data ToolError : Type 0 where
  value_error unavailable conflict : String → ToolError
