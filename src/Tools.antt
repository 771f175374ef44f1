-- ===== src/Tools.antt =====
-- The tool requests that connectors poll for: backend/app/services/operational_tool_service.py.
pub mod Types
pub mod Requests
