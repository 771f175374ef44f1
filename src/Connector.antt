-- ===== src/Connector.antt =====
-- The connector registry: backend/app/models/connector.py,
-- backend/app/repositories/connector_repository.py, backend/app/services/connector_service.py and
-- backend/app/services/connector_status_service.py.
pub mod Types
pub mod Status
pub mod Repository
pub mod Tokens
pub mod Register
pub mod Authenticate
pub mod Heartbeat
pub mod Maintenance
