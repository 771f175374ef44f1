-- ===== src/Tenancy.antt =====
-- The tenants and the registry that resolves hosts to them: backend/app/services/tenant_service.py and
-- backend/app/core/tenant_registry.py.
pub mod Registry
pub mod Types
pub mod Service
