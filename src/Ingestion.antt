-- ===== src/Ingestion.antt =====
-- Document ingestion: backend/app/models/document.py,
-- backend/app/repositories/document_repository.py,
-- backend/app/services/ingestion_status_service.py, backend/app/services/ingestion_worker.py and
-- backend/app/services/document_ingestion_service.py.
pub mod Accept
pub mod Types
pub mod Status
pub mod World
pub mod Queue
pub mod Worker
