-- ===== src/Ingestion/Worker.antt =====
-- `IngestionWorker` of backend/app/services/ingestion_worker.py.
pub mod Env
pub mod Parse
pub mod Chunk
pub mod Index
pub mod Run
pub mod Failure
pub mod Outcomes
pub mod Restart
pub mod Vectors
