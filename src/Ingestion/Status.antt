-- ===== src/Ingestion/Status.antt =====
-- `IngestionStatusService` of backend/app/services/ingestion_status_service.py.
pub mod Reach
use peka_saas.Common.{Bool, true, false, ◌||◌, if◌then◌else◌}
use peka_saas.Ingestion.Types.{
  IngestionStatus, received, parsing, parsed, chunking, chunked, embedding, indexing, indexed,
  failed, delete_pending, deleted_from_index,
}

-- `version.ingestion_status == target`
unfoldable pub same_status : IngestionStatus → IngestionStatus → Bool
same_status received received = true
same_status parsing parsing = true
same_status parsed parsed = true
same_status chunking chunking = true
same_status chunked chunked = true
same_status embedding embedding = true
same_status indexing indexing = true
same_status indexed indexed = true
same_status failed failed = true
same_status delete_pending delete_pending = true
same_status deleted_from_index deleted_from_index = true
same_status _ _ = false

-- `target in _allowed[status]`; every status has an entry in the table.
unfoldable pub allowed : IngestionStatus → IngestionStatus → Bool
allowed received parsing = true
allowed received failed = true
allowed parsing parsed = true
allowed parsing failed = true
allowed parsed chunking = true
allowed parsed parsing = true
allowed parsed failed = true
allowed chunking chunked = true
allowed chunking failed = true
allowed chunked embedding = true
allowed chunked parsing = true
allowed chunked failed = true
allowed embedding indexing = true
allowed embedding chunked = true
allowed embedding failed = true
allowed indexing indexed = true
allowed indexing chunked = true
allowed indexing failed = true
allowed indexed parsing = true
allowed indexed embedding = true
allowed indexed delete_pending = true
allowed indexed failed = true
allowed failed received = true
allowed failed parsing = true
allowed failed embedding = true
allowed delete_pending deleted_from_index = true
allowed delete_pending failed = true
allowed deleted_from_index parsing = true
allowed _ _ = false

-- Whether `transition` returns; it leaves the version in the target status, or raises.
unfoldable pub accepts : IngestionStatus → IngestionStatus → Bool
unfolding same_status allowed
accepts status target = same_status status target || allowed status target
