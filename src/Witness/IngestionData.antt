-- ===== src/Witness/IngestionData.antt =====
-- A document with one version of one chunk, its job, and a worker.
use peka_saas.Common.{◌+◌, ◌*◌, Bool, none, some, [], ◌∷◌, map}
use peka_saas.Common.Exec.{ok}
use peka_saas.Ingestion.Types.{
  Document, DocumentVersion, DocumentChunk, IngestionJob, IngestionJobType, IngestionJobState,
  IngestionStatus, DocumentLifecycleStatus, StorageStatus,
}
use peka_saas.Ingestion.World.{Db, World, VectorPoint}
use peka_saas.Ingestion.Queue.{NewJob}
use peka_saas.Ingestion.Worker.Env.{Env}
use peka_saas.Ingestion.Worker.Index.{point}

-- The document 10 of the tenant 1, deleted or not.
abbrev pub document : Bool → Document
document gone = record {
  id = 10;
  tenant_id = 1;
  created_at = 5;
  connector_id = some 9;
  created_by_connector_id = some 9;
  last_seen_by_connector_id = some 9;
  last_synchronized_at = some 6;
  source_id = 100;
  document_key = 101;
  current_version_id = some 20;
  filename = 102;
  normalized_filename = 103;
  relative_path = 104;
  mime_type = 105;
  extension = 106;
  lifecycle_status = DocumentLifecycleStatus.active;
  is_deleted = gone;
  deleted_at = none;
}

abbrev pub version : IngestionStatus → DocumentVersion
version status = record {
  id = 20;
  document_id = 10;
  tenant_id = 1;
  connector_id = some 9;
  content_hash = 200;
  size_bytes = 1000;
  modified_at = 4;
  object_key = 201;
  storage_status = StorageStatus.stored;
  ingestion_status = status;
  parser_name = some 202;
  parser_version = some 203;
  detected_format = none;
  source_format = none;
  format_detection_confidence = none;
  format_detection_reason = none;
  chunker_name = some "peka-token-window";
  chunker_version = some "1";
  embedding_provider = none;
  embedding_model = none;
  embedding_dimension = none;
  error_code = none;
  safe_error_message = none;
  received_at = 5;
  stored_at = some 5;
  queued_at = some 5;
  parsing_started_at = none;
  parsed_at = none;
  chunking_started_at = none;
  chunked_at = none;
  embedding_started_at = none;
  embedding_completed_at = none;
  indexing_started_at = none;
  indexing_completed_at = none;
  indexed_at = none;
  failed_at = none;
}

abbrev pub chunk_row : DocumentChunk
chunk_row = record {
  id = 30;
  tenant_id = 1;
  connector_id = some 9;
  source_id = 100;
  document_id = 10;
  version_id = 20;
  chunk_index = 0;
  chunk_key = 300;
  text = 300;
  token_count = 50;
  page_number = none;
  sheet_name = none;
  row_start = none;
  row_end = none;
  section_title = none;
  chunk_metadata = 301;
  qdrant_point_id = 31;
}

abbrev pub job : IngestionJobType → IngestionJobState → IngestionJob
job kind state = record {
  id = 40;
  created_at = 7;
  tenant_id = 1;
  document_id = 10;
  version_id = some 20;
  job_type = kind;
  state = state;
  attempts = 1;
  max_attempts = 3;
  next_retry_at = none;
  locked_at = some 8;
  locked_by = some 500;
  started_at = some 8;
  completed_at = none;
  error_code = none;
  safe_error_message = none;
  correlation_id = none;
}

abbrev pub fresh_job : NewJob
fresh_job = record { id = 41; created_at = 50; max_attempts = 3 }

abbrev pub env : Env
env = record {
  worker_id = 500;
  now = 60;
  stale_after = 30;
  retry_base = 10;
  retry_max = 100;
  jitter = 1;
  new_job = fresh_job;
  open_and_parse = λ key name mime. ok (record {
    sections = [];
    parser_name = 202;
    parser_version = 203;
    detected_format = none;
    source_format = none;
    detection_confidence = none;
    detection_reason = none;
  });
  section_metadata = λ parsed section. section.metadata;
  chunk_document = λ sections parser. [];
  chunk_id = λ index. 30 + index;
  point_id = λ version_id index. version_id * 100 + index;
  chunk_key = λ version_id index. version_id * 100 + index;
  embed = λ texts. ok (map (λ t. t + 1) texts);
  embedding_name = 600;
  embedding_model = 601;
  embedding_dimension = 3;
  delete_fault = none;
  upsert_fault = none;
}

-- The world with one job, where the index still holds a point of an older version.
abbrev pub old_point : VectorPoint
old_point =
    point env (job IngestionJobType.embed_and_index IngestionJobState.in_progress)
      (record (version IngestionStatus.indexed) { id = 19 }) (document Bool.false)
      (record chunk_row { qdrant_point_id = 18 }) 1

abbrev tables : Bool → IngestionStatus → IngestionJob → Db
tables gone status j = record {
  documents = document gone ∷ [];
  versions = version status ∷ [];
  sections = [];
  chunks = chunk_row ∷ [];
  jobs = j ∷ [];
  idempotency = [];
  workers = [];
}

abbrev pub world : Bool → IngestionStatus → IngestionJob → World
world gone status j = record {
  working = tables gone status j;
  committed = tables gone status j;
  points = old_point ∷ [];
  objects = 201 ∷ [];
}
