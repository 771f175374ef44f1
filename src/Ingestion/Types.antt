-- ===== src/Ingestion/Types.antt =====
-- The enumerations and rows of backend/app/models/document.py. UUIDs, timestamps (microseconds) and
-- texts that are only compared and copied are natural numbers.
use peka_saas.Common.{ℕ, String, Bool, true, false, Option}

-- A text, hash or JSON value that the code only compares and copies.
abbrev pub Text : Type 0
Text = ℕ

pub data DocumentLifecycleStatus : Type 0 where
  active deleted : DocumentLifecycleStatus

pub data StorageStatus : Type 0 where
  stored retained storage_deleted : StorageStatus

pub data IngestionStatus : Type 0 where
  received parsing parsed chunking chunked embedding indexing indexed failed : IngestionStatus
  delete_pending deleted_from_index : IngestionStatus

pub data IngestionJobType : Type 0 where
  pipeline parse_document chunk_document embed_and_index : IngestionJobType
  delete_from_index reindex_document : IngestionJobType

pub data IngestionJobState : Type 0 where
  pending in_progress succeeded failed_retryable failed_permanent cancelled : IngestionJobState
  running retry completed job_failed : IngestionJobState

pub record Document : Type 0 where
  pub id : ℕ
  pub tenant_id : ℕ
  pub created_at : ℕ
  pub connector_id : Option ℕ
  pub created_by_connector_id : Option ℕ
  pub last_seen_by_connector_id : Option ℕ
  pub last_synchronized_at : Option ℕ
  pub source_id : Text
  pub document_key : Text
  pub current_version_id : Option ℕ
  pub filename : Text
  pub normalized_filename : Text
  pub relative_path : Text
  pub mime_type : Text
  pub extension : Text
  pub lifecycle_status : DocumentLifecycleStatus
  pub is_deleted : Bool
  pub deleted_at : Option ℕ

pub record DocumentVersion : Type 0 where
  pub id : ℕ
  pub document_id : ℕ
  pub tenant_id : ℕ
  pub connector_id : Option ℕ
  pub content_hash : Text
  pub size_bytes : ℕ
  pub modified_at : ℕ
  pub object_key : Text
  pub storage_status : StorageStatus
  pub ingestion_status : IngestionStatus
  pub parser_name : Option Text
  pub parser_version : Option Text
  pub detected_format : Option Text
  pub source_format : Option Text
  pub format_detection_confidence : Option ℕ  -- a float that is only copied
  pub format_detection_reason : Option Text
  pub chunker_name : Option String
  pub chunker_version : Option String
  pub embedding_provider : Option Text
  pub embedding_model : Option Text
  pub embedding_dimension : Option ℕ
  pub error_code : Option String
  pub safe_error_message : Option String
  pub received_at : ℕ
  pub stored_at : Option ℕ
  pub queued_at : Option ℕ
  pub parsing_started_at : Option ℕ
  pub parsed_at : Option ℕ
  pub chunking_started_at : Option ℕ
  pub chunked_at : Option ℕ
  pub embedding_started_at : Option ℕ
  pub embedding_completed_at : Option ℕ
  pub indexing_started_at : Option ℕ
  pub indexing_completed_at : Option ℕ
  pub indexed_at : Option ℕ
  pub failed_at : Option ℕ

pub record IngestionJob : Type 0 where
  pub id : ℕ
  pub created_at : ℕ
  pub tenant_id : ℕ
  pub document_id : ℕ
  pub version_id : Option ℕ
  pub job_type : IngestionJobType
  pub state : IngestionJobState
  pub attempts : ℕ
  pub max_attempts : ℕ
  pub next_retry_at : Option ℕ
  pub locked_at : Option ℕ
  pub locked_by : Option Text
  pub started_at : Option ℕ
  pub completed_at : Option ℕ
  pub error_code : Option String
  pub safe_error_message : Option String
  pub correlation_id : Option Text

pub record DocumentChunk : Type 0 where
  pub id : ℕ
  pub tenant_id : ℕ
  pub connector_id : Option ℕ
  pub source_id : Text
  pub document_id : ℕ
  pub version_id : ℕ
  pub chunk_index : ℕ
  pub chunk_key : Text
  pub text : Text
  pub token_count : ℕ
  pub page_number : Option ℕ
  pub sheet_name : Option Text
  pub row_start : Option ℕ
  pub row_end : Option ℕ
  pub section_title : Option Text
  pub chunk_metadata : Text
  pub qdrant_point_id : ℕ

pub record DocumentParsedSection : Type 0 where
  pub tenant_id : ℕ
  pub document_id : ℕ
  pub version_id : ℕ
  pub section_index : ℕ
  pub text : Text
  pub page_number : Option ℕ
  pub sheet_name : Option Text
  pub row_start : Option ℕ
  pub row_end : Option ℕ
  pub section_title : Option Text
  pub section_metadata : Text

-- `ConnectorDocumentAcknowledgement` of backend/app/schemas/document_api.py; `accepted` is true.
pub record ConnectorDocumentAcknowledgement : Type 0 where
  pub document_id : ℕ
  pub version_id : Option ℕ
  pub content_hash : Option Text
  pub ingestion_status : String

pub record DocumentIdempotencyRecord : Type 0 where
  pub tenant_id : ℕ
  pub connector_id : ℕ
  pub idempotency_key : Text
  pub operation : String
  pub request_fingerprint : Text
  pub document_id : Option ℕ
  pub version_id : Option ℕ
  pub response_payload : ConnectorDocumentAcknowledgement
  pub http_status : ℕ
  pub status : String
  pub expires_at : Option ℕ

pub record IngestionWorkerHeartbeat : Type 0 where
  pub worker_id : Text
  pub last_seen_at : ℕ
  pub current_job_id : Option ℕ
  pub status : String

-- `state in active_states` of `enqueue_job`
unfoldable pub is_active : IngestionJobState → Bool
is_active pending = true
is_active in_progress = true
is_active failed_retryable = true
is_active running = true
is_active retry = true
is_active _ = false

-- The states that `claim_job` selects.
unfoldable pub is_claimable : IngestionJobState → Bool
is_claimable pending = true
is_claimable failed_retryable = true
is_claimable retry = true
is_claimable _ = false

-- The states of a job that a worker holds.
unfoldable pub is_running : IngestionJobState → Bool
is_running in_progress = true
is_running running = true
is_running _ = false

-- `job_type == other`
unfoldable pub same_type : IngestionJobType → IngestionJobType → Bool
same_type pipeline pipeline = true
same_type parse_document parse_document = true
same_type chunk_document chunk_document = true
same_type embed_and_index embed_and_index = true
same_type delete_from_index delete_from_index = true
same_type reindex_document reindex_document = true
same_type _ _ = false
