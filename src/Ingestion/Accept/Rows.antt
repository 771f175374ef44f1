-- ===== src/Ingestion/Accept/Rows.antt =====
-- The rows of documents and versions that `accept` writes.
use peka_saas.Common.{ℕ, false, Option, none, some, [], ◌∷◌, ◌++◌, ◌==◌, update_rows}
use peka_saas.Common.Exec.{◌>>◌, pure}
use peka_saas.Ingestion.Types.{
  Text, Document, DocumentVersion, received, DocumentLifecycleStatus, StorageStatus,
}
use peka_saas.Ingestion.Accept.{Accept, Delivery, write, flush}

-- Assignments to the attributes of loaded rows.
abbrev pub modify_document : ℕ → (Document → Document) → Accept (Unit {0})
modify_document id f =
    write λ db. record db { documents = update_rows (λ d. d.id == id) f db.documents }

abbrev pub modify_version : ℕ → (DocumentVersion → DocumentVersion) → Accept (Unit {0})
modify_version id f =
    write λ db. record db { versions = update_rows (λ v. v.id == id) f db.versions }

-- The row that an unknown document gets.
abbrev pub new_document : Delivery → Document
new_document x = record {
  id = x.new_document_id;
  tenant_id = x.connector.tenant_id;
  created_at = x.now;
  connector_id = some x.connector.id;
  created_by_connector_id = some x.connector.id;
  last_seen_by_connector_id = some x.connector.id;
  last_synchronized_at = some x.now;
  source_id = x.metadata.source_id;
  document_key = x.metadata.document_key;
  current_version_id = none;
  filename = x.metadata.filename;
  normalized_filename = x.casefold x.metadata.filename;
  relative_path = x.metadata.relative_path;
  mime_type = x.metadata.mime_type;
  extension = x.lower (x.suffix x.metadata.filename);
  lifecycle_status = DocumentLifecycleStatus.active;
  is_deleted = false;
  deleted_at = none;
}

-- The assignments to a document, known or new.
abbrev pub described : Delivery → Document → Document
described x d = record d {
  filename = x.metadata.filename;
  normalized_filename = x.casefold x.metadata.filename;
  relative_path = x.metadata.relative_path;
  mime_type = x.metadata.mime_type;
  extension = x.lower (x.suffix x.metadata.filename);
  lifecycle_status = DocumentLifecycleStatus.active;
  is_deleted = false;
  deleted_at = none;
}

-- The assignments to a document that is known.
abbrev pub seen : Delivery → Document → Document
seen x d = record d {
  connector_id = some x.connector.id;
  last_seen_by_connector_id = some x.connector.id;
  last_synchronized_at = some x.now;
  source_id = x.metadata.source_id;
}

-- The document of the delivery, after its assignments.
abbrev pub put_document : Delivery → Option Document → Accept Document
put_document x none = do
  write λ db. record db { documents = db.documents ++ described x (new_document x) ∷ [] }
  flush x.document_flush_fails
  pure (described x (new_document x))
put_document x (some d) = do
  modify_document d.id (λ r. described x (seen x r))
  pure (described x (seen x d))

abbrev pub point_to : Document → ℕ → Accept (Unit {0})
point_to d version_id =
    modify_document d.id (λ r. record r { current_version_id = some version_id })

-- The row of a new version.
abbrev pub new_version : Delivery → Document → Text → Text → ℕ → ℕ → DocumentVersion
new_version x d key hash size modified_at = record {
  id = x.new_version_id;
  document_id = d.id;
  tenant_id = x.connector.tenant_id;
  connector_id = some x.connector.id;
  content_hash = hash;
  size_bytes = size;
  modified_at = modified_at;
  object_key = key;
  storage_status = StorageStatus.stored;
  ingestion_status = received;
  parser_name = none;
  parser_version = none;
  detected_format = none;
  source_format = none;
  format_detection_confidence = none;
  format_detection_reason = none;
  chunker_name = none;
  chunker_version = none;
  embedding_provider = none;
  embedding_model = none;
  embedding_dimension = none;
  error_code = none;
  safe_error_message = none;
  received_at = x.now;
  stored_at = some x.now;
  queued_at = some x.now;
  parsing_started_at = none;
  parsed_at = none;
  chunking_started_at = none;
  chunked_at = none;
  embedding_started_at = none;
  embedding_completed_at = none;
  indexing_started_at = none;
  indexing_completed_at = none;
  indexed_at = none;
  failed_at = none;
}
