-- ===== src/Ingestion/Accept/Deliver.antt =====
-- The two branches of `accept`: the upsert of a version, and `_delete`.
use peka_saas.Common.{
  ℕ, Bool, true, false, Option, none, some, [], ◌∷◌, ◌++◌, ◌==◌, ◌||◌, ltb, not, equals,
  if◌then◌else◌,
}
use peka_saas.Common.Exec.{◌>>=◌, ◌>>◌, pure, raise, raise_if, or_raise}
use peka_saas.Ingestion.Types.{
  Text, Document, DocumentVersion, parse_document, reindex_document, delete_from_index, received,
  indexed, DocumentLifecycleStatus, ConnectorDocumentAcknowledgement,
}
use peka_saas.Ingestion.Status.{same_status}
use peka_saas.Ingestion.Accept.{
  Accept, AcceptError, refused, database_error, invalid_document_metadata, size_mismatch,
  hash_mismatch, mime_mismatch, storage_unavailable, document_not_found, validation_failed,
  Operation, upsert, delete, PutOutcome, put_stored, too_large, put_failed, CommitOutcome,
  committed, integrity_error, other_error, Delivery, write, commit, commit_unguarded, flush,
  rollback, query, remove_object, add_object, queue_job, get_logical, get_version_by_hash, replay,
  record_idempotency,
}
use peka_saas.Ingestion.Accept.Rows.{
  modify_document, modify_version, put_document, point_to, new_version,
}

-- `raise` after the object is deleted and the tables are rolled back.
abbrev pub undo : {A : Type 0} → Bool → Text → AcceptError → Accept A
undo delete_fails key e = do remove_object delete_fails key; rollback; raise e

abbrev pub received_again : DocumentVersion → DocumentVersion
received_again v = record v {
  ingestion_status = received;
  error_code = none;
  safe_error_message = none;
  failed_at = none;
}

abbrev requeue : Bool → Delivery → Document → DocumentVersion → Accept (Unit {0})
requeue true x d v = do
  modify_version v.id received_again
  queue_job x.new_job x.connector.tenant_id d.id (some v.id) reindex_document
      (some x.idempotency_key)
requeue false x d v = pure tt

-- `document.current_version_id != existing.id or existing.ingestion_status != INDEXED`
abbrev pub requires_reindex : Document → DocumentVersion → Bool
requires_reindex d v =
    not (equals d.current_version_id v.id) || not (same_status v.ingestion_status indexed)

-- The rest where the document has a version with the hash.
unfoldable pub accept_existing :
    Delivery → Document → DocumentVersion → Text → Accept ConnectorDocumentAcknowledgement
accept_existing x d v key = do
  remove_object x.delete_fails key
  point_to d v.id
  requeue (requires_reindex d v) x d v
  let a : ConnectorDocumentAcknowledgement = record {
    document_id = d.id;
    version_id = some v.id;
    content_hash = some v.content_hash;
    ingestion_status = if requires_reindex d v then "RECEIVED" else "INDEXED";
  }
  record_idempotency x a
  commit_unguarded x.commit_outcome
  pure a

abbrev finish :
    CommitOutcome
    → Bool
    → Text
    → ConnectorDocumentAcknowledgement
    → Accept ConnectorDocumentAcknowledgement
finish committed delete_fails key a = do commit; pure a
finish integrity_error delete_fails key a = do
  rollback
  remove_object delete_fails key
  raise (refused storage_unavailable 503)
finish other_error delete_fails key a = do
  rollback
  remove_object delete_fails key
  raise database_error

-- The rest where the version is new.
unfoldable pub accept_new :
    Delivery → Document → Text → Text → ℕ → ℕ → Accept ConnectorDocumentAcknowledgement
accept_new x d key hash size modified_at = do
  point_to d x.new_version_id
  write λ db. record db { versions = db.versions ++ new_version x d key hash size modified_at ∷ [] }
  flush x.version_flush_fails
  queue_job x.new_job x.connector.tenant_id d.id (some x.new_version_id) parse_document
      (some x.idempotency_key)
  let a : ConnectorDocumentAcknowledgement = record {
    document_id = d.id;
    version_id = some x.new_version_id;
    content_hash = some hash;
    ingestion_status = "RECEIVED";
  }
  record_idempotency x a
  finish x.commit_outcome x.delete_fails key a

abbrev pub accept_version :
    Option DocumentVersion
    → Delivery
    → Document
    → Text
    → Text
    → ℕ
    → ℕ
    → Accept ConnectorDocumentAcknowledgement
accept_version (some v) x d key hash size modified_at = accept_existing x d v key
accept_version none x d key hash size modified_at = accept_new x d key hash size modified_at

-- The statements after the upload, by its outcome.
unfoldable pub store_upload :
    PutOutcome
    → Option DocumentVersion
    → Delivery
    → Document
    → Text
    → Text
    → ℕ
    → Accept ConnectorDocumentAcknowledgement
store_upload too_large existing x d key hash modified_at = do
  rollback
  raise (refused size_mismatch 413)
store_upload put_failed existing x d key hash modified_at = do
  rollback
  raise (refused storage_unavailable 503)
store_upload (put_stored size sha256) existing x d key hash modified_at = do
  add_object key
  (if not (size == x.metadata.size_bytes)
      then undo x.delete_fails key (refused size_mismatch 422)
      else if not (x.lower sha256 == hash)
      then undo x.delete_fails key (refused hash_mismatch 422)
      else accept_version existing x d key (x.lower sha256) size modified_at)

-- `accept` after the lookup of the document.
abbrev pub deliver_known :
    Delivery → Text → ℕ → Option Document → Accept ConnectorDocumentAcknowledgement
deliver_known x hash modified_at known = do
  d ← put_document x known
  existing ← query (get_version_by_hash x.connector.tenant_id d.id hash)
  store_upload x.put_stream existing x d
      (x.object_key x.connector.tenant_id d.id x.new_version_id x.metadata.filename) hash
      modified_at

unfoldable pub deliver : Delivery → Text → ℕ → Accept ConnectorDocumentAcknowledgement
deliver x hash modified_at = do
  known ← query (get_logical x.connector.tenant_id x.metadata.document_key)
  deliver_known x hash modified_at known

abbrev pub mime_differs : Option Text → Text → Bool
mime_differs none mime_type = false
mime_differs (some t) mime_type = not (t == mime_type)

-- The tests of the request, in the order of the source. An empty MIME type is no MIME type.
unfoldable pub upsert_document : Delivery → Accept ConnectorDocumentAcknowledgement
upsert_document x = do
  content_hash ← or_raise x.metadata.content_hash (refused invalid_document_metadata 422)
  modified_at ← or_raise x.metadata.modified_at (refused invalid_document_metadata 422)
  raise_if (not x.has_stream) (refused validation_failed 422)
  raise_if (mime_differs x.upload_mime_type x.metadata.mime_type) (refused mime_mismatch 422)
  raise_if (ltb x.max_upload_bytes x.metadata.size_bytes) (refused size_mismatch 413)
  deliver x (x.lower content_hash) modified_at

-- The assignments of `_delete` to a document that is not yet deleted.
abbrev pub tombstone : Delivery → Document → Document
tombstone x d = record d {
  connector_id = some x.connector.id;
  last_seen_by_connector_id = some x.connector.id;
  last_synchronized_at = some x.now;
  lifecycle_status = DocumentLifecycleStatus.deleted;
  is_deleted = true;
  deleted_at = some x.now;
}

abbrev mark_deleted : Bool → Delivery → Document → Accept (Unit {0})
mark_deleted true x d = pure tt
mark_deleted false x d = do
  modify_document d.id (tombstone x)
  queue_job x.new_job x.connector.tenant_id d.id none delete_from_index (some x.idempotency_key)

-- `_delete`
unfoldable pub delete_document : Delivery → Accept ConnectorDocumentAcknowledgement
delete_document x = do
  known ← query (get_logical x.connector.tenant_id x.metadata.document_key)
  d ← or_raise known (refused document_not_found 404)
  mark_deleted d.is_deleted x d
  let a : ConnectorDocumentAcknowledgement = record {
    document_id = d.id;
    version_id = none;
    content_hash = none;
    ingestion_status = "DELETE_RECEIVED";
  }
  record_idempotency x a
  commit_unguarded x.commit_outcome
  pure a

abbrev pub perform : Operation → Delivery → Accept ConnectorDocumentAcknowledgement
perform upsert = upsert_document
perform delete = delete_document

abbrev pub replayed_or :
    Option ConnectorDocumentAcknowledgement → Delivery → Accept ConnectorDocumentAcknowledgement
replayed_or (some a) x = pure a
replayed_or none x = perform x.metadata.operation x

-- `accept`
unfoldable pub accept : Delivery → Accept ConnectorDocumentAcknowledgement
accept x = do previous ← replay x; replayed_or previous x
