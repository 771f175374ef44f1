-- ===== src/Ingestion/Accept.antt =====
-- `DocumentIngestionService` of backend/app/services/document_ingestion_service.py: `accept` and
-- `_delete`, with the lookups of the document repository that only they use.
pub mod Rows
pub mod Deliver
pub mod Known
pub mod Replay
pub mod Refused
use peka_saas.Common.{
  ℕ, ◌+◌, String, Bool, true, false, Option, none, some, List, [], ◌∷◌, ◌++◌, ◌==◌, ◌&&◌, ◌||◌, leb,
  ltb, not, equals, find, where_rows, update_rows, is_none, if◌then◌else◌,
}
use peka_saas.Common.Exec.{Result, ok, err, Exec, ◌>>=◌, ◌>>◌, pure, raise, raise_if}
use peka_saas.Connector.Types.{ManagedConnector}
use peka_saas.Ingestion.Types.{
  Text, Document, DocumentVersion, IngestionJobType, parse_document, reindex_document,
  delete_from_index, IngestionStatus, received, indexed, DocumentLifecycleStatus, active, deleted,
  stored, ConnectorDocumentAcknowledgement, DocumentIdempotencyRecord,
}
use peka_saas.Ingestion.Status.{same_status}
use peka_saas.Ingestion.World.{Db, World, Exn}
use peka_saas.Ingestion.Queue.{NewJob, enqueue_job}

pub data DocumentErrorCode : Type 0 where
  invalid_document_metadata size_mismatch hash_mismatch mime_mismatch : DocumentErrorCode
  idempotency_conflict storage_unavailable document_not_found validation_failed : DocumentErrorCode

-- `DocumentIngestionError` with its code and status code; any other exception.
pub data AcceptError : Type 0 where
  refused : DocumentErrorCode → ℕ → AcceptError
  failed : Exn → AcceptError
  database_error : AcceptError
  storage_error : AcceptError

abbrev pub Accept : Type 0 → Type 0
Accept = Exec World AcceptError

pub data Operation : Type 0 where
  upsert delete : Operation

pub record ConnectorDocumentMetadata : Type 0 where
  pub source_id : Text
  pub document_key : Text
  pub relative_path : Text
  pub filename : Text
  pub mime_type : Text
  pub size_bytes : ℕ
  pub content_hash : Option Text
  pub modified_at : Option ℕ
  pub operation : Operation

-- What `put_stream` does with the upload: it stores the bytes, or raises and stores nothing.
pub data PutOutcome : Type 0 where
  put_stored : ℕ → Text → PutOutcome  -- the size and the hash of the bytes
  too_large : PutOutcome
  put_failed : PutOutcome

-- How the commit of a delivery ends.
pub data CommitOutcome : Type 0 where
  committed : CommitOutcome
  integrity_error : CommitOutcome
  other_error : CommitOutcome

-- One call: its arguments, the settings, the ids it draws, and what it calls. The functions on
-- texts are Python's; the three fields on failures say whether `flush` raises for a new document,
-- whether it raises for a new version, and whether `storage.delete` raises; `object_key` forms the key from the tenant, the document, the version and the
-- filename.
pub record Delivery : Type 0 where
  pub connector : ManagedConnector
  pub metadata : ConnectorDocumentMetadata
  pub idempotency_key : Text
  pub has_stream : Bool
  pub upload_mime_type : Option Text
  pub put_stream : PutOutcome
  pub document_flush_fails : Bool
  pub version_flush_fails : Bool
  pub delete_fails : Bool
  pub commit_outcome : CommitOutcome
  pub max_upload_bytes : ℕ
  pub idempotency_period : ℕ
  pub now : ℕ
  pub new_document_id : ℕ
  pub new_version_id : ℕ
  pub new_job : NewJob
  pub fingerprint : ℕ → ConnectorDocumentMetadata → Text
  pub lower : Text → Text
  pub casefold : Text → Text
  pub suffix : Text → Text
  pub object_key : ℕ → ℕ → ℕ → Text → Text

abbrev pub write : (Db → Db) → Accept (Unit {0})
write f w = (ok tt, record w { working = f w.working })

abbrev pub commit : Accept (Unit {0})
commit w = (ok tt, record w { committed = w.working })

abbrev pub rollback : Accept (Unit {0})
rollback w = (ok tt, record w { working = w.committed })

abbrev pub query : {A : Type 0} → (Db → A) → Accept A
query f w = (ok (f w.working), w)

-- `flush`, which may raise what the database raises.
abbrev pub flush : Bool → Accept (Unit {0})
flush fails = raise_if fails database_error

-- A commit that no handler surrounds.
abbrev pub commit_unguarded : CommitOutcome → Accept (Unit {0})
commit_unguarded committed = commit
commit_unguarded integrity_error = raise database_error
commit_unguarded other_error = raise database_error

-- `storage.delete`, which may raise and leave the object.
abbrev pub remove_object : Bool → Text → Accept (Unit {0})
remove_object true key w = (err storage_error, w)
remove_object false key w =
    (ok tt, record w { objects = where_rows (λ k. not (k == key)) w.objects })

abbrev pub add_object : Text → Accept (Unit {0})
add_object key w = (ok tt, record w { objects = w.objects ++ key ∷ [] })

-- `enqueue_job`, among these exceptions.
abbrev pub queue_job :
    NewJob → ℕ → ℕ → Option ℕ → IngestionJobType → Option Text → Accept (Unit {0})
queue_job fresh tenant_id document_id version_id job_type correlation_id w =
    let (r, v) = enqueue_job fresh tenant_id document_id version_id job_type correlation_id w in
    elim r [ ok j ↦ (ok tt, v) | err e ↦ (err (failed e), v) ]

-- `get_logical`; a unique index keeps at most one row of a tenant with the key, so that the order
-- of the query does not matter.
abbrev pub get_logical : ℕ → Text → Db → Option Document
get_logical tenant_id document_key db =
    find (λ d. d.tenant_id == tenant_id && d.document_key == document_key) db.documents

abbrev pub get_version_by_hash : ℕ → ℕ → Text → Db → Option DocumentVersion
get_version_by_hash tenant_id document_id content_hash db =
    find
      (λ v.
        v.tenant_id == tenant_id
        && (v.document_id == document_id && v.content_hash == content_hash))
      db.versions

abbrev pub is_record_of : ℕ → ℕ → Text → DocumentIdempotencyRecord → Bool
is_record_of tenant_id connector_id key r =
    r.tenant_id == tenant_id && (r.connector_id == connector_id && r.idempotency_key == key)

abbrev is_expired : ℕ → DocumentIdempotencyRecord → Bool
is_expired now r = elim r.expires_at [ none ↦ false | some at ↦ leb at now ]

-- The row is unique by its scope, so the deletion of it deletes the rows of the scope.
abbrev unexpired :
    Delivery → Option DocumentIdempotencyRecord → Accept (Option DocumentIdempotencyRecord)
unexpired x none = pure none
unexpired x (some r) =
    if is_expired x.now r
    then (do
      write λ db. record db {
        idempotency =
            where_rows
              (λ k. not (is_record_of x.connector.tenant_id x.connector.id x.idempotency_key k))
              db.idempotency;
      }
      pure none)
    else pure (some r)

-- `get_idempotency`
unfoldable pub get_idempotency : Delivery → Accept (Option DocumentIdempotencyRecord)
get_idempotency x = do
  found ← query (λ db.
      find (is_record_of x.connector.tenant_id x.connector.id x.idempotency_key) db.idempotency)
  unexpired x found

abbrev pub request_fingerprint : Delivery → Text
request_fingerprint x = x.fingerprint x.connector.id x.metadata

abbrev answer :
    Delivery → Option DocumentIdempotencyRecord → Accept (Option ConnectorDocumentAcknowledgement)
answer x none = pure none
answer x (some r) =
    if r.request_fingerprint == request_fingerprint x
    then pure (some r.response_payload)
    else raise (refused idempotency_conflict 409)

-- `_replay`
unfoldable pub replay : Delivery → Accept (Option ConnectorDocumentAcknowledgement)
unfolding get_idempotency
replay x = do r ← get_idempotency x; answer x r

-- The row of `_record_idempotency`.
abbrev pub idempotency_row : Delivery → ConnectorDocumentAcknowledgement → DocumentIdempotencyRecord
idempotency_row x a = record {
  tenant_id = x.connector.tenant_id;
  connector_id = x.connector.id;
  idempotency_key = x.idempotency_key;
  operation = elim x.metadata.operation [ upsert ↦ "upsert" | delete ↦ "delete" ];
  request_fingerprint = request_fingerprint x;
  document_id = some a.document_id;
  version_id = a.version_id;
  response_payload = a;
  http_status = 201;
  status = "ACCEPTED";
  expires_at = some (x.now + x.idempotency_period);
}

abbrev pub record_idempotency : Delivery → ConnectorDocumentAcknowledgement → Accept (Unit {0})
record_idempotency x a =
    write λ db. record db { idempotency = db.idempotency ++ idempotency_row x a ∷ [] }
