-- ===== src/Ingestion/World.antt =====
-- The state of the ingestion code: the tables of one database session, the vector index and the
-- object store, which a rollback does not undo, and the exceptions that the code raises.
use peka_saas.Common.{
  ℕ, String, Option, none, some, List, [], ◌∷◌, ◌++◌, ◌==◌, ◌&&◌, not, where_rows, update_rows,
}
use peka_saas.Common.Exec.{ok, err, Exec}
use peka_saas.Ingestion.Types.{
  Text, Document, DocumentVersion, DocumentChunk, DocumentParsedSection, IngestionJob,
  DocumentIdempotencyRecord, IngestionWorkerHeartbeat, DocumentLifecycleStatus,
}

pub record Db : Type 0 where
  pub documents : List Document
  pub versions : List DocumentVersion
  pub sections : List DocumentParsedSection
  pub chunks : List DocumentChunk
  pub jobs : List IngestionJob
  pub idempotency : List DocumentIdempotencyRecord
  pub workers : List IngestionWorkerHeartbeat

-- `VectorPoint` with the keys of its payload; the payload's `page`, `sheet` and `rows` repeat the
-- columns before them.
pub record VectorPoint : Type 0 where
  pub id : ℕ
  pub vector : ℕ
  pub tenant_id : ℕ
  pub connector_id : Option ℕ
  pub source_id : Text
  pub document_id : ℕ
  pub version_id : ℕ
  pub chunk_id : ℕ
  pub filename : Text
  pub content_hash : Text
  pub text : Text
  pub page_number : Option ℕ
  pub sheet_name : Option Text
  pub row_start : Option ℕ
  pub row_end : Option ℕ
  pub section_title : Option Text
  pub parser_version : Option Text
  pub chunker_version : Option String
  pub embedding_model : Text
  pub lifecycle_status : DocumentLifecycleStatus

pub record World : Type 0 where
  pub working : Db
  pub committed : Db
  pub points : List VectorPoint
  pub objects : List Text  -- the keys that the object store holds

-- The exceptions by what `_fail` tells apart: ValueError and its subclasses, the two of the
-- embedding provider, Qdrant's, and others, with the name of the type.
pub data Exn : Type 0 where
  value_error : String → Exn
  file_not_found : Exn
  not_configured : Exn
  transient_embedding : Exn
  qdrant_unavailable : Exn
  other_error : String → Exn

abbrev pub Action : Type 0 → Type 0
Action = Exec World Exn

-- Shut, so that the rules of a program logic see the statements.
infixl 5 ◌>>=◌ ◌>>◌
unfoldable pub ◌>>=◌ : {A B : Type 0} → Action A → (A → Action B) → Action B
◌>>=◌ m f w = let (r, v) = m w in elim r [ ok a ↦ f a v | err e ↦ (err e, v) ]

abbrev pub ◌>>◌ : {A B : Type 0} → Action A → Action B → Action B
m >> k = m >>= λ _. k

module _ {A : Type 0} where
  abbrev pub query : (Db → A) → Action A
  query f w = (ok (f w.working), w)

abbrev pub write : (Db → Db) → Action (Unit {0})
write f w = (ok tt, record w { working = f w.working })

abbrev pub commit : Action (Unit {0})
commit w = (ok tt, record w { committed = w.working })

abbrev pub rollback : Action (Unit {0})
rollback w = (ok tt, record w { working = w.committed })

-- Assignments to the attributes of loaded rows.
abbrev pub modify_job : ℕ → (IngestionJob → IngestionJob) → Action (Unit {0})
modify_job id f = write λ db. record db { jobs = update_rows (λ j. j.id == id) f db.jobs }

abbrev pub modify_version : ℕ → (DocumentVersion → DocumentVersion) → Action (Unit {0})
modify_version id f =
    write λ db. record db { versions = update_rows (λ v. v.id == id) f db.versions }

abbrev pub modify_document : ℕ → (Document → Document) → Action (Unit {0})
modify_document id f =
    write λ db. record db { documents = update_rows (λ d. d.id == id) f db.documents }

-- `VectorStore.delete_document` and `delete_version`
abbrev pub without_document : ℕ → ℕ → List VectorPoint → List VectorPoint
without_document tenant_id document_id =
    where_rows (λ p. not (p.tenant_id == tenant_id && p.document_id == document_id))

abbrev pub without_version : ℕ → ℕ → List VectorPoint → List VectorPoint
without_version tenant_id version_id =
    where_rows (λ p. not (p.tenant_id == tenant_id && p.version_id == version_id))

-- `VectorStore.upsert`: a point replaces the one with its id.
abbrev pub upsert_points : List VectorPoint → List VectorPoint → List VectorPoint
upsert_points [] points = points
upsert_points (p ∷ ps) points =
    upsert_points ps (where_rows (λ q. not (q.id == p.id)) points ++ p ∷ [])

-- A call of an external service that does `f`, or raises and does nothing.
abbrev pub effect : Option Exn → (List VectorPoint → List VectorPoint) → Action (Unit {0})
effect none f w = (ok tt, record w { points = f w.points })
effect (some e) f w = (err e, w)
