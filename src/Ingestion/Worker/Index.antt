-- ===== src/Ingestion/Worker/Index.antt =====
-- The stages `_embed_and_index` and `_delete`.
use peka_saas.Common.{
  ℕ, Bool, Option, none, some, List, [], ◌∷◌, ◌&&◌, ◌||◌, ◌==◌, not, is_empty, length, equals, map,
  where_rows, update_rows, if◌then◌else◌,
}
use peka_saas.Common.Exec.{Result, ok, err, pure, raise}
use peka_saas.Ingestion.Types.{
  Document, DocumentVersion, DocumentChunk, IngestionJob, IngestionStatus, embedding, indexing,
  indexed, delete_pending, deleted_from_index,
}
use peka_saas.Ingestion.Status.{same_status}
use peka_saas.Ingestion.World.{
  ◌>>=◌, ◌>>◌, Action, Exn, value_error, qdrant_unavailable, VectorPoint, query, write, commit,
  modify_version, effect, without_document, without_version, upsert_points,
}
use peka_saas.Ingestion.Worker.Env.{
  Env, records, required, succeed, transition, list_chunks, get_document,
}

abbrev pub texts : List DocumentChunk → List ℕ
texts = map (λ c. c.text)

abbrev pub point : Env → IngestionJob → DocumentVersion → Document → DocumentChunk → ℕ → VectorPoint
point env job v d c vector = record {
  id = c.qdrant_point_id;
  vector = vector;
  tenant_id = job.tenant_id;
  connector_id = d.connector_id;
  source_id = d.source_id;
  document_id = d.id;
  version_id = v.id;
  chunk_id = c.id;
  filename = d.filename;
  content_hash = v.content_hash;
  text = c.text;
  page_number = c.page_number;
  sheet_name = c.sheet_name;
  row_start = c.row_start;
  row_end = c.row_end;
  section_title = c.section_title;
  parser_version = v.parser_version;
  chunker_version = v.chunker_version;
  embedding_model = env.embedding_model;
  lifecycle_status = d.lifecycle_status;
}

-- `zip(chunks, vectors, strict=True)`, whose lengths have been compared.
unfoldable pub points_of :
    Env → IngestionJob → DocumentVersion → Document → List DocumentChunk → List ℕ → List VectorPoint
points_of env job v d [] vectors = []
points_of env job v d (c ∷ cs) [] = []
points_of env job v d (c ∷ cs) (x ∷ xs) = point env job v d c x ∷ points_of env job v d cs xs

-- The handler of the `try` block round the vector store's calls.
abbrev or_unavailable : Option Exn → Option Exn
or_unavailable none = none
or_unavailable (some e) = some qdrant_unavailable

abbrev lift : {A : Type 0} → Result Exn A → Action A
lift (ok a) w = (ok a, w)
lift (err e) w = (err e, w)

-- The columns that a finished indexing writes.
abbrev indexed_row : Env → DocumentVersion → DocumentVersion
indexed_row env v = record v {
  embedding_provider = some env.embedding_name;
  embedding_model = some env.embedding_model;
  embedding_dimension = some env.embedding_dimension;
  indexed_at = some env.now;
  indexing_completed_at = some env.now;
  error_code = none;
  safe_error_message = none;
  failed_at = none;
}

-- `document.is_deleted or document.current_version_id != version.id`
abbrev pub is_inactive : Document → DocumentVersion → Bool
is_inactive d v = d.is_deleted || not (equals d.current_version_id v.id)

unfoldable pub exclude : Env → IngestionJob → DocumentVersion → Action (Unit {0})
exclude env job v = do
  effect env.delete_fault (without_version job.tenant_id v.id)
  succeed env job
  commit

-- The rest of `_embed_and_index` once the version is INDEXING.
unfoldable pub store_points :
    Env
    → IngestionJob
    → DocumentVersion
    → Document
    → List DocumentChunk
    → List ℕ
    → Action (Unit {0})
store_points env job v d chunks vectors = do
  effect (or_unavailable env.delete_fault) (without_document job.tenant_id d.id)
  effect (or_unavailable env.upsert_fault) (upsert_points (points_of env job v d chunks vectors))
  transition v.id indexing indexed
  modify_version v.id (indexed_row env)
  succeed env job
  commit

unfoldable pub index_chunks :
    Env → IngestionJob → DocumentVersion → Document → List DocumentChunk → Action (Unit {0})
unfolding store_points
index_chunks env job v d chunks = do
  (if is_empty chunks then raise (value_error "ValueError") else pure tt)
  transition v.id v.ingestion_status embedding
  modify_version v.id (λ r. record r { embedding_started_at = some env.now })
  commit
  vectors ← lift (env.embed (texts chunks))
  (if length vectors == length chunks then pure tt else raise (value_error "ValueError"))
  modify_version v.id (λ r. record r { embedding_completed_at = some env.now })
  transition v.id embedding indexing
  modify_version v.id (λ r. record r { indexing_started_at = some env.now })
  commit
  store_points env job v d chunks vectors

-- `_embed_and_index`
unfoldable pub embed_and_index_stage : Env → IngestionJob → Action (Unit {0})
unfolding exclude index_chunks
embed_and_index_stage env job = do
  (v, d) ← records job
  chunks ← query (list_chunks job.tenant_id v.id)
  (if is_inactive d v then exclude env job v else index_chunks env job v d chunks)

-- A version of the document, as `_delete` selects them.
abbrev pub is_version_of : IngestionJob → DocumentVersion → Bool
is_version_of job v = v.tenant_id == job.tenant_id && v.document_id == job.document_id

abbrev pub set_status : IngestionStatus → DocumentVersion → DocumentVersion
set_status status v = record v { ingestion_status = status }

abbrev write_versions :
    (DocumentVersion → Bool) → (DocumentVersion → DocumentVersion) → Action (Unit {0})
write_versions p f = write λ db. record db { versions = update_rows p f db.versions }

unfoldable pub remove_from_index : Env → IngestionJob → Action (Unit {0})
remove_from_index env job = do
  write_versions
      (λ v. is_version_of job v && not (same_status v.ingestion_status deleted_from_index))
      (set_status delete_pending)
  commit
  effect env.delete_fault (without_document job.tenant_id job.document_id)
  write λ db. record db {
    chunks =
        where_rows (λ c. not (c.tenant_id == job.tenant_id && c.document_id == job.document_id))
          db.chunks;
  }
  write_versions (is_version_of job) (set_status deleted_from_index)
  succeed env job
  commit

-- `_delete`
unfoldable pub delete : Env → IngestionJob → Action (Unit {0})
unfolding remove_from_index
delete env job = do
  found ← query (get_document job.tenant_id job.document_id)
  d ← required found "ValueError"
  (if d.is_deleted then remove_from_index env job else (do succeed env job; commit))
