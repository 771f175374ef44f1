-- ===== src/Ingestion/Worker/Env.antt =====
-- What a worker is given, and the helpers that its stages share: `_records`, `_succeed` and the
-- queries of a version's rows.
use peka_saas.Common.{
  ℕ, String, Bool, Option, none, some, List, ◌==◌, ◌&&◌, find, where_rows, if◌then◌else◌,
}
use peka_saas.Common.Exec.{Result, pure, raise, or_raise}
use peka_saas.Ingestion.Types.{
  Text, Document, DocumentVersion, DocumentChunk, DocumentParsedSection, IngestionJob,
  IngestionStatus, succeeded,
}
use peka_saas.Ingestion.Status.{accepts}
use peka_saas.Ingestion.World.{
  ◌>>=◌, Db, Action, Exn, value_error, query, modify_job, modify_version,
}
use peka_saas.Ingestion.Queue.{NewJob}

-- `ParsedSection` and `ParsedDocument` of backend/app/services/document_parsers.py;
-- `has_text` is `bool(section.text.strip())`.
pub record ParsedSection : Type 0 where
  pub text : Text
  pub has_text : Bool
  pub page_number : Option ℕ
  pub sheet_name : Option Text
  pub row_start : Option ℕ
  pub row_end : Option ℕ
  pub section_title : Option Text
  pub metadata : Text

pub record ParsedDocument : Type 0 where
  pub sections : List ParsedSection
  pub parser_name : Text
  pub parser_version : Text
  pub detected_format : Option Text
  pub source_format : Option Text
  pub detection_confidence : Option ℕ
  pub detection_reason : Option Text

-- `Chunk` of backend/app/services/document_chunker.py.
pub record Chunk : Type 0 where
  pub index : ℕ
  pub text : Text
  pub token_count : ℕ
  pub page_number : Option ℕ
  pub sheet_name : Option Text
  pub row_start : Option ℕ
  pub row_end : Option ℕ
  pub section_title : Option Text
  pub metadata : Text

-- The settings, the clock reading of one run, and what the worker calls. The reading stands for
-- all calls of `datetime.now` in the run.
pub record Env : Type 0 where
  pub worker_id : Text
  pub now : ℕ
  pub stale_after : ℕ
  pub retry_base : ℕ  -- microseconds, as the rest
  pub retry_max : ℕ
  pub jitter : ℕ
  pub new_job : NewJob
  -- `storage.open`, `parser_for` and `parse` on an object key, a filename and a MIME type
  pub open_and_parse : Text → Text → Text → Result Exn ParsedDocument
  -- the metadata of a section with the two formats of the document
  pub section_metadata : ParsedDocument → ParsedSection → Text
  -- `chunk_document` on the sections and the version's parser
  pub chunk_document : List DocumentParsedSection → Option Text → List Chunk
  pub chunk_id : ℕ → ℕ
  pub point_id : ℕ → ℕ → ℕ  -- `uuid5` of a version and an index
  pub chunk_key : ℕ → ℕ → Text  -- the text of a version, a colon and an index
  pub embed : List Text → Result Exn (List ℕ)
  pub embedding_name : Text
  pub embedding_model : Text
  pub embedding_dimension : ℕ
  pub delete_fault : Option Exn  -- how the vector store's deletion ends
  pub upsert_fault : Option Exn

abbrev pub get_version : ℕ → ℕ → Db → Option DocumentVersion
get_version tenant_id version_id db =
    find (λ v. v.tenant_id == tenant_id && v.id == version_id) db.versions

abbrev pub get_document : ℕ → ℕ → Db → Option Document
get_document tenant_id document_id db =
    find (λ d. d.tenant_id == tenant_id && d.id == document_id) db.documents

-- The rows are added in the order of their index, by which the source sorts them.
abbrev pub list_chunks : ℕ → ℕ → Db → List DocumentChunk
list_chunks tenant_id version_id db =
    where_rows (λ c. c.tenant_id == tenant_id && c.version_id == version_id) db.chunks

abbrev pub list_parsed_sections : ℕ → ℕ → Db → List DocumentParsedSection
list_parsed_sections tenant_id version_id db =
    where_rows (λ s. s.tenant_id == tenant_id && s.version_id == version_id) db.sections

abbrev pub required : {A : Type 0} → Option A → String → Action A
required o name = or_raise o (value_error name)

-- `_records`
unfoldable pub records : IngestionJob → Action (DocumentVersion × Document)
records job = do
  version_id ← required job.version_id "ValueError"
  version ← query (get_version job.tenant_id version_id)
  document ← query (get_document job.tenant_id job.document_id)
  v ← required version "ValueError"
  d ← required document "ValueError"
  pure (v, d)

-- The assignments of `_succeed`.
abbrev pub succeeded_row : ℕ → IngestionJob → IngestionJob
succeeded_row now j = record j {
  state = succeeded;
  completed_at = some now;
  locked_at = none;
  locked_by = none;
}

-- `_succeed`
abbrev pub succeed : Env → IngestionJob → Action (Unit {0})
succeed env job = modify_job job.id (succeeded_row env.now)

-- `statuses.transition(version, target)` where the version is in the status given.
abbrev pub transition : ℕ → IngestionStatus → IngestionStatus → Action (Unit {0})
transition version_id status target =
    if accepts status target
    then modify_version version_id (λ v. record v { ingestion_status = target })
    else raise (value_error "InvalidIngestionTransition")
