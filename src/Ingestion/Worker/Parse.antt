-- ===== src/Ingestion/Worker/Parse.antt =====
-- The stages `_parse` and `_reindex`.
use peka_saas.Common.{
  ℕ, suc, Bool, false, none, some, List, [], ◌∷◌, ◌++◌, ◌==◌, ◌||◌, not, is_empty, where_rows,
  if◌then◌else◌,
}
use peka_saas.Common.Exec.{Result, ok, err, pure, raise}
use peka_saas.Ingestion.Types.{
  Document, DocumentVersion, DocumentParsedSection, IngestionJob, IngestionJobType, parse_document,
  chunk_document, embed_and_index, received, parsing, parsed, chunked,
}
use peka_saas.Ingestion.World.{
  ◌>>=◌, ◌>>◌, Action, Exn, value_error, query, write, commit, modify_version, effect,
  without_document,
}
use peka_saas.Ingestion.Queue.{enqueue_job}
use peka_saas.Ingestion.Worker.Env.{
  Env, ParsedDocument, ParsedSection, records, succeed, transition, list_chunks,
  list_parsed_sections,
}

-- The end that the stages share: the job succeeds, the next stage is queued, all is committed.
abbrev pub hand_on : Env → IngestionJob → DocumentVersion → IngestionJobType → Action (Unit {0})
hand_on env job v next = do
  succeed env job
  enqueue_job env.new_job job.tenant_id job.document_id (some v.id) next job.correlation_id
  commit

-- `not parsed.sections or not any(section.text.strip() …)`, negated.
abbrev pub any_text : List ParsedSection → Bool
any_text [] = false
any_text (s ∷ ss) = s.has_text || any_text ss

-- The rows that `_parse` adds, numbered from the index given.
section_rows :
    Env
    → IngestionJob
    → DocumentVersion
    → ParsedDocument
    → ℕ
    → List ParsedSection
    → List DocumentParsedSection
section_rows env job v p i [] = []
section_rows env job v p i (s ∷ ss) =
    record {
      tenant_id = job.tenant_id;
      document_id = job.document_id;
      version_id = v.id;
      section_index = i;
      text = s.text;
      page_number = s.page_number;
      sheet_name = s.sheet_name;
      row_start = s.row_start;
      row_end = s.row_end;
      section_title = s.section_title;
      section_metadata = env.section_metadata p s;
    }
    ∷ section_rows env job v p (suc i) ss

-- `delete(DocumentParsedSection).where(version_id == version.id)`
abbrev pub delete_sections : ℕ → Action (Unit {0})
delete_sections version_id =
    write
      λ db. record db { sections = where_rows (λ s. not (s.version_id == version_id)) db.sections }

-- `delete(DocumentChunk).where(version_id == version.id)`
abbrev pub delete_chunks : ℕ → Action (Unit {0})
delete_chunks version_id =
    write λ db. record db { chunks = where_rows (λ c. not (c.version_id == version_id)) db.chunks }

abbrev add_sections : List DocumentParsedSection → Action (Unit {0})
add_sections rows = write λ db. record db { sections = db.sections ++ rows }

abbrev lift : {A : Type 0} → Result Exn A → Action A
lift (ok a) w = (ok a, w)
lift (err e) w = (err e, w)

-- The columns that a finished parse writes.
abbrev parsed_row : Env → ParsedDocument → DocumentVersion → DocumentVersion
parsed_row env p v = record v {
  parser_name = some p.parser_name;
  parser_version = some p.parser_version;
  detected_format = p.detected_format;
  source_format = p.source_format;
  format_detection_confidence = p.detection_confidence;
  format_detection_reason = p.detection_reason;
  parsed_at = some env.now;
}

-- `_parse` where the version has neither chunks nor sections. Its document id is the job's, since
-- `get_document` looks it up by that id.
unfoldable pub parse_object : Env → IngestionJob → DocumentVersion → Document → Action (Unit {0})
unfolding section_rows
parse_object env job v d = do
  transition v.id v.ingestion_status parsing
  modify_version v.id (λ r. record r { parsing_started_at = some env.now })
  commit
  p ← lift (env.open_and_parse v.object_key d.filename d.mime_type)
  (if any_text p.sections then pure tt else raise (value_error "ValueError"))
  delete_sections v.id
  add_sections (section_rows env job v p 0 p.sections)
  transition v.id parsing parsed
  modify_version v.id (parsed_row env p)
  hand_on env job v chunk_document

unfoldable pub resume_from_chunks : Env → IngestionJob → DocumentVersion → Action (Unit {0})
resume_from_chunks env job v = do
  modify_version v.id
      (λ r. record r { ingestion_status = chunked; error_code = none; safe_error_message = none })
  hand_on env job v embed_and_index

unfoldable pub resume_from_sections : Env → IngestionJob → DocumentVersion → Action (Unit {0})
resume_from_sections env job v = do
  modify_version v.id (λ r. record r { ingestion_status = parsed })
  hand_on env job v chunk_document

-- `_parse`
unfoldable pub parse : Env → IngestionJob → Action (Unit {0})
unfolding parse_object resume_from_chunks resume_from_sections
parse env job = do
  (v, d) ← records job
  chunks ← query (list_chunks job.tenant_id v.id)
  sections ← query (list_parsed_sections job.tenant_id v.id)
  (if not (is_empty chunks)
      then resume_from_chunks env job v
      else if not (is_empty sections)
      then resume_from_sections env job v
      else parse_object env job v d)

-- The columns that `_reindex` clears.
abbrev pub cleared_row : DocumentVersion → DocumentVersion
cleared_row v = record v {
  ingestion_status = received;
  parser_name = none;
  parser_version = none;
  detected_format = none;
  source_format = none;
  format_detection_confidence = none;
  format_detection_reason = none;
  chunker_name = none;
  chunker_version = none;
  embedding_provider = none;
  embedding_model = none;
  embedding_dimension = none;
  error_code = none;
  safe_error_message = none;
  failed_at = none;
}

-- `_reindex`
unfoldable pub reindex : Env → IngestionJob → Action (Unit {0})
reindex env job = do
  (v, d) ← records job
  effect env.delete_fault (without_document job.tenant_id d.id)
  delete_chunks v.id
  delete_sections v.id
  modify_version v.id cleared_row
  hand_on env job v parse_document
