-- ===== src/Ingestion/Worker/Chunk.antt =====
-- The stage `_chunk`.
use peka_saas.Common.{some, List, ◌++◌, is_empty, if◌then◌else◌, map}
use peka_saas.Common.Exec.{pure, raise}
use peka_saas.Ingestion.Types.{
  Document, DocumentVersion, DocumentChunk, IngestionJob, embed_and_index, chunking, chunked,
}
use peka_saas.Ingestion.World.{
  ◌>>=◌, ◌>>◌, Action, value_error, query, write, commit, modify_version,
}
use peka_saas.Ingestion.Worker.Env.{Env, Chunk, records, transition, list_parsed_sections}
use peka_saas.Ingestion.Worker.Parse.{hand_on, delete_chunks}

-- The row that `_chunk` adds for a chunk.
abbrev pub chunk_row : Env → IngestionJob → DocumentVersion → Document → Chunk → DocumentChunk
chunk_row env job v d c = record {
  id = env.chunk_id c.index;
  tenant_id = job.tenant_id;
  connector_id = d.connector_id;
  source_id = d.source_id;
  document_id = d.id;
  version_id = v.id;
  chunk_index = c.index;
  chunk_key = env.chunk_key v.id c.index;
  text = c.text;
  token_count = c.token_count;
  page_number = c.page_number;
  sheet_name = c.sheet_name;
  row_start = c.row_start;
  row_end = c.row_end;
  section_title = c.section_title;
  chunk_metadata = c.metadata;
  qdrant_point_id = env.point_id v.id c.index;
}

abbrev add_chunks : List DocumentChunk → Action (Unit {0})
add_chunks rows = write λ db. record db { chunks = db.chunks ++ rows }

abbrev chunked_row : Env → DocumentVersion → DocumentVersion
chunked_row env v = record v {
  chunker_name = some "markdown-block-aware";
  chunker_version = some "3";
  chunked_at = some env.now;
}

-- `_chunk`
unfoldable pub chunk : Env → IngestionJob → Action (Unit {0})
chunk env job = do
  (v, d) ← records job
  sections ← query (list_parsed_sections job.tenant_id v.id)
  transition v.id v.ingestion_status chunking
  modify_version v.id (λ r. record r { chunking_started_at = some env.now })
  commit
  let chunks = env.chunk_document sections v.parser_name
  (if is_empty chunks then raise (value_error "ValueError") else pure tt)
  delete_chunks v.id
  add_chunks (map (chunk_row env job v d) chunks)
  transition v.id chunking chunked
  modify_version v.id (chunked_row env)
  hand_on env job v embed_and_index
