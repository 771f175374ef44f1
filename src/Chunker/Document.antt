-- ===== src/Chunker/Document.antt =====
-- `chunk_document` of backend/app/services/document_chunker.py.
use peka_saas.Common.{ℕ, Bool, Option, List, if◌then◌else◌}
use peka_saas.Ingestion.Worker.Env.{ParsedDocument, Chunk}
use peka_saas.Ingestion.Types.{Text}
use peka_saas.Chunker.Text.{TextOps}
use peka_saas.Chunker.Windows.{chunk_word_windows}
use peka_saas.Chunker.Rows.{chunk_rows}
use peka_saas.Chunker.Structured.{chunk_structured_text}

-- The two tests of the parser's name are arguments.
unfoldable pub chunk_document :
    TextOps → (Text → Bool) → (Text → Bool) → ParsedDocument → ℕ → ℕ → Option (List Chunk)
chunk_document ops is_rows is_structured parsed target_words overlap_words =
    if is_rows parsed.parser_name
    then chunk_rows ops target_words parsed.sections
    else if is_structured parsed.parser_name
    then chunk_structured_text ops target_words parsed.sections List.[]
    else chunk_word_windows ops target_words overlap_words 0 parsed.sections
