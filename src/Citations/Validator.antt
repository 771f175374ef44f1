-- ===== src/Citations/Validator.antt =====
-- `citation_ids` and `validate_citations`.
use peka_saas.Common.{
  ℕ, Bool, true, false, Option, none, some, List, [], ◌∷◌, ◌++◌, ◌==◌, ◌&&◌, ◌||◌, not, is_none,
  is_empty, or_else, if◌then◌else◌, where_rows,
}
use peka_saas.Citations.Scan.{Text, find_all}

-- `KnowledgeCitation`
pub record KnowledgeCitation : Type 0 where
  pub page_number : Option ℕ
  pub sheet_name : Option ℕ
  pub row_start : Option ℕ
  pub row_end : Option ℕ
  pub section_title : Option ℕ

-- What `metadata.get` finds under the keys that the validator reads.
pub record Metadata : Type 0 where
  pub document_type : Option ℕ
  pub source_system : Option ℕ
  pub source_id : Option ℕ
  pub ingested_at : Option ℕ
  pub revision : Option ℕ
  pub sensitive_content_redacted : Option Bool
  pub redaction_categories : Option (List ℕ)

-- `KnowledgeResult`; `knowledge_id` is not read here.
pub record KnowledgeResult : Type 0 where
  pub source_type : ℕ
  pub text : ℕ
  pub score : ℕ
  pub document_id : ℕ
  pub version_id : ℕ
  pub chunk_id : ℕ
  pub title : ℕ
  pub citation : KnowledgeCitation
  pub metadata : Metadata

-- `AIAnswerCitation`
pub record AiAnswerCitation : Type 0 where
  pub citation_id : Text
  pub source_type : ℕ
  pub document_id : ℕ
  pub version_id : ℕ
  pub chunk_id : ℕ
  pub title : ℕ
  pub page_number : Option ℕ
  pub section_title : Option ℕ
  pub sheet_name : Option ℕ
  pub row_start : Option ℕ
  pub row_end : Option ℕ
  pub score : ℕ
  pub excerpt : Option ℕ
  pub document_type : Option ℕ
  pub source_system : Option ℕ
  pub source_id : Option ℕ
  pub ingested_at : Option ℕ
  pub revision : Option ℕ
  pub sensitive_content_redacted : Bool
  pub redaction_categories : List ℕ

-- `CitationValidationError`, and the KeyError of a missing key.
pub data CitationError : Type 0 where
  citation_validation_error : CitationError
  key_error : CitationError

pub data Validated : Type 0 where
  valid : List AiAnswerCitation → Validated
  invalid : CitationError → Validated

-- `a == b` on texts
abbrev pub same : Text → Text → Bool
same [] [] = true
same [] (b ∷ ys) = false
same (a ∷ xs) [] = false
same (a ∷ xs) (b ∷ ys) = a == b && same xs ys

-- `citation_id in seen`
abbrev pub seen_in : Text → List Text → Bool
seen_in id [] = false
seen_in id (x ∷ xs) = same id x || seen_in id xs

-- The loop of `citation_ids`, over `seen` and `ordered`.
abbrev pub collect : List Text → List Text → List Text → List Text
collect seen ordered [] = ordered
collect seen ordered (id ∷ ids) = elim (seen_in id seen) [
  | true ↦ collect seen ordered ids
  | false ↦ collect (id ∷ seen) (ordered ++ id ∷ []) ids
]

unfoldable pub citation_ids : Text → List Text
citation_ids answer = collect [] [] (find_all 0 answer)

-- `citation_map.get(citation_id)`
abbrev pub get : Text → List (Text × KnowledgeResult) → Option KnowledgeResult
get id [] = none
get id (r ∷ rs) = if same id r.0 then some r.1 else get id rs

abbrev pub cite : Text → KnowledgeResult → AiAnswerCitation
cite id r = record {
  citation_id = id;
  source_type = r.source_type;
  document_id = r.document_id;
  version_id = r.version_id;
  chunk_id = r.chunk_id;
  title = r.title;
  page_number = r.citation.page_number;
  section_title = r.citation.section_title;
  sheet_name = r.citation.sheet_name;
  row_start = r.citation.row_start;
  row_end = r.citation.row_end;
  score = r.score;
  excerpt = some r.text;
  document_type = r.metadata.document_type;
  source_system = r.metadata.source_system;
  source_id = r.metadata.source_id;
  ingested_at = r.metadata.ingested_at;
  revision = r.metadata.revision;
  sensitive_content_redacted = or_else r.metadata.sensitive_content_redacted false;
  redaction_categories = or_else r.metadata.redaction_categories [];
}

-- The loop over the ids, which appends to `citations`.
abbrev pub cite_each : List (Text × KnowledgeResult) → List AiAnswerCitation → List Text → Validated
cite_each m citations [] = valid citations
cite_each m citations (id ∷ ids) = elim (get id m) [
  | none ↦ invalid key_error
  | some r ↦ cite_each m (citations ++ cite id r ∷ []) ids
]

unfoldable pub validate_citations : Text → List (Text × KnowledgeResult) → Validated
validate_citations answer m =
    let ids = citation_ids answer in
    if not (is_empty (where_rows (λ id. is_none (get id m)) ids))
    then invalid citation_validation_error
    else cite_each m [] ids
