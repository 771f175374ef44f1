-- ===== src/Chunker/Rows.antt =====
-- `_chunk_rows` and `_row_chunk` of backend/app/services/document_chunker.py.
pub mod Packs
use peka_saas.Common.{
  ℕ, ◌+◌, Bool, true, false, Option, none, some, List, [], ◌∷◌, ◌++◌, ◌&&◌, ltb, ◌==◌, not, length,
  is_empty, if◌then◌else◌, or_else, map,
}
use mathlib.Core.Option
use peka_saas.Ingestion.Worker.Env.{ParsedSection, Chunk}
use peka_saas.Ingestion.Types.{Text}
use peka_saas.Chunker.Text.{TextOps, token_count}

-- The rows of each sheet, by its name.
abbrev pub Groups : Type 0
Groups = List (Text × List ParsedSection)

-- `groups.setdefault(name, []).append(section)`
unfoldable pub add_to : Text → ParsedSection → Groups → Groups
add_to name s [] = (name, s ∷ []) ∷ []
add_to name s ((other, rows) ∷ gs) =
    let rest = add_to name s gs in
    if other == name then (other, rows ++ s ∷ []) ∷ gs else (other, rows) ∷ rest

unfoldable pub grouped : TextOps → List ParsedSection → Groups → Groups
grouped ops [] gs = gs
grouped ops (s ∷ ss) gs = grouped ops ss (add_to (or_else s.sheet_name ops.empty_text) s gs)

-- `sorted(groups)`
unfoldable pub put_group : TextOps → Text × List ParsedSection → Groups → Groups
put_group ops g [] = g ∷ []
put_group ops g (h ∷ hs) =
    let rest = put_group ops g hs in if ops.precedes g.0 h.0 then g ∷ h ∷ hs else h ∷ rest

unfoldable pub sorted_groups : TextOps → Groups → Groups
sorted_groups ops [] = []
sorted_groups ops (g ∷ gs) = put_group ops g (sorted_groups ops gs)

-- The header of a sheet with rows.
abbrev pub header_of : TextOps → ParsedSection → Text
header_of ops first = or_else (ops.headers first.metadata) first.text

-- The loop over the rows of a sheet, with its buffer and its count of words.
unfoldable pub packed :
    TextOps → ℕ → List ParsedSection → ℕ → List ParsedSection → List (List ParsedSection)
packed ops target buffer word_count [] = if is_empty buffer then [] else buffer ∷ []
packed ops target buffer word_count (row ∷ rows) =
    let row_words = length (ops.split row.text) in
    elim (not (is_empty buffer) && ltb target (word_count + row_words)) [
      | true ↦ buffer ∷ packed ops target (row ∷ []) row_words rows
      | false ↦ packed ops target (buffer ++ row ∷ []) (word_count + row_words) rows
    ]

unfoldable pub last_row : ParsedSection → List ParsedSection → ParsedSection
last_row s [] = s
last_row s (r ∷ rows) = last_row r rows

-- `splitlines()[0]` raises an IndexError where the text is empty: none.
abbrev pub first_line : TextOps → Text → Option Text
first_line ops body = elim (ops.splitlines body) [ [] ↦ none | l ∷ ls ↦ some l ]

-- The body with its header in front, unless it begins with it.
abbrev pub headed : TextOps → Text → Text → Option Text
headed ops header body =
    Option.map (λ l. if l == header then body else ops.join_lines (header ∷ body ∷ []))
      (first_line ops body)

pub row_chunk : TextOps → ℕ → Option Text → Text → ParsedSection → List ParsedSection → Option Chunk
row_chunk ops index sheet_name header first rest =
    Option.map
      (λ body. record {
        index = index;
        text = body;
        token_count = token_count (length (ops.split body));
        page_number = none;
        sheet_name = sheet_name;
        row_start = first.row_start;
        row_end = (last_row first rest).row_end;
        section_title = first.section_title;
        metadata = ops.header_metadata header;
      })
      (headed ops header (ops.join_lines (map (λ (r : ParsedSection). r.text) (first ∷ rest))))

-- The chunks of the packs of a sheet, in turn; no pack is empty.
unfoldable pub pack_chunks :
    TextOps → ℕ → Option Text → Text → List (List ParsedSection) → Option (List Chunk)
pack_chunks ops index sheet_name header [] = some []
pack_chunks ops index sheet_name header ([] ∷ ps) = pack_chunks ops index sheet_name header ps
pack_chunks ops index sheet_name header ((first ∷ rest) ∷ ps) =
    elim (row_chunk ops index sheet_name header first rest) [
      | none ↦ none
      | some c ↦ Option.map (λ cs. c ∷ cs) (pack_chunks ops (index + 1) sheet_name header ps)
    ]

-- `sheet_name or None`
abbrev pub named : TextOps → Text → Option Text
named ops name = if name == ops.empty_text then none else some name

abbrev pub sheet_chunks : TextOps → ℕ → ℕ → Text → List ParsedSection → Option (List Chunk)
sheet_chunks ops target index name [] = some []
sheet_chunks ops target index name (first ∷ rest) =
    pack_chunks ops index (named ops name) (header_of ops first)
      (packed ops target [] 0 (first ∷ rest))

unfoldable pub sheets_chunks : TextOps → ℕ → ℕ → Groups → Option (List Chunk)
sheets_chunks ops target index [] = some []
sheets_chunks ops target index ((name, rows) ∷ gs) =
    elim (sheet_chunks ops target index name rows) [
      | none ↦ none
      | some cs ↦ Option.map (λ ds. cs ++ ds) (sheets_chunks ops target (index + length cs) gs)
    ]

unfoldable pub chunk_rows : TextOps → ℕ → List ParsedSection → Option (List Chunk)
chunk_rows ops target sections =
    sheets_chunks ops target 0 (sorted_groups ops (grouped ops sections []))
