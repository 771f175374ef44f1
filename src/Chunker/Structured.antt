-- ===== src/Chunker/Structured.antt =====
-- `_structured_blocks` and `_chunk_structured_text` of backend/app/services/document_chunker.py.
pub mod Blocks
use peka_saas.Common.{
  ℕ, zero, suc, ◌+◌, Bool, true, false, Option, none, some, List, [], ◌∷◌, ◌++◌, ◌&&◌, ◌||◌, ltb,
  leb, ◌==◌, not, length, is_empty, if◌then◌else◌, map,
}
use mathlib.Core.Option
use peka_saas.Ingestion.Worker.Env.{ParsedSection, Chunk}
use peka_saas.Ingestion.Types.{Text}
use peka_saas.Chunker.Text.{TextOps, token_count}

-- What a block that is neither a fence nor a heading consists of: `matcher`.
pub data Matcher : Type 0 where
  table list plain : Matcher

abbrev pub matcher_of : TextOps → Text → Matcher
matcher_of ops line = if ops.is_table line then table else if ops.is_list line then list else plain

-- The lines that such a block does not take.
unfoldable pub ends_block : TextOps → Matcher → Text → Bool
ends_block ops table line = not (ops.is_table line)
ends_block ops list line = not (ops.is_list line)
ends_block ops plain line = ops.is_table line || ops.is_list line

-- The conditions of the inner loop: it stops before the line.
abbrev pub stops : TextOps → Matcher → Text → Bool
stops ops m line =
    ops.is_blank line || ((ops.opens_fence line || ops.is_heading line) || ends_block ops m line)

-- The lines of the block that follow its first line, and the lines after the block.
unfoldable pub rest_of_block : TextOps → Matcher → List Text → List Text × List Text
rest_of_block ops m [] = ([], [])
rest_of_block ops m (l ∷ ls) =
    let (block, after) = rest_of_block ops m ls in
    if stops ops m l then ([], l ∷ ls) else (l ∷ block, after)

-- The lines of a fence after the line that opens it, the closing line included.
unfoldable pub rest_of_fence : TextOps → Text → List Text → List Text × List Text
rest_of_fence ops opening [] = ([], [])
rest_of_fence ops opening (l ∷ ls) =
    let (block, after) = rest_of_fence ops opening ls in
    if ops.closes_fence opening l then (l ∷ [], ls) else (l ∷ block, after)

-- A block in front of the blocks of the lines after it.
abbrev pub followed : List Text → Option (List (List Text)) → Option (List (List Text))
followed block rest = Option.map (λ bs. block ∷ bs) rest

-- `_structured_blocks` on the lines, each block as its lines; on fuel, none where it is used up.
unfoldable pub structured_blocks : TextOps → ℕ → List Text → Option (List (List Text))
structured_blocks ops fuel [] = some []
structured_blocks ops zero (l ∷ ls) = none
structured_blocks ops (suc fuel) (l ∷ ls) = elim (ops.is_blank l) [
  | true ↦ structured_blocks ops fuel ls
  | false ↦ elim (ops.opens_fence l) [
    | true ↦
        let (block, after) = rest_of_fence ops l ls in
        followed (l ∷ block) (structured_blocks ops fuel after)
    | false ↦ elim (ops.is_heading l) [
      | true ↦ followed (l ∷ []) (structured_blocks ops fuel ls)
      | false ↦
          let (block, after) = rest_of_block ops (matcher_of ops l) ls in
          followed (l ∷ block) (structured_blocks ops fuel after)
    ]
  ]
]

-- The chunks so far, the buffer and its count of words.
pub record Pack : Type 0 where
  pub chunks : List Chunk
  pub buffer : List Text
  pub word_count : ℕ

-- `[heading] if heading else []` and its words
abbrev pub reset_buffer : TextOps → Option Text → List Chunk → Pack
reset_buffer ops none cs = record { chunks = cs; buffer = []; word_count = 0 }
reset_buffer ops (some h) cs = record {
  chunks = cs;
  buffer = h ∷ [];
  word_count = length (ops.split h);
}

abbrev pub buffer_chunk : TextOps → ParsedSection → ℕ → List Text → Chunk
buffer_chunk ops s index buffer =
    let body = ops.join_blocks buffer in
    record {
      index = index;
      text = body;
      token_count = token_count (length (ops.split body));
      page_number = s.page_number;
      sheet_name = s.sheet_name;
      row_start = s.row_start;
      row_end = s.row_end;
      section_title = s.section_title;
      metadata = ops.structured_metadata s.metadata;
    }

-- `emit()`
unfoldable pub emit : TextOps → ParsedSection → Option Text → Pack → Pack
emit ops s heading p =
    if is_empty p.buffer
    then p
    else reset_buffer ops heading (p.chunks ++ buffer_chunk ops s (length p.chunks) p.buffer ∷ [])

-- `if buffer and word_count + n > target_words: emit()`
abbrev pub make_room : TextOps → ParsedSection → Option Text → ℕ → ℕ → Pack → Pack
make_room ops s heading target n p =
    if not (is_empty p.buffer) && ltb target (p.word_count + n) then emit ops s heading p else p

abbrev pub append : Text → ℕ → Pack → Pack
append text n p = record p { buffer = p.buffer ++ text ∷ []; word_count = p.word_count + n }

-- `heading and block == heading and buffer == [heading]`
abbrev pub is_heading_alone : Option Text → Text → List Text → Bool
is_heading_alone none block buffer = false
is_heading_alone (some h) block [] = false
is_heading_alone (some h) block (b ∷ bs) = block == h && (b == h && is_empty bs)

-- The lines of a block that is larger than the target.
unfoldable pub add_lines : TextOps → ParsedSection → Option Text → ℕ → List Text → Pack → Pack
add_lines ops s heading target [] p = p
add_lines ops s heading target (l ∷ ls) p =
    let n = length (ops.split l) in
    add_lines ops s heading target ls (append l n (make_room ops s heading target n p))

abbrev pub add_whole : Option Text → Text → ℕ → Pack → Pack
add_whole heading block n p =
    if is_heading_alone heading block p.buffer
    then record p { word_count = p.word_count + n }
    else append block n p

unfoldable pub add_blocks : TextOps → ParsedSection → Option Text → ℕ → List Text → Pack → Pack
add_blocks ops s heading target [] p = p
add_blocks ops s heading target (block ∷ blocks) p =
    let n = length (ops.split block) in
    let roomy = make_room ops s heading target n p in
    add_blocks ops s heading target blocks (
      if ops.opens_fence block || leb n target
      then add_whole heading block n roomy
      else add_lines ops s heading target (ops.splitlines block) roomy)

-- `heading = blocks[0] if _HEADING.match(blocks[0]) else None`
abbrev pub heading_of : TextOps → Text → Option Text
heading_of ops block = if ops.is_heading block then some block else none

-- One section: its blocks, with the chunks of the sections before.
abbrev pub section_chunks : TextOps → ℕ → ParsedSection → List Text → List Chunk → List Chunk
section_chunks ops target s [] cs = cs
section_chunks ops target s (block ∷ blocks) cs =
    (emit ops s (heading_of ops block) (
      add_blocks ops s (heading_of ops block) target (block ∷ blocks)
        (record { chunks = cs; buffer = []; word_count = 0 }))).chunks

abbrev pub blocks_of : TextOps → ParsedSection → Option (List (List Text))
blocks_of ops s = let lines = ops.splitlines s.text in structured_blocks ops (length lines) lines

unfoldable pub chunk_structured_text :
    TextOps → ℕ → List ParsedSection → List Chunk → Option (List Chunk)
chunk_structured_text ops target [] cs = some cs
chunk_structured_text ops target (s ∷ ss) cs = elim (blocks_of ops s) [
  | none ↦ none
  | some blocks ↦
      chunk_structured_text ops target ss
        (section_chunks ops target s (map ops.join_lines blocks) cs)
]
