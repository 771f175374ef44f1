-- ===== src/Chunker/Windows.antt =====
-- `_chunk_word_windows` of backend/app/services/document_chunker.py.
pub mod Cover
use peka_saas.Common.{
  ℕ, suc, zero, ◌+◌, ◌-◌, min, Bool, Option, none, some, List, [], ◌∷◌, ◌++◌, ltb, ◌==◌, length,
  if◌then◌else◌,
}
use mathlib.Core.Option
use peka_saas.Ingestion.Worker.Env.{ParsedSection, Chunk}
use peka_saas.Ingestion.Types.{Text}
use peka_saas.Chunker.Text.{TextOps, take, drop, token_count}

-- `end - min(overlap_words, end - start - 1)`; the difference is negative where the window is
-- empty, and the next start is then one after the end.
abbrev pub next_start : ℕ → ℕ → ℕ → ℕ
next_start overlap start end = if end == start then end + 1 else end - min overlap (end - start - 1)

-- The loop of one section, from `start`, on fuel; none where the fuel is used up.
unfoldable pub windows : ℕ → ℕ → ℕ → ℕ → List Text → Option (List (List Text))
windows zero target overlap start words = none
windows (suc fuel) target overlap start words =
    let end = min (start + target) (length words) in
    let rest = windows fuel target overlap (next_start overlap start end) words in
    if ltb start (length words)
    then (if end == length words
        then some (take (end - start) (drop start words) ∷ [])
        else Option.map (λ ws. take (end - start) (drop start words) ∷ ws) rest)
    else some []

-- The chunk of a window.
abbrev pub window_chunk : TextOps → ParsedSection → ℕ → List Text → Chunk
window_chunk ops s index window = record {
  index = index;
  text = ops.join_words window;
  token_count = token_count (length window);
  page_number = s.page_number;
  sheet_name = s.sheet_name;
  row_start = s.row_start;
  row_end = s.row_end;
  section_title = s.section_title;
  metadata = s.metadata;
}

-- `index=len(chunks)` for each window in turn.
abbrev pub numbered : TextOps → ParsedSection → ℕ → List (List Text) → List Chunk
numbered ops s index [] = []
numbered ops s index (w ∷ ws) = window_chunk ops s index w ∷ numbered ops s (index + 1) ws

-- The windows of a section: as many steps as it has words, and one, are enough.
abbrev pub section_windows : TextOps → ℕ → ℕ → ParsedSection → Option (List (List Text))
section_windows ops target overlap s =
    windows (length (ops.split s.text) + 1) target overlap 0 (ops.split s.text)

-- The loop over the sections; the chunks so far are counted.
unfoldable pub chunk_word_windows : TextOps → ℕ → ℕ → ℕ → List ParsedSection → Option (List Chunk)
chunk_word_windows ops target overlap index [] = some []
chunk_word_windows ops target overlap index (s ∷ ss) = elim (section_windows ops target overlap s) [
  | none ↦ none
  | some ws ↦
      Option.map (λ cs. numbered ops s index ws ++ cs)
        (chunk_word_windows ops target overlap (index + length ws) ss)
]
