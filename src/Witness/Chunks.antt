-- ===== src/Witness/Chunks.antt =====
-- Examples of the theorems on the chunker: a text is one word, and 0 is a blank line.
use peka_saas.Common.{ℕ, ◌≡◌, ◌==◌, refl, false, none, some, List, [], ◌∷◌, arith, All, leb}
use peka_saas.Chunker.Text.{TextOps}
use peka_saas.Chunker.Windows.{windows}
use peka_saas.Chunker.Windows.Cover.{unstitch, IsWindow, windows-unstitch}
use peka_saas.Chunker.Structured.{structured_blocks}
use peka_saas.Chunker.Structured.Blocks.{Holds, structured_blocks-Holds}

abbrev ops : TextOps
ops = record {
  split = λ t. t ∷ [];
  join_words = λ ws. 1;
  join_lines = λ ws. 2;
  splitlines = λ t. t ∷ [];
  precedes = leb;
  empty_text = 0;
  headers = λ m. none;
  header_metadata = λ h. h;
  structured_metadata = λ m. m;
  join_blocks = λ ws. 3;
  is_blank = λ l. l == 0;
  opens_fence = λ l. l == 7;
  closes_fence = λ o l. l == 7;
  is_heading = λ l. l == 8;
  is_table = λ l. false;
  is_list = λ l. false;
}

abbrev five : List ℕ
five = 1 ∷ 2 ∷ 3 ∷ 4 ∷ 5 ∷ []

windows-unstitch_example :
    (ws : List (List ℕ)) × (windows 6 3 1 0 five ≡ some ws)
    × (unstitch 1 ws ≡ five)
    × All (IsWindow 3) ws
windows-unstitch_example = windows-unstitch 3 1 five (omega arith)

-- The third word is in both windows.
five-windows : windows 6 3 1 0 five ≡ some ((1 ∷ 2 ∷ 3 ∷ []) ∷ (3 ∷ 4 ∷ 5 ∷ []) ∷ [])
unfolding windows
five-windows = refl

abbrev lines : List ℕ
lines = 8 ∷ 0 ∷ 7 ∷ 0 ∷ 7 ∷ 4 ∷ []

structured_blocks-Holds_example : Holds ops lines (structured_blocks ops 6 lines)
structured_blocks-Holds_example = structured_blocks-Holds ops 6 lines (omega arith)
