-- ===== src/Chunker/Windows/Cover.antt =====
-- The windows of a section give its words back.
use peka_saas.Common.{
  ℕ, suc, zero, ◌+◌, ◌-◌, ◌≤◌, ◌<◌, ◌≡◌, inl, inr, refl, sym, ap, ◌∙◌, Option, some, List, [], ◌∷◌,
  ◌++◌, min, arith, All, length, ltb, ◌==◌, Bool-cases, true, false,
}
use peka_saas.Ingestion.Types.{Text}
use peka_saas.Chunker.Text.{
  take, drop, take-drop, drop-drop, drop-nil, take-all, append-nil, length-drop, length-take,
}
use peka_saas.Chunker.Windows.{windows}

-- The windows in turn, each without the words that it shares with the one before: as many as the
-- overlap, and fewer than the one before has.
abbrev pub unstitch : ℕ → List (List Text) → List Text
unstitch overlap [] = []
unstitch overlap (w ∷ ws) = w ++ drop (min overlap (length w - 1)) (unstitch overlap ws)

-- A window has a word, and at most the target.
abbrev pub IsWindow : ℕ → List Text → Type 0
IsWindow target w = (1 ≤ length w) × (length w ≤ target)

-- What the loop returns for the words from `start`.
abbrev Covers : ℕ → ℕ → ℕ → List Text → Option (List (List Text)) → Type 0
Covers target overlap start words found =
    (ws : List (List Text)) × (found ≡ some ws)
    × (unstitch overlap ws ≡ drop start words)
    × All (IsWindow target) ws

last_window :
    (fuel target overlap start : ℕ) (words : List Text)
    → start < length words
    → length words ≤ start + target
    → Covers target overlap start words (windows (suc fuel) target overlap start words)
unfolding windows
last_window fuel target overlap start words inside short =
    let w : List Text = take (length words - start) (drop start words) in
    let sizes : length (drop start words) + start ≡ length words =
      length-drop start words (omega arith) in
    let whole : w ≡ drop start words =
      take-all (length words - start) (drop start words) (omega (arith, sizes)) in
    let size : length w ≡ length words - start = ap length whole ∙ omega (arith, sizes) in
    (
      w ∷ [],
      ground arith,
      ap (λ ys. w ++ ys) (drop-nil (min overlap (length w - 1))) ∙ append-nil w ∙ whole,
      ((omega (arith, size), omega (arith, size)), tt),
    )

more_windows :
    (fuel target overlap start : ℕ) (words : List Text)
    → 1 ≤ target
    → start + target < length words
    → Covers target overlap
        (start + target - min overlap (target - 1))
        words
        (windows fuel target overlap (start + target - min overlap (target - 1)) words)
    → Covers target overlap start words (windows (suc fuel) target overlap start words)
unfolding windows
more_windows fuel target overlap start words some_target long (ws, found, glued, sizes) =
    let w : List Text = take target (drop start words) in
    let rest : length (drop start words) + start ≡ length words =
      length-drop start words (omega arith) in
    let size : length w ≡ target = length-take target (drop start words) (omega (arith, rest)) in
    let ends : min (start + target) (length words) ≡ start + target = omega arith in
    let cut : start + target - start ≡ target = omega arith in
    let started : ltb start (length words) ≡ true = ground arith in
    let inner : (start + target == length words) ≡ false = ground arith in
    let grown : (start + target == start) ≡ false = ground arith in
    (
      w ∷ ws,
      rw (ends, started, inner, grown, cut, found) refl,
      ap (λ n. w ++ drop (min overlap (n - 1)) (unstitch overlap ws)) size
          ∙ ap (λ ys. w ++ drop (min overlap (target - 1)) ys) glued
          ∙ ap (λ ys. w ++ ys)
              (drop-drop (min overlap (target - 1)) (start + target - min overlap (target - 1))
                  (start + target) words (omega arith)
                ∙ sym (drop-drop target start (start + target) words refl))
          ∙ take-drop target (drop start words),
      ((omega (arith, size), omega (arith, size)), sizes),
    )

covered :
    (fuel target overlap start : ℕ) (words : List Text)
    → 1 ≤ target
    → start < length words
    → length words < start + fuel
    → Covers target overlap start words (windows fuel target overlap start words)
covered zero target overlap start words some_target inside enough = absurd (omega arith)
covered (suc fuel) target overlap start words some_target inside enough =
    elim (Bool-cases (ltb (start + target) (length words))) [
      | inr e ↦ last_window fuel target overlap start words inside (ground arith)
      | inl e ↦ more_windows fuel target overlap start words some_target (ground arith) (
          covered fuel target overlap (start + target - min overlap (target - 1)) words some_target
            (ground arith) (ground arith))
    ]

-- With a target of at least one word and any overlap, as many steps as there are words and one more
-- are enough for the loop of a section. The windows that it returns have at least one word and at
-- most the target, and in turn, each without the words that it shares with the one before, they are
-- the words of the section.
pub windows-unstitch :
    (target overlap : ℕ) (words : List Text)
    → 1 ≤ target
    → (ws : List (List Text)) × (windows (length words + 1) target overlap 0 words ≡ some ws)
      × (unstitch overlap ws ≡ words)
      × All (IsWindow target) ws
windows-unstitch target overlap [] some_target = ([], unfold windows in refl, refl, tt)
windows-unstitch target overlap (w ∷ ws) some_target =
    covered (length (w ∷ ws) + 1) target overlap 0 (w ∷ ws) some_target (omega arith) (omega arith)
