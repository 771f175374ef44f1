-- ===== src/Citations/Rendered.antt =====
-- The markers of an answer that is put together from plain text and markers.
use peka_saas.Common.{
  ℕ, suc, ◌≡◌, refl, ap, ◌∙◌, true, false, some, List, [], ◌∷◌, ◌++◌, map, arith, ◌==◌, All, length,
}
use peka_saas.Citations.Scan.{
  Text, opening, closing, letter, is_digit, is_first_digit, digits, number, find_all,
}
use peka_saas.Citations.Validator.{citation_ids}
use peka_saas.Citations.Reference.{firsts, citation_ids-firsts}

abbrev pub IsPlain : Text → Type 0
IsPlain = All (λ c. (c == opening) ≡ false)

-- A number from 1, without a zero in front.
abbrev pub IsNumber : Text → Type 0
IsNumber [] = ⊥
IsNumber (c ∷ cs) = (is_first_digit c ≡ true) × All (λ d. is_digit d ≡ true) cs

-- Plain text, then the marker of a number.
abbrev pub Piece : Type 0
Piece = Text × Text

abbrev pub IsPiece : Piece → Type 0
IsPiece p = IsPlain p.0 × IsNumber p.1

abbrev pub id_of : Piece → Text
id_of p = letter ∷ p.1

abbrev pub rendered : List Piece → Text → Text
rendered [] end = end
rendered (p ∷ ps) end = p.0 ++ (opening ∷ letter ∷ p.1 ++ (closing ∷ rendered ps end))

find_all-none : (t : Text) → IsPlain t → find_all 0 t ≡ []
find_all-none [] h = refl
find_all-none (c ∷ cs) h = rw (find_all, h.0) (find_all-none cs h.1)

find_all-plain : (t s : Text) → IsPlain t → find_all 0 (t ++ s) ≡ find_all 0 s
find_all-plain [] s h = refl
find_all-plain (c ∷ cs) s h = rw (find_all, h.0) (find_all-plain cs s h.1)

digits-append :
    (ds s : Text) → All (λ d. is_digit d ≡ true) ds → digits (ds ++ (closing ∷ s)) ≡ some ds
digits-append [] s h = refl
digits-append (d ∷ ds) s h = ground (arith, h.0, digits-append ds s h.1)

number-append : (n s : Text) → IsNumber n → number (n ++ (closing ∷ s)) ≡ some n
number-append [] s h = absurd h
number-append (c ∷ cs) s h = rw (h.0, digits-append cs s h.1) refl

find_all-skip :
    (t : Text) (c : ℕ) (s : Text) → find_all (suc (length t)) (t ++ c ∷ s) ≡ find_all 0 s
find_all-skip [] c s = refl
find_all-skip (d ∷ t) c s = find_all-skip t c s

find_all-marker :
    (n s : Text)
    → IsNumber n
    → find_all 0 (opening ∷ letter ∷ n ++ (closing ∷ s)) ≡ (letter ∷ n) ∷ find_all 0 s
find_all-marker n s h =
    rw (find_all, number-append n s h) (ap (λ l. (letter ∷ n) ∷ l) (find_all-skip n closing s))

find_all-rendered :
    (ps : List Piece) (end : Text)
    → All IsPiece ps
    → IsPlain end
    → find_all 0 (rendered ps end) ≡ map id_of ps
find_all-rendered [] end h plain = find_all-none end plain
find_all-rendered (p ∷ ps) end h plain =
    find_all-plain p.0 (opening ∷ letter ∷ p.1 ++ (closing ∷ rendered ps end)) h.0.0
    ∙ find_all-marker p.1 (rendered ps end) h.0.1
    ∙ ap (λ l. id_of p ∷ l) (find_all-rendered ps end h.1 plain)

-- Of an answer that is put together from plain text, without `[`, and the markers of numbers from 1,
-- `citation_ids` gives the ids of the markers back in the order of their first mention, each once.
pub citation_ids-rendered :
    (ps : List Piece) (end : Text)
    → All IsPiece ps
    → IsPlain end
    → citation_ids (rendered ps end) ≡ firsts (map id_of ps)
citation_ids-rendered ps end h plain =
    citation_ids-firsts (rendered ps end) ∙ ap firsts (find_all-rendered ps end h plain)
