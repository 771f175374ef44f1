-- ===== src/Citations/Scan.antt =====
-- `_CITATION.findall`: the markers of an answer, a text of code points. The pattern
-- is `\[(C[1-9][0-9]*)\]`, and the matches do not overlap.
use peka_saas.Common.{
  ℕ, suc, zero, Bool, Option, none, some, List, [], ◌∷◌, ◌==◌, ◌&&◌, if◌then◌else◌, leb, length,
}

abbrev pub Text : Type 0
Text = List ℕ

-- `[`, `]` and `C`
abbrev pub opening : ℕ
opening = 91

abbrev pub closing : ℕ
closing = 93

abbrev pub letter : ℕ
letter = 67

-- `[0-9]` and `[1-9]`
abbrev pub is_digit : ℕ → Bool
is_digit c = leb 48 c && leb c 57

abbrev pub is_first_digit : ℕ → Bool
is_first_digit c = leb 49 c && leb c 57

abbrev pub prefixed : ℕ → Option Text → Option Text
prefixed c none = none
prefixed c (some cs) = some (c ∷ cs)

-- `[0-9]*\]`, the digits being returned.
abbrev pub digits : Text → Option Text
digits [] = none
digits (c ∷ cs) =
    let rest = digits cs in
    if c == closing then some [] else if is_digit c then prefixed c rest else none

-- `[1-9][0-9]*\]`
abbrev pub number : Text → Option Text
number [] = none
number (c ∷ cs) = if is_first_digit c then prefixed c (digits cs) else none

-- `C[1-9][0-9]*\]`
abbrev pub lettered : Text → Option Text
lettered [] = none
lettered (c ∷ cs) = if c == letter then prefixed c (number cs) else none

-- A match that begins here, of which the group is returned.
abbrev pub match_here : Text → Option Text
match_here [] = none
match_here (c ∷ cs) = if c == opening then lettered cs else none

-- The groups of the matches; the first number counts the characters of a match yet to be passed.
abbrev pub find_all : ℕ → Text → List Text
find_all skip [] = []
find_all (suc n) (c ∷ cs) = find_all n cs
find_all zero (c ∷ cs) = elim (match_here (c ∷ cs)) [
  | none ↦ find_all zero cs
  | some id ↦ id ∷ find_all (suc (length id)) cs
]
