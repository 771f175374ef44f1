-- ===== src/Chunker/Structured/Blocks.antt =====
-- The blocks of a structured text hold its lines.
use peka_saas.Common.{
  ℕ, suc, zero, ◌≤◌, ◌≡◌, refl, sym, ap, ◌∙◌, Bool, Option, some, List, [], ◌∷◌, ◌++◌, arith,
  length, length-append, where_rows, not, Bool-cases, inl, inr,
}
use peka_saas.Ingestion.Types.{Text}
use peka_saas.Chunker.Text.{TextOps}
use peka_saas.Chunker.Structured.{
  structured_blocks, rest_of_fence, rest_of_block, stops, matcher_of, Matcher,
}

abbrev pub concat : List (List Text) → List Text
concat [] = []
concat (b ∷ bs) = b ++ concat bs

-- The lines that are not blank.
abbrev pub full_lines : TextOps → List Text → List Text
full_lines ops = where_rows (λ l. not (ops.is_blank l))

append_assoc : (xs ys zs : List Text) → (xs ++ ys) ++ zs ≡ xs ++ (ys ++ zs)
append_assoc [] ys zs = refl
append_assoc (x ∷ xs) ys zs = ap (λ ws. x ∷ ws) (append_assoc xs ys zs)

where_rows-append :
    (p : Text → Bool) (xs ys : List Text)
    → where_rows p (xs ++ ys) ≡ where_rows p xs ++ where_rows p ys
where_rows-append p [] ys = refl
where_rows-append p (x ∷ xs) ys = elim (Bool-cases (p x)) [
  | inl e ↦ rw e (ap (λ ws. x ∷ ws) (where_rows-append p xs ys))
  | inr e ↦ rw e (where_rows-append p xs ys)
]

rest_of_fence-append :
    (ops : TextOps) (opening : Text) (ls : List Text)
    → (rest_of_fence ops opening ls).0 ++ (rest_of_fence ops opening ls).1 ≡ ls
unfolding rest_of_fence
rest_of_fence-append ops opening [] = refl
rest_of_fence-append ops opening (l ∷ ls) = elim (Bool-cases (ops.closes_fence opening l)) [
  | inl e ↦ rw e refl
  | inr e ↦ rw e (ap (λ ws. l ∷ ws) (rest_of_fence-append ops opening ls))
]

rest_of_block-append :
    (ops : TextOps) (m : Matcher) (ls : List Text)
    → (rest_of_block ops m ls).0 ++ (rest_of_block ops m ls).1 ≡ ls
unfolding rest_of_block
rest_of_block-append ops m [] = refl
rest_of_block-append ops m (l ∷ ls) = elim (Bool-cases (stops ops m l)) [
  | inl e ↦ rw e refl
  | inr e ↦ rw e (ap (λ ws. l ∷ ws) (rest_of_block-append ops m ls))
]

-- The blocks that are found hold the lines that are not blank, each in its place.
abbrev pub Holds : TextOps → List Text → Option (List (List Text)) → Type 0
Holds ops lines found =
    (bs : List (List Text)) × (found ≡ some bs)
    × (full_lines ops (concat bs) ≡ full_lines ops lines)

shorter : (block after ls : List Text) → block ++ after ≡ ls → length after ≤ length ls
shorter block after ls e = omega (arith, ap length e, length-append block after)

-- The lines of a block are followed by the blocks of the lines after it.
followed-Holds :
    (ops : TextOps) (l : Text) (block after ls : List Text) (rest found : Option (List (List Text)))
    → block ++ after ≡ ls
    → Holds ops after rest
    → ((bs : List (List Text)) → rest ≡ some bs → found ≡ some ((l ∷ block) ∷ bs))
    → Holds ops (l ∷ ls) found
followed-Holds ops l block after ls rest found e (bs, eq, kept) step = (
  (l ∷ block) ∷ bs,
  step bs eq,
  where_rows-append (λ l. not (ops.is_blank l)) (l ∷ block) (concat bs)
      ∙ ap (λ ws. full_lines ops (l ∷ block) ++ ws) kept
      ∙ sym (where_rows-append (λ l. not (ops.is_blank l)) (l ∷ block) after)
      ∙ ap (λ ws. full_lines ops (l ∷ ws)) e,
)

-- As many steps as there are lines are enough to find the blocks, and the lines of the blocks in
-- turn are the lines of the text, up to blank lines.
pub structured_blocks-Holds :
    (ops : TextOps) (fuel : ℕ) (lines : List Text)
    → length lines ≤ fuel
    → Holds ops lines (structured_blocks ops fuel lines)
unfolding structured_blocks
structured_blocks-Holds ops fuel [] enough = ([], refl, refl)
structured_blocks-Holds ops zero (l ∷ ls) enough = absurd (omega arith)
structured_blocks-Holds ops (suc fuel) (l ∷ ls) enough = elim (Bool-cases (ops.is_blank l)) [
  | inl e ↦
      let (bs, found, kept) = structured_blocks-Holds ops fuel ls (omega arith) in
      (bs, rw (structured_blocks, e) found, rw e kept)
  | inr e ↦ elim (Bool-cases (ops.opens_fence l)) [
    | inl e' ↦
        let whole = rest_of_fence-append ops l ls in
        followed-Holds ops l (rest_of_fence ops l ls).0 (rest_of_fence ops l ls).1 ls
          (structured_blocks ops fuel (rest_of_fence ops l ls).1)
          (structured_blocks ops (suc fuel) (l ∷ ls)) whole
          (structured_blocks-Holds ops fuel (rest_of_fence ops l ls).1
            (omega (arith, shorter (rest_of_fence ops l ls).0 (rest_of_fence ops l ls).1 ls whole)))
          (λ bs found. rw (structured_blocks, e, e', found) refl)
    | inr e' ↦ elim (Bool-cases (ops.is_heading l)) [
      | inl e'' ↦
          followed-Holds ops l [] ls ls (structured_blocks ops fuel ls)
            (structured_blocks ops (suc fuel) (l ∷ ls)) refl
            (structured_blocks-Holds ops fuel ls (omega arith))
            (λ bs found. rw (structured_blocks, e, e', e'', found) refl)
      | inr e'' ↦
          let m = matcher_of ops l in
          let whole = rest_of_block-append ops m ls in
          followed-Holds ops l (rest_of_block ops m ls).0 (rest_of_block ops m ls).1 ls
            (structured_blocks ops fuel (rest_of_block ops m ls).1)
            (structured_blocks ops (suc fuel) (l ∷ ls)) whole
            (structured_blocks-Holds ops fuel (rest_of_block ops m ls).1 (
              omega
                (arith, shorter (rest_of_block ops m ls).0 (rest_of_block ops m ls).1 ls whole)))
            (λ bs found. rw (structured_blocks, e, e', e'', found) refl)
    ]
  ]
]
