-- ===== src/Citations/Reference.antt =====
-- `citation_ids` and `validate_citations` against descriptions without the state of a loop.
use peka_saas.Common.{
  ◌≡◌, refl, sym, ap, ◌∙◌, inl, inr, Bool, true, false, none, some, List, [], ◌∷◌, ◌++◌, arith,
  ◌&&◌, not, is_some, is_none, is_empty, if◌then◌else◌, where_rows, Bool-cases, Option-cases,
}
use mathlib.Core.List.{append_assoc}
use peka_saas.Chunker.Text.{append-nil}
use peka_saas.Citations.Scan.{Text, find_all}
use peka_saas.Citations.Validator.{
  KnowledgeResult, AiAnswerCitation, citation_validation_error, valid, invalid, same, seen_in,
  collect, citation_ids, get, cite, cite_each, validate_citations,
}

-- The first mentions, in order: each text is kept and removed from what follows.
abbrev pub firsts : List Text → List Text
firsts [] = []
firsts (x ∷ xs) = x ∷ where_rows (λ y. not (same y x)) (firsts xs)

abbrev pub every : (Text → Bool) → List Text → Bool
every p [] = true
every p (x ∷ xs) = p x && every p xs

-- The citations of the results that the map has.
abbrev pub citations_of : List (Text × KnowledgeResult) → List Text → List AiAnswerCitation
citations_of m [] = []
citations_of m (id ∷ ids) = elim (get id m) [
  | none ↦ citations_of m ids
  | some r ↦ cite id r ∷ citations_of m ids
]

abbrev pub is_known : List (Text × KnowledgeResult) → Text → Bool
is_known m id = is_some (get id m)

same-eq : (a b : Text) → same a b ≡ true → a ≡ b
same-eq [] [] h = refl
same-eq [] (b ∷ ys) h = ground arith
same-eq (a ∷ xs) [] h = ground arith
same-eq (a ∷ xs) (b ∷ ys) h = ground (arith, same-eq xs ys)

where_rows-where_rows :
    (p q r : Text → Bool)
    → ((x : Text) → r x ≡ (q x && p x))
    → (xs : List Text) → where_rows p (where_rows q xs) ≡ where_rows r xs
where_rows-where_rows p q r h [] = refl
where_rows-where_rows p q r h (x ∷ xs) = ground (arith, h x, where_rows-where_rows p q r h xs)

-- A text that was seen is dropped by the test anyway.
unseen_same :
    (s : List Text) (x : Text)
    → seen_in x s ≡ true
    → (y : Text) → not (seen_in y s) ≡ (not (same y x) && not (seen_in y s))
unseen_same s x h y = elim (Bool-cases (same y x)) [
  | inl e ↦ let eq : y ≡ x = same-eq y x e in rw (e, eq, h) refl
  | inr e ↦ rw e refl
]

unseen_more :
    (s : List Text) (x y : Text) → not (seen_in y (x ∷ s)) ≡ (not (same y x) && not (seen_in y s))
unseen_more s x y = elim (Bool-cases (same y x)) [ inl e ↦ rw e refl | inr e ↦ rw e refl ]

collect_seen :
    (seen ordered : List Text) (x : Text) (ids : List Text)
    → seen_in x seen ≡ true
    → collect seen ordered (x ∷ ids) ≡ collect seen ordered ids
collect_seen seen ordered x ids e = rw (e, collect) refl

collect_unseen :
    (seen ordered : List Text) (x : Text) (ids : List Text)
    → seen_in x seen ≡ false
    → collect seen ordered (x ∷ ids) ≡ collect (x ∷ seen) (ordered ++ x ∷ []) ids
collect_unseen seen ordered x ids e = rw (e, collect) refl

collect-firsts :
    (seen ordered ids : List Text)
    → collect seen ordered ids ≡ ordered ++ where_rows (λ y. not (seen_in y seen)) (firsts ids)
collect-firsts seen ordered [] = sym (append-nil ordered)
collect-firsts seen ordered (x ∷ ids) = elim (Bool-cases (seen_in x seen)) [
  | inl e ↦
      collect_seen seen ordered x ids e
      ∙ collect-firsts seen ordered ids
      ∙ rw
          (
            e,
            where_rows-where_rows (λ y. not (seen_in y seen)) (λ y. not (same y x))
                (λ y. not (seen_in y seen)) (unseen_same seen x e) (firsts ids),
          )
          refl
  | inr e ↦
      collect_unseen seen ordered x ids e
      ∙ collect-firsts (x ∷ seen) (ordered ++ x ∷ []) ids
      ∙ append_assoc ordered (x ∷ []) (where_rows (λ y. not (seen_in y (x ∷ seen))) (firsts ids))
      ∙ rw
          (
            e,
            where_rows-where_rows (λ y. not (seen_in y seen)) (λ y. not (same y x))
                (λ y. not (seen_in y (x ∷ seen))) (unseen_more seen x) (firsts ids),
          )
          refl
]

-- A test does not change on the texts that are dropped because one like them was kept.
every-where_rows :
    (p : Text → Bool) (x : Text)
    → p x ≡ true
    → (xs : List Text) → every p (where_rows (λ y. not (same y x)) xs) ≡ every p xs
every-where_rows p x h [] = refl
every-where_rows p x h (y ∷ xs) = elim (Bool-cases (same y x)) [
  | inl e ↦
      let eq : y ≡ x = same-eq y x e in
      let holds : p y ≡ true = ap p eq ∙ h in rw (e, holds) (every-where_rows p x h xs)
  | inr e ↦ rw (e, every-where_rows p x h xs) refl
]

every-firsts : (p : Text → Bool) (xs : List Text) → every p (firsts xs) ≡ every p xs
every-firsts p [] = refl
every-firsts p (x ∷ xs) = elim (Bool-cases (p x)) [
  | inl e ↦ rw (e, every-where_rows p x e (firsts xs)) (every-firsts p xs)
  | inr e ↦ rw e refl
]

unknown-every :
    (m : List (Text × KnowledgeResult)) (ids : List Text)
    → is_empty (where_rows (λ id. is_none (get id m)) ids) ≡ every (is_known m) ids
unknown-every m [] = refl
unknown-every m (id ∷ ids) = elim (Option-cases (get id m)) [
  | inl e ↦ rw e refl
  | inr (r, e) ↦ rw e (unknown-every m ids)
]

citations_of_known :
    (m : List (Text × KnowledgeResult)) (id : Text) (ids : List Text) (r : KnowledgeResult)
    → get id m ≡ some r
    → citations_of m (id ∷ ids) ≡ cite id r ∷ citations_of m ids
citations_of_known m id ids r e = rw (citations_of, e) refl

cite_each_lem :
    (m : List (Text × KnowledgeResult)) (cs : List AiAnswerCitation) (ids : List Text)
    → every (is_known m) ids ≡ true
    → cite_each m cs ids ≡ valid (cs ++ citations_of m ids)
cite_each_lem m cs [] h = ap valid (sym (append-nil cs))
cite_each_lem m cs (id ∷ ids) h = elim (Option-cases (get id m)) [
  | inl e ↦ absurd (ground arith)
  | inr (r, e) ↦
      rw (cite_each, e)
        (cite_each_lem m (cs ++ cite id r ∷ []) ids (ground arith)
          ∙ ap valid (
              append_assoc cs (cite id r ∷ []) (citations_of m ids)
              ∙ ap (λ l. cs ++ l) (sym (citations_of_known m id ids r e))))
]

where_rows_all : (xs : List Text) → where_rows (λ y. not (seen_in y [])) xs ≡ xs
where_rows_all [] = refl
where_rows_all (x ∷ xs) = ap (λ l. x ∷ l) (where_rows_all xs)

-- `citation_ids` gives the markers of the answer in the order of their first mention, each once.
pub citation_ids-firsts : (answer : Text) → citation_ids answer ≡ firsts (find_all 0 answer)
unfolding citation_ids
citation_ids-firsts answer =
    collect-firsts [] [] (find_all 0 answer) ∙ where_rows_all (firsts (find_all 0 answer))

-- Where the map has every marker of the answer, `validate_citations` gives the citations of the
-- markers in the order of their first mention, each once, and else it raises
-- CitationValidationError; it never raises KeyError.
pub validate_citations_lem :
    (answer : Text) (m : List (Text × KnowledgeResult))
    → validate_citations answer m ≡ (
        if every (is_known m) (find_all 0 answer)
        then valid (citations_of m (firsts (find_all 0 answer)))
        else invalid citation_validation_error)
unfolding validate_citations
validate_citations_lem answer m = elim (Bool-cases (every (is_known m) (find_all 0 answer))) [
  | inl e ↦
      let known : every (is_known m) (firsts (find_all 0 answer)) ≡ true =
        every-firsts (is_known m) (find_all 0 answer) ∙ e in
      rw (e, citation_ids-firsts answer, unknown-every m (firsts (find_all 0 answer)), known)
        (cite_each_lem m [] (firsts (find_all 0 answer)) known)
  | inr e ↦
      let unknown : every (is_known m) (firsts (find_all 0 answer)) ≡ false =
        every-firsts (is_known m) (find_all 0 answer) ∙ e in
      rw (e, citation_ids-firsts answer, unknown-every m (firsts (find_all 0 answer)), unknown) refl
]
