-- ===== src/Chunker/Rows/Packs.antt =====
-- The packs of a sheet hold its rows.
use peka_saas.Common.{
  ℕ, ◌+◌, ◌≡◌, inl, inr, refl, ap, ◌∙◌, List, [], ◌∷◌, ◌++◌, ◌&&◌, length, is_empty, not, ltb,
  Bool-cases,
}
use peka_saas.Ingestion.Worker.Env.{ParsedSection}
use peka_saas.Chunker.Text.{TextOps}
use peka_saas.Chunker.Rows.{packed}

abbrev concat_rows : List (List ParsedSection) → List ParsedSection
concat_rows [] = []
concat_rows (p ∷ ps) = p ++ concat_rows ps

append_assoc : (xs ys zs : List ParsedSection) → (xs ++ ys) ++ zs ≡ xs ++ (ys ++ zs)
append_assoc [] ys zs = refl
append_assoc (x ∷ xs) ys zs = ap (λ ws. x ∷ ws) (append_assoc xs ys zs)

-- The packs in turn are the buffer and the rows: no row is lost, repeated or moved.
pub packed-concat_rows :
    (ops : TextOps) (target : ℕ) (buffer : List ParsedSection) (n : ℕ) (rows : List ParsedSection)
    → concat_rows (packed ops target buffer n rows) ≡ buffer ++ rows
unfolding packed
packed-concat_rows ops target [] n [] = refl
packed-concat_rows ops target (b ∷ bs) n [] = refl
packed-concat_rows ops target buffer n (r ∷ rows) =
    let m : ℕ = length (ops.split r.text) in
    elim (Bool-cases (not (is_empty buffer) && ltb target (n + m))) [
      | inl e ↦
          rw (packed, e) (ap (λ ws. buffer ++ ws) (packed-concat_rows ops target (r ∷ []) m rows))
      | inr e ↦
          rw (packed, e)
            (packed-concat_rows ops target (buffer ++ r ∷ []) (n + m) rows
              ∙ append_assoc buffer (r ∷ []) rows)
    ]
