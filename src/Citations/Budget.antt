-- ===== src/Citations/Budget.antt =====
-- The tokens of a prompt that `PromptBuilder.build` has built.
use peka_saas.Common.{
  ℕ, ◌+◌, ◌≤◌, ◌<◌, ◌⊎◌, ◌||◌, if◌then◌else◌, leb→le, ◌≡◌, inl, inr, refl, Bool, true, false, List,
  [], ◌∷◌, ◌++◌, arith, length, is_empty, length-append, Bool-cases, leb, ◌/◌,
}
use peka_saas.Citations.Scan.{Text, letter}
use peka_saas.Citations.Validator.{KnowledgeResult}
use peka_saas.Citations.Prompt.{
  PromptTexts, PromptBuilder, PromptBuildResult, Selection, Built, built, estimate_tokens,
  concatenated, is_duplicate, block, excerpt, exceeds, leave_out, include, policy_exceeds,
  no_evidence_fits, select, select_all, fixed_user, fixed_tokens, start, finish, build,
}

-- The estimates of the texts, one by one.
abbrev total : List Text → ℕ
total [] = 0
total (t ∷ ts) = estimate_tokens t + total ts

total-append : (xs ys : List Text) → total (xs ++ ys) ≡ total xs + total ys
total-append [] ys = omega arith
total-append (x ∷ xs) ys = omega (arith, total-append xs ys)

ceil_add : (a b : ℕ) → (a + b + 3) / 4 ≤ (a + 3) / 4 + (b + 3) / 4
ceil_add a b = omega arith

estimate-append : (s t : Text) → estimate_tokens (s ++ t) ≤ estimate_tokens s + estimate_tokens t
estimate-append s t = rw (length-append s t) (ground (arith, ceil_add (length s) (length t)))

ceil-concatenated : (ts : List Text) → (length (concatenated ts) + 3) / 4 ≤ total ts
ceil-concatenated [] = omega arith
ceil-concatenated (t ∷ ts) =
    rw (length-append t (concatenated ts))
      (ground (arith, ceil_add (length t) (length (concatenated ts)), ceil-concatenated ts))

-- What the loop has counted is what it took, and is within the budget.
abbrev IsWithin : ℕ → ℕ → Selection → Type 0
IsWithin fixed budget s =
    (s.used_tokens ≡ fixed + total s.evidence_blocks) × (s.used_tokens ≤ budget)

pick-IsWithin :
    (fixed budget : ℕ) (c e : Bool) (s t : Selection)
    → IsWithin fixed budget s
    → (e ≡ false → IsWithin fixed budget t)
    → IsWithin fixed budget (if c then s else if e then s else t)
pick-IsWithin fixed budget true e s t h k = h
pick-IsWithin fixed budget false true s t h k = h
pick-IsWithin fixed budget false false s t h k = k refl

-- The whole prompt is at most the sum of its parts.
content-le :
    (user requirements : Text) (ts : List Text)
    → estimate_tokens (user ++ (concatenated ts ++ requirements))
      ≤ estimate_tokens user + total ts + estimate_tokens requirements
content-le user requirements ts =
    let parts = estimate-append user (concatenated ts ++ requirements) in
    let evidence : estimate_tokens (concatenated ts ++ requirements)
        ≤ total ts + estimate_tokens requirements =
      rw (length-append (concatenated ts) requirements) (
        ground (
          arith,
          ceil_add (length (concatenated ts)) (length requirements),
          ceil-concatenated ts,
        )) in
    omega (arith, parts, evidence)

module _ (w : PromptTexts) (b : PromptBuilder) where
  include-IsWithin :
      (fixed : ℕ) (id text t : Text) (r : KnowledgeResult) (s : Selection)
      → IsWithin fixed b.max_total_prompt_tokens s
      → exceeds w b (estimate_tokens t) s ≡ false
      → IsWithin fixed b.max_total_prompt_tokens (include w b id r text t s)
  include-IsWithin fixed id text t r s h e =
      (omega (arith, h.0, total-append s.evidence_blocks (t ∷ [])), ground (arith, h.1, e))

  select-IsWithin :
      (fixed : ℕ) (r : KnowledgeResult) (s : Selection)
      → IsWithin fixed b.max_total_prompt_tokens s
      → IsWithin fixed b.max_total_prompt_tokens (select w b r s)
  select-IsWithin fixed r s h =
      let text = excerpt w b r in
      let id = letter ∷ w.decimal (length s.citation_map + 1) in
      let t = block w id r text in
      pick-IsWithin fixed b.max_total_prompt_tokens
        (is_empty text || is_duplicate w (w.normalized text) s.normalized_included)
        (exceeds w b (estimate_tokens t) s) (leave_out w b s) (include w b id r text t s) h
        (include-IsWithin fixed id text t r s h)

  select_all-IsWithin :
      (fixed : ℕ) (rs : List KnowledgeResult) (s : Selection)
      → IsWithin fixed b.max_total_prompt_tokens s
      → IsWithin fixed b.max_total_prompt_tokens (select_all w b rs s)
  select_all-IsWithin fixed [] s h = h
  select_all-IsWithin fixed (r ∷ rs) s h =
      select_all-IsWithin fixed rs (select w b r s) (select-IsWithin fixed r s h)

  -- A prompt is built that has evidence and that, with the reserved output, is in the budget.
  abbrev pub IsBuiltWithin : Built → Type 0
  IsBuiltWithin result =
      (p : PromptBuildResult) × (result ≡ built p)
      × (is_empty p.citation_map ≡ false)
      × (p.estimated_token_count + b.output_token_reservation ≤ b.max_total_prompt_tokens)

  finish-cases :
      (user : Text) (s : Selection)
      → IsWithin (fixed_tokens w b user) b.max_total_prompt_tokens s
      → (finish w b user s ≡ no_evidence_fits) ⊎ IsBuiltWithin (finish w b user s)
  finish-cases user s h = elim (Bool-cases (is_empty s.citation_map)) [
    | inl e ↦ inl (rw e refl)
    | inr e ↦ inr (
        rw e (
          _,
          refl,
          e,
          omega (arith, h.0, h.1, content-le user w.answer_requirements s.evidence_blocks),
        ))
  ]

  -- Where the fixed texts and the reserved output reach the budget, `build` refuses the context for
  -- the policy; elsewhere it refuses it since no evidence fits, or it builds a prompt with evidence
  -- whose estimated tokens and the reserved output are together within the budget.
  pub build-cases :
      (question context : Text) (results : List KnowledgeResult)
      → ((build w b question results context ≡ policy_exceeds)
          × (b.max_total_prompt_tokens ≤ fixed_tokens w b (fixed_user w b question context)))
        ⊎ ((fixed_tokens w b (fixed_user w b question context) < b.max_total_prompt_tokens)
            × ((build w b question results context ≡ no_evidence_fits)
                ⊎ IsBuiltWithin (build w b question results context)))
  unfolding build
  build-cases question context results =
      let user = fixed_user w b question context in
      elim (Bool-cases (leb b.max_total_prompt_tokens (fixed_tokens w b user))) [
        | inl e ↦ inl (rw e refl, leb→le b.max_total_prompt_tokens (fixed_tokens w b user) e)
        | inr e ↦
            let below : fixed_tokens w b user < b.max_total_prompt_tokens = ground (arith, e) in
            inr (
              below,
              rw e (
                  finish-cases user (select_all w b results (start w b (fixed_tokens w b user))) (
                    select_all-IsWithin (fixed_tokens w b user) results
                      (start w b (fixed_tokens w b user)) (omega arith, omega (arith, below)))),
            )
      ]
