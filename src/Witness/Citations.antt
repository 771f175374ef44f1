-- ===== src/Witness/Citations.antt =====
-- Examples of the theorems on the citations of an answer, and tests of the scanner: 120 is `x`.
use peka_saas.Common.{
  ℕ, ◌+◌, ◌≡◌, refl, none, List, [], ◌∷◌, if◌then◌else◌, map, ◌≤◌, ◌<◌, ◌⊎◌, some,
}
use peka_saas.Citations.Scan.{Text, find_all}
use peka_saas.Citations.Validator.{
  KnowledgeResult, same, citation_ids, validate_citations, valid, invalid,
  citation_validation_error,
}
use peka_saas.Citations.Reference.{firsts, every, is_known, citations_of, validate_citations_lem}
use peka_saas.Citations.Prompt.{
  PromptTexts, PromptBuilder, prompt_builder, fixed_tokens, fixed_user, build, Built, built,
  policy_exceeds, no_evidence_fits,
}
use peka_saas.Citations.Budget.{IsBuiltWithin, build-cases}
use peka_saas.Citations.Rendered.{Piece, id_of, rendered, citation_ids-rendered}

-- The markers of 2, 1 and 2, each of the first two after an `x`.
abbrev pieces : List Piece
pieces = (120 ∷ [], 50 ∷ []) ∷ (120 ∷ [], 49 ∷ []) ∷ ([], 50 ∷ []) ∷ []

abbrev answer : Text
answer = rendered pieces (120 ∷ [])

abbrev first_id : Text
first_id = 67 ∷ 49 ∷ []

abbrev second_id : Text
second_id = 67 ∷ 50 ∷ []

abbrev knowledge : ℕ → KnowledgeResult
knowledge n = record {
  source_type = 1;
  text = n;
  score = 9;
  document_id = 2;
  version_id = 3;
  chunk_id = n;
  title = 4;
  citation = record {
    page_number = some 5;
    sheet_name = none;
    row_start = none;
    row_end = none;
    section_title = none;
  };
  metadata = record {
    document_type = none;
    source_system = none;
    source_id = none;
    ingested_at = none;
    revision = none;
    sensitive_content_redacted = none;
    redaction_categories = none;
  };
}

abbrev both : List (Text × KnowledgeResult)
both = (first_id, knowledge 1) ∷ (second_id, knowledge 2) ∷ []

-- The number 0 is none, a marker has to be closed, and one may stand in brackets.
test_zero : find_all 0 (91 ∷ 67 ∷ 48 ∷ 93 ∷ []) ≡ []
test_zero = refl

test_open : find_all 0 (91 ∷ 67 ∷ 49 ∷ []) ≡ []
test_open = refl

test_nested : find_all 0 (91 ∷ 91 ∷ 67 ∷ 49 ∷ 50 ∷ 93 ∷ 93 ∷ []) ≡ (67 ∷ 49 ∷ 50 ∷ []) ∷ []
test_nested = refl

test_ids : firsts (find_all 0 answer) ≡ second_id ∷ first_id ∷ []
test_ids = refl

citation_ids-rendered_example : citation_ids answer ≡ firsts (map id_of pieces)
citation_ids-rendered_example =
    citation_ids-rendered pieces (120 ∷ [])
      (((refl, tt), (refl, tt)), (((refl, tt), (refl, tt)), ((tt, (refl, tt)), tt))) (refl, tt)

validate_citations_lem_example : validate_citations answer both ≡ (
    if every (is_known both) (find_all 0 answer)
    then valid (citations_of both (firsts (find_all 0 answer)))
    else invalid citation_validation_error)
validate_citations_lem_example = validate_citations_lem answer both

abbrev texts : PromptTexts
texts = record {
  text_of = λ n. n ∷ [];
  strip = λ t. t;
  normalized = λ t. t;
  decimal = λ n. (48 + n) ∷ [];
  is_close = same;
  system_policy = 120 ∷ [];
  prior_intro = 120 ∷ [];
  blank_line = 10 ∷ 10 ∷ [];
  question_intro = 120 ∷ [];
  evidence_intro = 120 ∷ [];
  begin_evidence = 120 ∷ [];
  dashes = 45 ∷ [];
  source = 120 ∷ [];
  section = 120 ∷ [];
  page = 120 ∷ [];
  sheet = 120 ∷ [];
  rows = 120 ∷ [];
  dash = 45 ∷ [];
  end_evidence = 120 ∷ [];
  answer_requirements = 120 ∷ [];
}

-- The first block takes the evidence that the budget leaves.
abbrev builder : PromptBuilder
builder = prompt_builder 20 8 100 none (some 17)

abbrev results : List KnowledgeResult
results = knowledge 1 ∷ knowledge 1 ∷ knowledge 2 ∷ []

abbrev ids_of : Built → List Text
ids_of (built p) = p.included_evidence_ids
ids_of policy_exceeds = []
ids_of no_evidence_fits = []

test_included : ids_of (build texts builder first_id results []) ≡ first_id ∷ []
unfolding build
test_included = refl

build-cases_example :
    ((build texts builder first_id results [] ≡ policy_exceeds)
      × (builder.max_total_prompt_tokens
          ≤ fixed_tokens texts builder (fixed_user texts builder first_id [])))
    ⊎ ((fixed_tokens texts builder (fixed_user texts builder first_id [])
          < builder.max_total_prompt_tokens)
        × ((build texts builder first_id results [] ≡ no_evidence_fits)
            ⊎ IsBuiltWithin texts builder (build texts builder first_id results [])))
build-cases_example = build-cases texts builder first_id [] results
