-- ===== src/Citations/Prompt.antt =====
-- The selection of evidence for a prompt: backend/app/services/prompt_builder.py.
use peka_saas.Common.{
  ℕ, suc, zero, ◌+◌, ◌/◌, Bool, false, Option, none, some, List, [], ◌∷◌, ◌++◌, ◌==◌, ◌&&◌, ◌||◌,
  is_empty, leb, ltb, length, min, max, map, if◌then◌else◌,
}
use peka_saas.Chunker.Text.{take}
use peka_saas.Citations.Scan.{Text, letter}
use peka_saas.Citations.Validator.{KnowledgeResult, same}

-- The text that a number of a result stands for, `strip()`, `_normalized_evidence`, `str` of an
-- integer, whether the ratio of SequenceMatcher is at least 0.96, and the fixed pieces of text, in
-- the order of the prompt.
pub record PromptTexts : Type 0 where
  pub text_of : ℕ → Text
  pub strip : Text → Text
  pub normalized : Text → Text
  pub decimal : ℕ → Text
  pub is_close : Text → Text → Bool
  pub system_policy : Text
  pub prior_intro : Text
  pub blank_line : Text
  pub question_intro : Text
  pub evidence_intro : Text
  pub begin_evidence : Text
  pub dashes : Text
  pub source : Text
  pub section : Text
  pub page : Text
  pub sheet : Text
  pub rows : Text
  pub dash : Text
  pub end_evidence : Text
  pub answer_requirements : Text

pub record PromptBuilder : Type 0 where
  pub output_token_reservation : ℕ
  pub max_evidence_characters_per_chunk : ℕ
  pub max_evidence_tokens : ℕ
  pub max_total_prompt_tokens : ℕ

-- `value or default` on integers, of which 0 is false
abbrev pub nonzero_or : Option ℕ → ℕ → ℕ
nonzero_or none d = d
nonzero_or (some zero) d = d
nonzero_or (some (suc n)) d = suc n

-- `PromptBuilder(…)`
abbrev pub prompt_builder : ℕ → ℕ → ℕ → Option ℕ → Option ℕ → PromptBuilder
prompt_builder context_window reservation characters evidence total = record {
  output_token_reservation = reservation;
  max_evidence_characters_per_chunk = characters;
  max_evidence_tokens = nonzero_or evidence context_window;
  max_total_prompt_tokens = min context_window (nonzero_or total context_window);
}

-- `max(1, math.ceil(len(value) / 4))`
abbrev pub estimate_tokens : Text → ℕ
estimate_tokens value = max 1 ((length value + 3) / 4)

abbrev pub concatenated : List Text → Text
concatenated [] = []
concatenated (t ∷ ts) = t ++ concatenated ts

-- `"\n".join(lines)`
abbrev pub join_lines : List Text → Text
join_lines [] = []
join_lines (l ∷ []) = l
join_lines (l ∷ m ∷ ls) = l ++ 10 ∷ join_lines (m ∷ ls)

-- `citation_map[citation_id] = result`
abbrev pub put :
    Text → KnowledgeResult → List (Text × KnowledgeResult) → List (Text × KnowledgeResult)
put id r [] = (id, r) ∷ []
put id r (e ∷ es) = let rest = put id r es in if same id e.0 then (id, r) ∷ es else e ∷ rest

-- The variables of the loop of `build`.
pub record Selection : Type 0 where
  pub evidence_blocks : List Text
  pub citation_map : List (Text × KnowledgeResult)
  pub normalized_included : List Text
  pub used_tokens : ℕ
  pub evidence_tokens : ℕ
  pub excluded : ℕ

pub record PromptBuildResult : Type 0 where
  pub system_content : Text
  pub user_content : Text
  pub citation_map : List (Text × KnowledgeResult)
  pub included_evidence_ids : List Text
  pub excluded_evidence_count : ℕ
  pub estimated_token_count : ℕ

-- The result, and PromptContextExceeded for the policy and for the evidence.
pub data Built : Type 0 where
  built : PromptBuildResult → Built
  policy_exceeds : Built
  no_evidence_fits : Built

module _ (w : PromptTexts) where
  abbrev pub is_duplicate : Text → List Text → Bool
  is_duplicate normal [] = false
  is_duplicate normal (e ∷ es) =
      same normal e
      || (leb 100 (min (length normal) (length e)) && w.is_close normal e)
      || is_duplicate normal es

  -- A line for a text that is there and not empty, and one for a number that is there.
  abbrev pub text_line : Text → Option ℕ → List Text
  text_line label none = []
  text_line label (some t) = if is_empty (w.text_of t) then [] else (label ++ w.text_of t) ∷ []

  abbrev pub number_line : Text → Option ℕ → List Text
  number_line label none = []
  number_line label (some n) = (label ++ w.decimal n) ∷ []

  abbrev pub row_line : Option ℕ → Option ℕ → List Text
  row_line none last = []
  row_line (some first) none = (w.rows ++ w.decimal first) ∷ []
  row_line (some first) (some last) =
      if last == first
      then (w.rows ++ w.decimal first) ∷ []
      else (w.rows ++ w.decimal first ++ w.dash ++ w.decimal last) ∷ []

  abbrev pub source_lines : KnowledgeResult → List Text
  source_lines r =
      (w.source ++ w.text_of r.title)
      ∷ (text_line w.section r.citation.section_title
          ++ (number_line w.page r.citation.page_number
              ++ (text_line w.sheet r.citation.sheet_name
                  ++ row_line r.citation.row_start r.citation.row_end)))

  abbrev pub block : Text → KnowledgeResult → Text → Text
  block id r text = concatenated (
      w.begin_evidence
      ∷ id
      ∷ w.dashes
      ∷ join_lines (source_lines r)
      ∷ w.blank_line
      ∷ text
      ∷ w.end_evidence
      ∷ id
      ∷ w.dashes
      ∷ (10 ∷ [])
      ∷ [])

  module _ (b : PromptBuilder) where
    abbrev pub excerpt : KnowledgeResult → Text
    excerpt r = w.strip (take b.max_evidence_characters_per_chunk (w.text_of r.text))

    abbrev pub leave_out : Selection → Selection
    leave_out s = record s { excluded = s.excluded + 1 }

    abbrev pub exceeds : ℕ → Selection → Bool
    exceeds tokens s =
        ltb b.max_total_prompt_tokens (s.used_tokens + tokens)
        || ltb b.max_evidence_tokens (s.evidence_tokens + tokens)

    abbrev pub include : Text → KnowledgeResult → Text → Text → Selection → Selection
    include id r text t s = record {
      evidence_blocks = s.evidence_blocks ++ t ∷ [];
      citation_map = put id r s.citation_map;
      normalized_included = s.normalized_included ++ w.normalized text ∷ [];
      used_tokens = s.used_tokens + estimate_tokens t;
      evidence_tokens = s.evidence_tokens + estimate_tokens t;
      excluded = s.excluded;
    }

    -- A turn of the loop.
    abbrev pub select : KnowledgeResult → Selection → Selection
    select r s =
        let text = excerpt r in
        let id = letter ∷ w.decimal (length s.citation_map + 1) in
        let t = block id r text in
        if is_empty text || is_duplicate (w.normalized text) s.normalized_included
        then leave_out s
        else if exceeds (estimate_tokens t) s
        then leave_out s
        else include id r text t s

    abbrev pub select_all : List KnowledgeResult → Selection → Selection
    select_all [] s = s
    select_all (r ∷ rs) s = select_all rs (select r s)

    abbrev pub fixed_user : Text → Text → Text
    fixed_user question context =
        (if is_empty context then [] else w.prior_intro ++ context ++ w.blank_line)
        ++ (w.question_intro ++ question ++ w.evidence_intro)

    abbrev pub fixed_tokens : Text → ℕ
    fixed_tokens user =
        estimate_tokens w.system_policy
        + estimate_tokens user
        + estimate_tokens w.answer_requirements
        + b.output_token_reservation

    abbrev pub start : ℕ → Selection
    start tokens = record {
      evidence_blocks = [];
      citation_map = [];
      normalized_included = [];
      used_tokens = tokens;
      evidence_tokens = 0;
      excluded = 0;
    }

    abbrev pub finish : Text → Selection → Built
    finish user s =
        let content = user ++ (concatenated s.evidence_blocks ++ w.answer_requirements) in
        if is_empty s.citation_map
        then no_evidence_fits
        else built record {
          system_content = w.system_policy;
          user_content = content;
          citation_map = s.citation_map;
          included_evidence_ids = map (λ e. e.0) s.citation_map;
          excluded_evidence_count = s.excluded;
          estimated_token_count = estimate_tokens w.system_policy + estimate_tokens content;
        }

    unfoldable pub build : Text → List KnowledgeResult → Text → Built
    build question results context =
        let user = fixed_user question context in
        if leb b.max_total_prompt_tokens (fixed_tokens user)
        then policy_exceeds
        else finish user (select_all results (start (fixed_tokens user)))
