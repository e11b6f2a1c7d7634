-- ===== src/Evaluation/Evaluators.antt =====
-- The evaluators of packages/shared/python/sentinelrag_shared/evaluation/evaluators.py: the scores
-- as exact fractions, before they are rounded to four places. `findall` is the match of `\w+`,
-- `lower` is Python's `str.lower`; a set is a list without duplicates.
pub mod Sets
pub mod Bounds
use sentinal_rag.Base.{
  leb, if◌then◌else◌, length, is_nil, keep_if, any, ℕ, ◌+◌, ◌-◌, ◌*◌, Bool, ◌&&◌, ◌||◌, not, Option,
  none, some, List, [], ◌∷◌, ◌++◌, map,
}
use sentinal_rag.Base.Dict.{nat_eq}
use sentinal_rag.Base.Text.{Text, text_beq, text_eq, starts_with, strip, join}

pub record Frac : Type 0 where
  pub num : ℕ
  pub den : ℕ

abbrev pub zero_frac : Frac
zero_frac = record { num = 0; den = 1 }

abbrev pub one_frac : Frac
one_frac = record { num = 1; den = 1 }

pub record Case : Type 0 where
  pub input_query : Text
  pub expected_answer : Option Text
  pub expected_citation_chunk_ids : List Text
  pub must_include : List Text
  pub must_not_include : List Text

-- A retrieved chunk: its id, if it has one, and its content.
pub record Context : Type 0 where
  pub answer_text : Text
  pub retrieved_chunks : List (Option Text × Text)
  pub cited_chunk_ids : List Text
  pub cited_quoted_texts : List Text

abbrev pub has : List Text → Text → Bool
has xs t = any (text_beq t) xs

-- `{x for x in xs}`
unfoldable pub as_set : List Text → List Text
as_set [] = []
as_set (x ∷ xs) = let rest = as_set xs in if has rest x then rest else x ∷ rest

-- `a & b`, and the size of `a | b`
abbrev pub both : List Text → List Text → List Text
both a b = keep_if (has b) a

abbrev pub union_size : List Text → List Text → ℕ
union_size a b = length a + length (keep_if (λ t. not (has a t)) b)

-- `_jaccard`
unfoldable pub jaccard : List Text → List Text → Frac
jaccard a b =
    if is_nil a && is_nil b
    then one_frac
    else if is_nil a || is_nil b
    then zero_frac
    else record { num = length (both a b); den = union_size a b }

-- `sum(fs)`, and `sum(fs) / len(fs)`
unfoldable pub sum : List Frac → Frac
sum [] = zero_frac
sum (f ∷ fs) = let g = sum fs in record { num = f.num * g.den + g.num * f.den; den = f.den * g.den }

unfoldable pub mean : List Frac → Frac
mean fs = record { num = (sum fs).num; den = (sum fs).den * length fs }

-- `needle in hay`
unfoldable pub contains : Text → Text → Bool
contains needle [] = is_nil needle
contains needle (c ∷ hay) = starts_with needle (c ∷ hay) || contains needle hay

module _ (findall : Text → List Text) (lower : Text → Text) where
  -- `_tokens`
  unfoldable pub tokens : Text → List Text
  tokens t = as_set (map lower (keep_if (λ w. leb 3 (length w)) (findall t)))

  -- The loop over the chunks of `ContextRelevanceEvaluator.evaluate`.
  unfoldable pub overlaps : List Text → List (Option Text × Text) → List Frac
  overlaps query_tokens [] = []
  overlaps query_tokens ((id, content) ∷ chunks) =
      let rest = overlaps query_tokens chunks in
      if is_nil content then rest else jaccard query_tokens (tokens content) ∷ rest

  -- `ContextRelevanceEvaluator.evaluate`
  unfoldable pub context_relevance : Case → Context → Option Frac
  context_relevance case c =
      let query_tokens = tokens case.input_query in
      let per_chunk = overlaps query_tokens c.retrieved_chunks in
      if is_nil c.retrieved_chunks
      then some zero_frac
      else if is_nil query_tokens
      then none
      else if is_nil per_chunk
      then some zero_frac
      else some (mean per_chunk)

  -- The tokens of all chunks.
  unfoldable pub context_tokens : List (Option Text × Text) → List Text
  context_tokens [] = []
  context_tokens ((id, content) ∷ chunks) = as_set (tokens content ++ context_tokens chunks)

  -- `FaithfulnessEvaluator.evaluate`
  unfoldable pub faithfulness : Context → Option Frac
  faithfulness c =
      let answer_tokens = tokens c.answer_text in
      let ctx_tokens = context_tokens c.retrieved_chunks in
      if is_nil (strip c.answer_text)
      then none
      else if is_nil answer_tokens
      then none
      else if is_nil ctx_tokens
      then some zero_frac
      else some
          (record { num = length (both answer_tokens ctx_tokens); den = length answer_tokens })

  -- `sum(1 for s in xs if s in answer_lower)`
  abbrev pub hits : Text → List Text → ℕ
  hits answer_lower xs = length (keep_if (λ s. contains (lower s) answer_lower) xs)

  -- The three components of `AnswerCorrectnessEvaluator.evaluate`.
  abbrev pub similarity : Option Text → Text → List Frac
  similarity none answer = []
  similarity (some expected) answer =
      if is_nil expected then [] else jaccard (tokens expected) (tokens answer) ∷ []

  abbrev pub included : List Text → Text → List Frac
  included must answer_lower =
      if is_nil must then [] else record { num = hits answer_lower must; den = length must } ∷ []

  abbrev pub excluded : List Text → Text → List Frac
  excluded must_not answer_lower =
      if is_nil must_not
      then []
      else record { num = length must_not - hits answer_lower must_not; den = length must_not } ∷ []

  -- `AnswerCorrectnessEvaluator.evaluate`
  unfoldable pub answer_correctness : Case → Context → Option Frac
  answer_correctness case c =
      let answer_lower = lower c.answer_text in
      let component_scores =
        similarity case.expected_answer c.answer_text
        ++ included case.must_include answer_lower
        ++ excluded case.must_not_include answer_lower in
      if is_nil component_scores then none else some (mean component_scores)

  -- `sum(1 for quote in xs if not quote or quote.lower() in retrieved_text)`
  abbrev pub supported : Text → List Text → ℕ
  supported retrieved_text xs =
      length (keep_if (λ s. is_nil s || contains (lower s) retrieved_text) xs)

  -- `(a + b) / 2`
  abbrev pub half_sum : Frac → Frac → Frac
  half_sum a b = mean (a ∷ b ∷ [])

  abbrev pub ids_of : List (Option Text × Text) → List Text
  ids_of [] = []
  ids_of ((none, content) ∷ chunks) = ids_of chunks
  ids_of ((some id, content) ∷ chunks) = id ∷ ids_of chunks

  -- `CitationAccuracyEvaluator.evaluate`
  unfoldable pub citation_accuracy : Case → Context → Option Frac
  citation_accuracy case c =
      let expected = as_set case.expected_citation_chunk_ids in
      let cited = as_set c.cited_chunk_ids in
      let retrieved = as_set (ids_of c.retrieved_chunks) in
      let found = length (both expected (both cited retrieved)) in
      let recall : Frac = record { num = found; den = length expected } in
      let precision : Frac =
        if is_nil cited then zero_frac else record { num = found; den = length cited } in
      let retrieved_text = join (10 ∷ []) (map (λ p. lower p.1) c.retrieved_chunks) in
      let score = half_sum recall precision in
      if is_nil case.expected_citation_chunk_ids
      then none
      else if is_nil c.cited_quoted_texts || is_nil c.retrieved_chunks
      then some score
      else some (
          half_sum score (record {
            num = supported retrieved_text c.cited_quoted_texts;
            den = length c.cited_quoted_texts;
          }))
