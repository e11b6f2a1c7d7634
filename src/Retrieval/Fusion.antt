-- ===== src/Retrieval/Fusion.antt =====
-- Reciprocal rank fusion, packages/shared/python/sentinelrag_shared/retrieval/hybrid.py. A rank
-- or a constant below 1 is 0 here.
pub mod Laws
pub mod Scored
pub mod Fused
use sentinal_rag.Base.{
  ltb, if◌then◌else◌, take, ℕ, suc, ◌+◌, Bool, Option, none, some, List, [], ◌∷◌,
}
use sentinal_rag.Base.Dict.{nat_eq, Dict, lookup, insert}
use sentinal_rag.Base.Keys.{values}
use sentinal_rag.Base.Sort.{sort_desc}
use sentinal_rag.Retrieval.{Scores, RetrievalStage, MetaValue, Candidate}

-- A value, or one of the `ValueError`s of the module.
pub data Merged (A : Type 0) : Type 0 where
  merged : A → Merged A
  bad_rrf_k : Merged A
  bad_rank : Merged A

abbrev pub bind : {A B : Type 0} → Merged A → (A → Merged B) → Merged B
bind (merged a) f = f a
bind bad_rrf_k f = bad_rrf_k
bind bad_rank f = bad_rank

-- A row of the dict `scored`.
pub record Entry (S : Type 0) : Type 0 where
  pub score : S
  pub cand : Candidate S
  pub bm25_rank : Option ℕ
  pub vector_rank : Option ℕ

-- `_validate_candidate_rank`
unfoldable pub validate_candidate_rank : {S : Type 0} → Candidate S → Merged Unit
validate_candidate_rank cand = if ltb cand.rank 1 then bad_rank else merged tt

module _ (S : Scores) (rrf_k : ℕ) where
  unfoldable pub bm25_entry : Candidate S.Score → Entry S.Score
  bm25_entry cand = record {
    score = S.reciprocal (rrf_k + cand.rank);
    cand = cand;
    bm25_rank = some cand.rank;
    vector_rank = none;
  }

  unfoldable pub vector_entry : Candidate S.Score → Option (Entry S.Score) → Entry S.Score
  vector_entry cand (some prev) = record {
    score = S.plus prev.score (S.reciprocal (rrf_k + cand.rank));
    cand = prev.cand;
    bm25_rank = prev.bm25_rank;
    vector_rank = some cand.rank;
  }
  vector_entry cand none = record {
    score = S.reciprocal (rrf_k + cand.rank);
    cand = cand;
    bm25_rank = none;
    vector_rank = some cand.rank;
  }

  -- The first loop.
  unfoldable pub add_bm25 :
      List (Candidate S.Score) → Dict ℕ (Entry S.Score) → Merged (Dict ℕ (Entry S.Score))
  unfolding validate_candidate_rank bm25_entry
  add_bm25 [] scored = merged scored
  add_bm25 (cand ∷ rest) scored =
      bind (validate_candidate_rank cand)
        (λ _. add_bm25 rest (insert cand.chunk_id (bm25_entry cand) scored))

  -- The second loop.
  unfoldable pub add_vector :
      List (Candidate S.Score) → Dict ℕ (Entry S.Score) → Merged (Dict ℕ (Entry S.Score))
  unfolding validate_candidate_rank vector_entry
  add_vector [] scored = merged scored
  add_vector (cand ∷ rest) scored = bind (validate_candidate_rank cand) (λ _.
      add_vector rest
        (insert cand.chunk_id (vector_entry cand (lookup cand.chunk_id scored)) scored))

-- The last loop, `enumerate(ranked[:top_k], start=1)`.
unfoldable pub to_candidates : {S : Type 0} → ℕ → List (Entry S) → List (Candidate S)
to_candidates new_rank [] = []
to_candidates new_rank (e ∷ rest) =
    record {
      chunk_id = e.cand.chunk_id;
      document_id = e.cand.document_id;
      content = e.cand.content;
      score = e.score;
      rank = new_rank;
      stage = RetrievalStage.hybrid_merge;
      page_number = e.cand.page_number;
      section_title = e.cand.section_title;
      metadata =
          ("bm25_rank", MetaValue.number e.bm25_rank)
          ∷ ("vector_rank", MetaValue.number e.vector_rank)
          ∷ [];
    }
    ∷ to_candidates (suc new_rank) rest

abbrev pub smaller_entry : (S : Scores) → Entry S.Score → Entry S.Score → Bool
smaller_entry S a b = S.smaller a.score b.score

unfoldable pub merge_with_rrf :
    (S : Scores)
    → List (Candidate S.Score)
    → List (Candidate S.Score)
    → ℕ
    → ℕ
    → Merged (List (Candidate S.Score))
unfolding add_bm25 add_vector to_candidates sort_desc
merge_with_rrf S bm25s vectors top_k rrf_k =
    if ltb rrf_k 1
    then bad_rrf_k
    else if ltb top_k 1
    then merged []
    else bind (bind (add_bm25 S rrf_k bm25s []) (add_vector S rrf_k vectors)) (λ scored.
      merged (to_candidates 1 (take top_k (sort_desc (smaller_entry S) (values scored)))))
