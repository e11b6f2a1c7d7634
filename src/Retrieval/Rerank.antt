-- ===== src/Retrieval/Rerank.antt =====
-- The rerank stage, apps/api/app/services/rag/stages/rerank.py (`_rerank`), with the rerankers of
-- packages/shared/python/sentinelrag_shared/llm/reranker.py: the no-op one, and the bge one whose
-- model is the function `score_texts`. Also `restage_candidates` of rag/_helpers.py. Usage records
-- are left out.
pub mod Laws
use sentinal_rag.Base.{
  ltb, if◌then◌else◌, length, take, get_elem?, is_nil, ℕ, zero, suc, min, String, Bool, true,
  Option, none, some, List, [], ◌∷◌, map,
}
use sentinal_rag.Base.Dict.{string_eq, insert}
use sentinal_rag.Base.Sort.{sort_desc}
use sentinal_rag.Retrieval.{Scores, RetrievalStage, MetaValue, Candidate}

pub record RerankCandidate : Type 0 where
  pub chunk_id : ℕ
  pub text : String

pub record RerankResult (S : Type 0) : Type 0 where
  pub indices : List ℕ
  pub scores : List S
  pub model_name : String

-- What a call comes to: a value, a `RerankerError`, or any other exception.
pub data Attempt (A : Type 0) : Type 0 where
  done : A → Attempt A
  reranker_error : Attempt A
  other_error : Attempt A

-- `rerank(query=…, candidates=…, top_k=…)`
abbrev pub Reranker : Type 0 → Type 0
Reranker S = String → List RerankCandidate → ℕ → Attempt (RerankResult S)

-- `range(n)` from `i` on
abbrev pub range_from : ℕ → ℕ → List ℕ
range_from i zero = []
range_from i (suc n) = i ∷ range_from (suc i) n

-- `enumerate(xs)` from `i` on
abbrev pub enumerate_from {ℓ} : {A : Type ℓ} → ℕ → List A → List (ℕ × A)
enumerate_from i [] = []
enumerate_from i (x ∷ xs) = (i, x) ∷ enumerate_from (suc i) xs

-- `NoOpReranker.rerank`; `score_at i` is `1.0 - i * 0.01`.
unfoldable pub noop : {S : Type 0} → (ℕ → S) → Reranker S
noop score_at query candidates top_k =
    let n = min top_k (length candidates) in
    done (record {
      indices = range_from 0 n;
      scores = map score_at (range_from 0 n);
      model_name = "noop";
    })

abbrev pub smaller_item : (S : Scores) → ℕ × S.Score → ℕ × S.Score → Bool
smaller_item S a b = S.smaller a.1 b.1

-- `BgeReranker.rerank`; loading the model or an unknown model raises a `RerankerError`, while what
-- the model itself raises is not caught.
unfoldable pub bge :
    (S : Scores) → String → (List (String × String) → Attempt (List S.Score)) → Reranker S.Score
unfolding sort_desc
bge S model_name score_texts query candidates top_k =
    if is_nil candidates
    then done (record { indices = []; scores = []; model_name = model_name })
    else elim (score_texts (map (λ c. (query, c.text)) candidates)) [
      | reranker_error ↦ reranker_error
      | other_error ↦ other_error
      | done scores ↦
          let kept = take top_k (sort_desc (smaller_item S) (enumerate_from 0 scores)) in
          done (record {
            indices = map (λ p. p.0) kept;
            scores = map (λ p. p.1) kept;
            model_name = model_name;
          })
    ]

-- The result of the stage, the `ValueError` of `zip(…, strict=True)`, the `IndexError`, or an
-- exception of the reranker.
pub data Reranked (S : Type 0) : Type 0 where
  reranked : List (Candidate S) → Reranked S
  length_mismatch : Reranked S
  index_error : Reranked S
  escaped : Reranked S

module _ {S : Type 0} where
  unfoldable pub restage : RetrievalStage → ℕ → List (Candidate S) → List (Candidate S)
  restage stage rank [] = []
  restage stage rank (c ∷ cs) =
      record c { rank = rank; stage = stage } ∷ restage stage (suc rank) cs

  unfoldable pub restage_candidates : List (Candidate S) → RetrievalStage → List (Candidate S)
  unfolding restage
  restage_candidates candidates stage = restage stage 1 candidates

  -- The candidates in their order, with a flag that tells why they were not reranked.
  unfoldable pub keep_order : String → ℕ → List (Candidate S) → List (Candidate S)
  keep_order key rank [] = []
  keep_order key rank (c ∷ cs) =
      record c {
        rank = rank;
        stage = RetrievalStage.rerank;
        metadata = insert key (MetaValue.flag true) c.metadata;
      }
      ∷ keep_order key (suc rank) cs

  -- The last loop.
  unfoldable pub apply_ranking : List (Candidate S) → String → ℕ → List ℕ → List S → Reranked S
  apply_ranking merged model rank [] [] = reranked []
  apply_ranking merged model rank [] (s ∷ scores) = length_mismatch
  apply_ranking merged model rank (i ∷ indices) [] = length_mismatch
  apply_ranking merged model rank (i ∷ indices) (s ∷ scores) =
      let rest = apply_ranking merged model (suc rank) indices scores in
      elim (get_elem? merged i) [
        | none ↦ index_error
        | some src ↦ elim rest [
          | reranked out ↦ reranked (
              record src {
                score = s;
                rank = rank;
                stage = RetrievalStage.rerank;
                metadata = insert "reranker_model" (MetaValue.name model) src.metadata;
              }
              ∷ out)
          | e ↦ e
        ]
      ]

  abbrev pub rerank_inputs : List (Candidate S) → List RerankCandidate
  rerank_inputs merged = map (λ c. record { chunk_id = c.chunk_id; text = c.content }) merged

  unfoldable pub rerank_merged : Reranker S → String → List (Candidate S) → ℕ → Reranked S
  unfolding keep_order apply_ranking
  rerank_merged reranker query merged top_k =
      if is_nil merged
      then reranked []
      else if ltb top_k 1
      then reranked (keep_order "rerank_disabled" 1 merged)
      else elim (reranker query (rerank_inputs merged) top_k) [
        | other_error ↦ escaped
        | reranker_error ↦ reranked (keep_order "rerank_degraded" 1 (take top_k merged))
        | done result ↦ apply_ranking merged result.model_name 1 result.indices result.scores
      ]
