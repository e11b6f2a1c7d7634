-- ===== src/Retrieval/InProcess.antt =====
-- `InProcessRetrievalClient` of apps/api/app/services/rag/client.py, with `HybridRetriever.retrieve`
-- of packages/shared/python/sentinelrag_shared/retrieval/hybrid.py. `ef_search` tunes the index and
-- is left out here.
pub mod Laws
use sentinal_rag.Base.{
  ltb, if◌then◌else◌, length, take, ℕ, String, Option, none, some, List, [], ◌∷◌, str_eq,
}
use sentinal_rag.Base.Dict.{nat_eq, string_eq, Dict}
use sentinal_rag.Retrieval.{Scores, RetrievalStage, MetaValue, Candidate}
use sentinal_rag.Retrieval.AccessFilter.{AuthContext}
use sentinal_rag.Retrieval.Fusion.{Merged, merged, bad_rrf_k, bad_rank, merge_with_rrf}
use sentinal_rag.Retrieval.Rerank.{restage_candidates}
use sentinal_rag.Retrieval.Search.{
  Database, value_error, Outcome, returned, raised, and_then, UsageRecord, EmbeddingResult,
  Embedder, precomputed, keyword_search, vector_search,
}

-- The arguments of `retrieve`, less the identity.
pub record Arguments : Type 0 where
  pub query : String
  pub collection_ids : List ℕ
  pub mode : String
  pub top_k_bm25 : ℕ
  pub top_k_vector : ℕ
  pub top_k_hybrid : ℕ
  pub ef_search : Option ℕ

pub record HybridRetrievalResult (S : Type 0) : Type 0 where
  pub bm25_candidates : List (Candidate S)
  pub vector_candidates : List (Candidate S)
  pub merged_candidates : List (Candidate S)
  pub metadata : Dict String MetaValue
  pub embedding_usage : Option UsageRecord

-- The two errors of the fusion are `ValueError`s.
abbrev pub of_merged : {A : Type 0} → Merged A → Outcome A
of_merged (merged a) = returned a
of_merged bad_rrf_k = raised value_error
of_merged bad_rank = raised value_error

abbrev pub counts_of : ℕ → ℕ → ℕ → ℕ → Dict String MetaValue
counts_of rrf_k bm25s vectors all =
    ("rrf_k", MetaValue.number (some rrf_k))
    ∷ ("bm25_returned", MetaValue.number (some bm25s))
    ∷ ("vector_returned", MetaValue.number (some vectors))
    ∷ ("merged_returned", MetaValue.number (some all))
    ∷ []

module _ {S : Scores} {Vec : Type 0} (db : Database S Vec) where
  -- `HybridRetriever.retrieve` once the vector search has returned.
  unfoldable pub merge_arms :
      ℕ
      → ℕ
      → List (Candidate S.Score)
      → List (Candidate S.Score)
      → Outcome (HybridRetrievalResult S.Score)
  merge_arms rrf_k top_k bm25s vectors =
      and_then (of_merged (merge_with_rrf S bm25s vectors top_k rrf_k)) (λ all. returned (record {
        bm25_candidates = bm25s;
        vector_candidates = vectors;
        merged_candidates = all;
        metadata = counts_of rrf_k (length bm25s) (length vectors) (length all);
        embedding_usage = none;
      }))

  -- `HybridRetriever(…)` with its constant, and `retrieve`
  unfoldable pub hybrid_retrieve :
      ℕ → Embedder Vec → AuthContext → Arguments → Outcome (HybridRetrievalResult S.Score)
  hybrid_retrieve rrf_k embedder auth a =
      if ltb rrf_k 1
      then raised value_error
      else and_then (vector_search db auth a.collection_ids embedder a.query a.top_k_vector) (
          merge_arms rrf_k a.top_k_hybrid
            (keyword_search db auth a.collection_ids a.query a.top_k_bm25))

  -- The vector and the hybrid mode, once the query is embedded.
  unfoldable pub retrieve_embedded :
      Embedder Vec
      → AuthContext
      → Arguments
      → EmbeddingResult Vec
      → Outcome (HybridRetrievalResult S.Score)
  retrieve_embedded embedder auth a embedding =
      if str_eq a.mode "vector"
      then and_then
          (vector_search db auth a.collection_ids (precomputed embedder embedding) a.query
            a.top_k_vector)
          (λ vectors. returned (record {
            bm25_candidates = [];
            vector_candidates = vectors;
            merged_candidates =
                restage_candidates (take a.top_k_hybrid vectors) RetrievalStage.hybrid_merge;
            metadata = [];
            embedding_usage = embedding.usage;
          }))
      else and_then (hybrid_retrieve 60 (precomputed embedder embedding) auth a)
          (λ result. returned (record result { embedding_usage = embedding.usage }))

  -- `InProcessRetrievalClient.retrieve`
  unfoldable pub retrieve :
      Embedder Vec → AuthContext → Arguments → Outcome (HybridRetrievalResult S.Score)
  retrieve embedder auth a =
      if str_eq a.mode "bm25"
      then (let bm25s = keyword_search db auth a.collection_ids a.query a.top_k_bm25 in
          returned (record {
            bm25_candidates = bm25s;
            vector_candidates = [];
            merged_candidates =
                restage_candidates (take a.top_k_hybrid bm25s) RetrievalStage.hybrid_merge;
            metadata = [];
            embedding_usage = none;
          }))
      else and_then (embedder.embed (a.query ∷ [])) (retrieve_embedded embedder auth a)
