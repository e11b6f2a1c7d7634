-- ===== src/Retrieval/InProcess/Laws.antt =====
-- That retrieval returns, in each mode, only what the user may read.
use sentinal_rag.Base.{
  le→ltb, Bool-cases, length, take, All, length-take, All-take, ℕ, suc, ◌≤◌, String, ◌≡◌, refl, sym,
  subst, ap, ◌∙◌, inl, inr, true, none, some, List, [], ◌∷◌, arith, str_eq,
}
use sentinal_rag.Base.Dict.{nat_eq, string_eq}
use sentinal_rag.Retrieval.{Scores, RetrievalStage, Candidate}
use sentinal_rag.Retrieval.AccessFilter.{AuthContext, Tables}
use sentinal_rag.Retrieval.AccessFilter.Laws.{MayRead}
use sentinal_rag.Retrieval.Fusion.Laws.{NumberedFrom, SameChunk, merge_with_rrf-IsFused}
use sentinal_rag.Retrieval.Fusion.Scored.{are_ranked}
use sentinal_rag.Retrieval.Rerank.{restage, restage_candidates}
use sentinal_rag.Retrieval.Search.{
  Database, returned, EmbeddingResult, Embedder, precomputed, dim_to_column, keyword_search,
  vector_search,
}
use sentinal_rag.Retrieval.Search.Laws.{
  IsSearchResult, keyword_search-IsSearchResult, vector_search-IsSearchResult,
}
use sentinal_rag.Retrieval.InProcess.{
  Arguments, HybridRetrievalResult, counts_of, merge_arms, hybrid_retrieve, retrieve_embedded,
  retrieve,
}

NumberedFrom-are_ranked :
    {S : Type 0} (n : ℕ) (cs : List (Candidate S))
    → 1 ≤ n
    → NumberedFrom n cs
    → are_ranked cs ≡ true
NumberedFrom-are_ranked n [] p h = refl
NumberedFrom-are_ranked n (c ∷ cs) p h =
    ground (arith, h.0, NumberedFrom-are_ranked (suc n) cs (omega arith) h.1)

restage-NumberedFrom :
    {S : Type 0} (stage : RetrievalStage) (n : ℕ) (cs : List (Candidate S))
    → NumberedFrom n (restage stage n cs)
unfolding restage
restage-NumberedFrom stage n [] = tt
restage-NumberedFrom stage n (c ∷ cs) = (refl, restage-NumberedFrom stage (suc n) cs)

length-restage :
    {S : Type 0} (stage : RetrievalStage) (n : ℕ) (cs : List (Candidate S))
    → length (restage stage n cs) ≡ length cs
unfolding restage
length-restage stage n [] = refl
length-restage stage n (c ∷ cs) = ap suc (length-restage stage (suc n) cs)

restage-All :
    {S : Type 0} (P : ℕ → Type 0) (stage : RetrievalStage) (n : ℕ) (cs : List (Candidate S))
    → All (λ c. P c.document_id) cs
    → All (λ c. P c.document_id) (restage stage n cs)
unfolding restage
restage-All P stage n [] h = tt
restage-All P stage n (c ∷ cs) h = (h.0, restage-All P stage (suc n) cs h.1)

SameChunk-All :
    {S : Type 0} (P : ℕ → Type 0) (out : List (Candidate S))
    → All (λ o. (c : Candidate S) × P c.document_id × SameChunk o c) out
    → All (λ c. P c.document_id) out
SameChunk-All P [] h = tt
SameChunk-All P (o ∷ out) h = (subst P (sym h.0.2.1) h.0.1, SameChunk-All P out h.1)

-- What a retrieval promises: every candidate of the three lists is of a document that the user may
-- read within the requested collections, and the merged list has at most `top_k` candidates,
-- ranked 1, 2, …
abbrev pub IsRetrieval :
    {S : Type 0} → AuthContext → Tables → List ℕ → ℕ → HybridRetrievalResult S → Type 0
IsRetrieval auth t ids top_k r =
    All (λ c. MayRead auth t 1 ids c.document_id) r.bm25_candidates
    × All (λ c. MayRead auth t 1 ids c.document_id) r.vector_candidates
    × IsSearchResult auth t ids top_k r.merged_candidates

module _ {S : Scores} {Vec : Type 0} (db : Database S Vec) (auth : AuthContext)
    (a : Arguments) where
  abbrev ReadableDoc : ℕ → Type 0
  ReadableDoc = MayRead auth db.tables 1 a.collection_ids

  restage-IsSearchResult :
      (k : ℕ) (cs : List (Candidate S.Score))
      → All (λ c. ReadableDoc c.document_id) cs
      → IsSearchResult auth db.tables a.collection_ids k
          (restage_candidates (take k cs) RetrievalStage.hybrid_merge)
  unfolding restage_candidates
  restage-IsSearchResult k cs h = (
    omega (arith, length-restage RetrievalStage.hybrid_merge 1 (take k cs), length-take k cs),
    restage-NumberedFrom RetrievalStage.hybrid_merge 1 (take k cs),
    restage-All ReadableDoc RetrievalStage.hybrid_merge 1 (take k cs) (All-take _ k cs h),
  )

  merge_arms-IsRetrieval :
      (rrf_k : ℕ) (bs vs : List (Candidate S.Score))
      → 1 ≤ rrf_k
      → NumberedFrom 1 bs
      → NumberedFrom 1 vs
      → All (λ c. ReadableDoc c.document_id) bs
      → All (λ c. ReadableDoc c.document_id) vs
      → (r : HybridRetrievalResult S.Score) × (merge_arms db rrf_k a.top_k_hybrid bs vs
          ≡ returned r)
        × IsRetrieval auth db.tables a.collection_ids a.top_k_hybrid r
  unfolding merge_arms
  merge_arms-IsRetrieval rrf_k bs vs k nb nv hb hv =
      let (out, run, fused) =
        merge_with_rrf-IsFused S (λ c. ReadableDoc c.document_id) bs vs a.top_k_hybrid rrf_k k
          (NumberedFrom-are_ranked 1 bs (omega arith) nb)
          (NumberedFrom-are_ranked 1 vs (omega arith) nv) hb hv in
      (
        record {
          bm25_candidates = bs;
          vector_candidates = vs;
          merged_candidates = out;
          metadata = counts_of rrf_k (length bs) (length vs) (length out);
          embedding_usage = none;
        },
        rw run refl,
        (hb, hv, (fused.0, fused.1, SameChunk-All ReadableDoc out fused.4)),
      )

  precomputed-embed :
      (embedder : Embedder Vec) (r : EmbeddingResult Vec)
      → (precomputed embedder r).embed (a.query ∷ []) ≡ returned r
  unfolding precomputed
  precomputed-embed embedder r = refl

  precomputed-dimension :
      (embedder : Embedder Vec) (r : EmbeddingResult Vec)
      → (precomputed embedder r).dimension ≡ embedder.dimension
  unfolding precomputed
  precomputed-dimension embedder r = refl

  module _ (embedder : Embedder Vec) (column : String) (embedding : EmbeddingResult Vec)
      (dim : dim_to_column embedder.dimension ≡ some column) where
    searched :
        (top_k : ℕ)
        → (out : List (Candidate S.Score)) × (vector_search db auth a.collection_ids
              (precomputed embedder embedding)
              a.query
              top_k
            ≡ returned out)
          × IsSearchResult auth db.tables a.collection_ids top_k out
    searched top_k =
        vector_search-IsSearchResult db auth a.collection_ids (precomputed embedder embedding)
          a.query column top_k embedding
          (ap dim_to_column (precomputed-dimension embedder embedding) ∙ dim)
          (precomputed-embed embedder embedding)

    hybrid_retrieve-IsRetrieval :
        (rrf_k : ℕ)
        → 1 ≤ rrf_k
        → (r : HybridRetrievalResult S.Score) × (hybrid_retrieve db rrf_k
              (precomputed embedder embedding)
              auth
              a
            ≡ returned r)
          × IsRetrieval auth db.tables a.collection_ids a.top_k_hybrid r
    unfolding hybrid_retrieve
    hybrid_retrieve-IsRetrieval rrf_k k =
        let bs = keyword_search db auth a.collection_ids a.query a.top_k_bm25 in
        let found = keyword_search-IsSearchResult db auth a.collection_ids a.query a.top_k_bm25 in
        let (vs, run, near) = searched a.top_k_vector in
        let (r, arms, h) = merge_arms-IsRetrieval rrf_k bs vs k found.1 near.1 found.2 near.2 in
        (r, rw (le→ltb rrf_k 1 k, run) arms, h)

    retrieve_embedded-IsRetrieval :
        (r : HybridRetrievalResult S.Score) × (retrieve_embedded db embedder auth a embedding
          ≡ returned r)
        × IsRetrieval auth db.tables a.collection_ids a.top_k_hybrid r
    unfolding retrieve_embedded
    retrieve_embedded-IsRetrieval = elim (Bool-cases (str_eq a.mode "vector")) [
      | inl e ↦
          let (vs, run, near) = searched a.top_k_vector in
          (
            record {
              bm25_candidates = [];
              vector_candidates = vs;
              merged_candidates =
                  restage_candidates (take a.top_k_hybrid vs) RetrievalStage.hybrid_merge;
              metadata = [];
              embedding_usage = embedding.usage;
            },
            rw (e, run) refl,
            (tt, near.2, restage-IsSearchResult a.top_k_hybrid vs near.2),
          )
      | inr e ↦
          let (r, run, h) = hybrid_retrieve-IsRetrieval 60 (omega arith) in
          (record r { embedding_usage = embedding.usage }, rw (e, run) refl, h)
    ]

  -- With an embedder of a supported dimension that embeds the query, retrieval in process returns a
  -- result in every mode: each candidate of its three lists is of a document that the user may read
  -- within the requested collections, and the merged list has at most `top_k_hybrid` candidates,
  -- ranked 1, 2, …
  pub retrieve-IsRetrieval :
      (embedder : Embedder Vec) (column : String) (embedding : EmbeddingResult Vec)
      → dim_to_column embedder.dimension ≡ some column
      → embedder.embed (a.query ∷ []) ≡ returned embedding
      → (r : HybridRetrievalResult S.Score) × (retrieve db embedder auth a ≡ returned r)
        × IsRetrieval auth db.tables a.collection_ids a.top_k_hybrid r
  unfolding retrieve
  retrieve-IsRetrieval embedder column embedding dim run =
      let bs = keyword_search db auth a.collection_ids a.query a.top_k_bm25 in
      let found = keyword_search-IsSearchResult db auth a.collection_ids a.query a.top_k_bm25 in
      elim (Bool-cases (str_eq a.mode "bm25")) [
        | inl e ↦ (
          record {
            bm25_candidates = bs;
            vector_candidates = [];
            merged_candidates =
                restage_candidates (take a.top_k_hybrid bs) RetrievalStage.hybrid_merge;
            metadata = [];
            embedding_usage = none;
          },
          rw e refl,
          (found.2, tt, restage-IsSearchResult a.top_k_hybrid bs found.2),
        )
        | inr e ↦
            let (r, done, h) = retrieve_embedded-IsRetrieval embedder column embedding dim in
            (r, rw (e, run) done, h)
      ]
