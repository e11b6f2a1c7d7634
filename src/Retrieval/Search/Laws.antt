-- ===== src/Retrieval/Search/Laws.antt =====
-- What both searches return.
use sentinal_rag.Base.{
  ltb, Bool-cases, Option-cases, &&-split, length, take, All, length-take, length-map, All-take, ℕ,
  suc, ◌≤◌, String, ◌≡◌, refl, ap, inl, inr, ◌&&◌, ◌||◌, some, List, [], ◌∷◌, map, arith,
}
use sentinal_rag.Base.Sort.{sort_desc, sort_desc-All}
use sentinal_rag.Retrieval.{Scores, RetrievalStage, Candidate}
use sentinal_rag.Retrieval.AccessFilter.{AuthContext, Tables}
use sentinal_rag.Retrieval.AccessFilter.Laws.{MayRead, build_iff}
use sentinal_rag.Retrieval.Fusion.Laws.{NumberedFrom}
use sentinal_rag.Retrieval.Search.{
  ChunkRow, Database, returned, EmbeddingResult, Embedder, is_blank, dim_to_column, from_rows,
  admits, keyword_rows, keyword_search, vector_rows, nearest, vector_search,
}

from_rows-All :
    {S : Type 0} (P : ℕ → Type 0) (stage : RetrievalStage) (rank : ℕ) (rows : List (ChunkRow × S))
    → All (λ p. P p.0.document_id) rows
    → All (λ c. P c.document_id) (from_rows stage rank rows)
unfolding from_rows
from_rows-All P stage rank [] h = tt
from_rows-All P stage rank ((row, score) ∷ rows) h =
    (h.0, from_rows-All P stage (suc rank) rows h.1)

pub from_rows-NumberedFrom :
    {S : Type 0} (stage : RetrievalStage) (rank : ℕ) (rows : List (ChunkRow × S))
    → NumberedFrom rank (from_rows stage rank rows)
unfolding from_rows
from_rows-NumberedFrom stage rank [] = tt
from_rows-NumberedFrom stage rank ((row, score) ∷ rows) =
    (refl, from_rows-NumberedFrom stage (suc rank) rows)

pub length-from_rows :
    {S : Type 0} (stage : RetrievalStage) (rank : ℕ) (rows : List (ChunkRow × S))
    → length (from_rows stage rank rows) ≡ length rows
unfolding from_rows
length-from_rows stage rank [] = refl
length-from_rows stage rank ((row, score) ∷ rows) = ap suc (length-from_rows stage (suc rank) rows)

-- A search's result: at most `top_k` candidates ranked 1, 2, …, each of a document that the user
-- may read within the requested collections.
abbrev pub IsSearchResult :
    {S : Type 0} → AuthContext → Tables → List ℕ → ℕ → List (Candidate S) → Type 0
IsSearchResult auth t ids top_k out =
    (length out ≤ top_k) × NumberedFrom 1 out × All (λ c. MayRead auth t 1 ids c.document_id) out

module _ {S : Scores} {Vec : Type 0} (db : Database S Vec) (auth : AuthContext) (ids : List ℕ) where
  abbrev Readable : ChunkRow × S.Score → Type 0
  Readable p = MayRead auth db.tables 1 ids p.0.document_id

  keyword_rows-Readable :
      (query : String) (rows : List ChunkRow) → All Readable (keyword_rows db auth ids query rows)
  unfolding keyword_rows
  keyword_rows-Readable query [] = tt
  keyword_rows-Readable query (row ∷ rows) =
      elim (Bool-cases (db.matches query row && admits db auth ids row)) [
        | inl e ↦ rw e (
          (build_iff auth db.tables 1 ids row.document_id).0 (&&-split _ _ e).1,
          keyword_rows-Readable query rows,
        )
        | inr e ↦ rw e (keyword_rows-Readable query rows)
      ]

  -- The keyword search returns at most `top_k` candidates, ranked 1, 2, …, each of a document
  -- that the user may read within the requested collections.
  pub keyword_search-IsSearchResult :
      (query : String) (top_k : ℕ)
      → IsSearchResult auth db.tables ids top_k (keyword_search db auth ids query top_k)
  unfolding keyword_search
  keyword_search-IsSearchResult query top_k =
      let rows = keyword_rows db auth ids query db.chunks in
      let sorted = sort_desc (λ a b. S.smaller a.1 b.1) rows in
      elim (Bool-cases (is_blank query || ltb top_k 1)) [
        | inl e ↦ rw e (omega arith, tt, tt)
        | inr e ↦ rw e (
          omega (
            arith,
            length-from_rows RetrievalStage.bm25 1 (take top_k sorted),
            length-take top_k sorted,
          ),
          from_rows-NumberedFrom RetrievalStage.bm25 1 (take top_k sorted),
          from_rows-All (MayRead auth db.tables 1 ids) RetrievalStage.bm25 1 (take top_k sorted) (
              All-take Readable top_k sorted
                (sort_desc-All _ Readable rows (keyword_rows-Readable query db.chunks))),
        )
      ]

  module _ (model column : String) (vec : Vec) where
    vector_rows-Readable :
        (rows : List ChunkRow) → All Readable (vector_rows db auth ids model column vec rows)
    unfolding vector_rows
    vector_rows-Readable [] = tt
    vector_rows-Readable (row ∷ rows) = elim (Option-cases (db.distance model column vec row)) [
      | inl e ↦ rw (All, e) (vector_rows-Readable rows)
      | inr (d, e) ↦ elim (Bool-cases (admits db auth ids row)) [
        | inl a ↦
            rw (All, e, a)
              ((build_iff auth db.tables 1 ids row.document_id).0 a, vector_rows-Readable rows)
        | inr a ↦ rw (All, e, a) (vector_rows-Readable rows)
      ]
    ]

    All-scores :
        (f : S.Score → S.Score) (rows : List (ChunkRow × S.Score))
        → All Readable rows
        → All Readable (map (λ p. (p.0, f p.1)) rows)
    All-scores f [] h = tt
    All-scores f (p ∷ rows) h = (h.0, All-scores f rows h.1)

    nearest-IsSearchResult :
        (top_k : ℕ)
        → IsSearchResult auth db.tables ids top_k (nearest db auth ids model column vec top_k)
    unfolding nearest
    nearest-IsSearchResult top_k =
        let rows = vector_rows db auth ids model column vec db.chunks in
        let sorted = sort_desc (λ a b. S.smaller b.1 a.1) rows in
        let kept : List (ChunkRow × S.Score) =
          map (λ p. (p.0, db.one_minus p.1)) (take top_k sorted) in
        (
          omega (
            arith,
            length-from_rows RetrievalStage.vector 1 kept,
            length-map {B = ChunkRow × S.Score} (take top_k sorted) (λ p. (p.0, db.one_minus p.1)),
            length-take top_k sorted,
          ),
          from_rows-NumberedFrom RetrievalStage.vector 1 kept,
          from_rows-All (MayRead auth db.tables 1 ids) RetrievalStage.vector 1 kept (
              All-scores db.one_minus (take top_k sorted) (
                All-take Readable top_k sorted
                  (sort_desc-All _ Readable rows (vector_rows-Readable db.chunks)))),
        )

  -- With an embedder of a supported dimension that embeds the query, the vector search returns at
  -- most `top_k` candidates, ranked 1, 2, …, each of a document that the user may read within the
  -- requested collections.
  pub vector_search-IsSearchResult :
      (embedder : Embedder Vec) (query column : String) (top_k : ℕ)
      (embedding : EmbeddingResult Vec)
      → dim_to_column embedder.dimension ≡ some column
      → embedder.embed (query ∷ []) ≡ returned embedding
      → (out : List (Candidate S.Score)) × (vector_search db auth ids embedder query top_k
          ≡ returned out)
        × IsSearchResult auth db.tables ids top_k out
  unfolding vector_search
  vector_search-IsSearchResult embedder query column top_k embedding dim run =
      elim (Bool-cases (is_blank query || ltb top_k 1)) [
        | inl e ↦ ([], rw (vector_search, dim, e) refl, (omega arith, tt, tt))
        | inr e ↦ rw (vector_search, dim, e, run) (found embedding.vectors)
      ]
    where
      found :
          (vs : List Vec)
          → (out : List (Candidate S.Score)) × ((elim vs [
            | [] ↦ returned []
            | vec ∷ _ ↦ returned (nearest db auth ids embedder.model_name column vec top_k)
          ])
              ≡ returned out)
            × IsSearchResult auth db.tables ids top_k out
      found [] = ([], refl, (omega arith, tt, tt))
      found (vec ∷ vs) = (
        nearest db auth ids embedder.model_name column vec top_k,
        refl,
        nearest-IsSearchResult embedder.model_name column vec top_k,
      )
