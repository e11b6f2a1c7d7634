-- ===== src/Retrieval/OpenSearch/Complete.antt =====
-- What the adapter's search does find.
use sentinal_rag.Base.{
  ltb, ◌==◌, ==_iff, Bool-cases, length, take, is_nil, keep_if, any, Any, take_all, any_decides,
  length-keep_if, Any-keep_if, ℕ, suc, ◌≤◌, String, ◌≡◌, refl, sym, ap, ◌⊎◌, inl, inr, true, false,
  ◌||◌, List, [], ◌∷◌, map, arith,
}
use sentinal_rag.Base.Dict.{nat_eq}
use sentinal_rag.Base.Keys.{values}
use sentinal_rag.Base.Sort.{sort_desc, sort_desc-Any, length-sort_desc}
use sentinal_rag.Retrieval.{Scores, RetrievalStage}
use sentinal_rag.Retrieval.AccessFilter.{AuthContext, Tables, authorized_collections}
use sentinal_rag.Retrieval.AccessFilter.Laws.{Accessible, authorized_collections_iff, is_nil_iff}
use sentinal_rag.Retrieval.Search.{is_blank, from_rows}
use sentinal_rag.Retrieval.OpenSearch.{
  IndexableChunk, Index, Engine, resolve_authorized_collections, selects, source_of, search,
}
use sentinal_rag.Retrieval.OpenSearch.Laws.{InScope, Shows, MayFind}

module _ (auth : AuthContext) (t : Tables) (requested : List ℕ) where
  resolve_complete :
      (i : ℕ)
      → Accessible auth t 1 i
      → (requested ≡ []) ⊎ Any (λ r. r ≡ i) requested
      → any (λ j. j == i) (resolve_authorized_collections auth t requested) ≡ true
  unfolding resolve_authorized_collections
  resolve_complete i h asked =
      let ids = authorized_collections auth t 1 in
      let known = (authorized_collections_iff auth t 1 i).1 h in
      elim (Bool-cases (is_nil requested)) [
        | inl e ↦ rw e known
        | inr e ↦ rw e (
            (any_decides _ _ _ (λ j. ==_iff j i)).1 (
              Any-keep_if _ i ids
                (elim asked [
                  | inl none_asked ↦ cc ((is_nil_iff auth t requested).1 none_asked, e)
                  | inr r ↦ (any_decides _ _ requested (λ r. ==_iff r i)).1 r
                ])
                ((any_decides _ _ ids (λ j. ==_iff j i)).0 known)))
      ]

module _ {S : Scores} (engine : Engine S) where
  from_rows-Any :
      (query : String) (c : IndexableChunk) (n : ℕ) (cs : List IndexableChunk)
      → Any (λ d. d ≡ c) cs
      → Any
          (Shows engine query c)
          (from_rows RetrievalStage.bm25 n (map (λ d. (source_of d, engine.score query d)) cs))
  unfolding from_rows
  from_rows-Any query c n [] absent = absent
  from_rows-Any query c n (d ∷ cs) (inl same) = inl (
    ap (λ d. d.chunk_id) same,
    ap (λ d. d.document_id) same,
    ap (λ d. d.content) same,
    ap (engine.score query) same,
  )
  from_rows-Any query c n (d ∷ cs) (inr later) = inr (from_rows-Any query c (suc n) cs later)

  selects_complete :
      (auth : AuthContext) (t : Tables) (requested : List ℕ) (query : String) (c : IndexableChunk)
      → InScope auth t requested c
      → engine.matches query c ≡ true
      → selects engine auth (resolve_authorized_collections auth t requested) query c ≡ true
  unfolding selects
  selects_complete auth t requested query c scope hit = ground (
    arith,
    hit,
    (==_iff c.tenant_id auth.tenant_id).1 scope.0,
    resolve_complete auth t requested c.collection_id scope.1 scope.2,
  )

  not_nil : (i : ℕ) (ids : List ℕ) → any (λ j. j == i) ids ≡ true → is_nil ids ≡ false
  not_nil i [] h = sym h
  not_nil i (j ∷ ids) h = refl

  -- A query that is not blank, with a `top_k` of at least 1 and no less than the size of the
  -- index, finds every chunk of the index that it matches, that is of the user's tenant and of a
  -- collection that the user may read and that was requested, if any was.
  pub search-finds :
      (index : Index) (auth : AuthContext) (t : Tables) (requested : List ℕ) (query : String)
      (top_k : ℕ) (c : IndexableChunk)
      → is_blank query ≡ false
      → 1 ≤ top_k
      → length (values index) ≤ top_k
      → MayFind engine index auth t requested query c
      → Any (Shows engine query c) (search engine index auth t requested query top_k)
  unfolding search
  search-finds index auth t requested query top_k c filled positive fits (m, scope, hit) =
      let ids = resolve_authorized_collections auth t requested in
      let kept = keep_if (selects engine auth ids query) (values index) in
      let ranked =
        sort_desc (λ a b. S.smaller (engine.score query a) (engine.score query b)) kept in
      let some_ids : is_nil ids ≡ false =
        not_nil c.collection_id ids
          (resolve_complete auth t requested c.collection_id scope.1 scope.2) in
      let few : length ranked ≤ top_k = omega (
        arith,
        length-sort_desc (λ a b. S.smaller (engine.score query a) (engine.score query b)) kept,
        length-keep_if (selects engine auth ids query) (values index),
      ) in
      let whole : take top_k ranked ≡ ranked = take_all top_k ranked few in
      let within : (is_blank query || ltb top_k 1) ≡ false = ground (arith, filled) in
      rw (within, some_ids, whole)
        (from_rows-Any query c 1 ranked (
          sort_desc-Any _ _ kept (
            Any-keep_if _ c (values index) (selects_complete auth t requested query c scope hit)
              m)))
