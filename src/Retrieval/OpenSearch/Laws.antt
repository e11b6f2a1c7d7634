-- ===== src/Retrieval/OpenSearch/Laws.antt =====
-- What the adapter's search may return.
use sentinal_rag.Base.{
  ltb, ◌==◌, ==_iff, Bool-cases, &&-split, length, take, is_nil, keep_if, any, Any, All,
  length-take, length-map, All-take, Any-imp, any_decides, ℕ, suc, ◌≤◌, String, ◌≡◌, refl, sym, ◌∙◌,
  ◌↔◌, ◌⊎◌, inl, inr, Bool, true, ◌&&◌, ◌||◌, List, [], ◌∷◌, map, arith,
}
use sentinal_rag.Base.Dict.{nat_eq}
use sentinal_rag.Base.Keys.{values}
use sentinal_rag.Base.Sort.{sort_desc, sort_desc-All}
use sentinal_rag.Retrieval.{Scores, RetrievalStage, Candidate}
use sentinal_rag.Retrieval.Fusion.Laws.{NumberedFrom}
use sentinal_rag.Retrieval.Search.{ChunkRow, is_blank, from_rows}
use sentinal_rag.Retrieval.Search.Laws.{from_rows-NumberedFrom, length-from_rows}
use sentinal_rag.Retrieval.AccessFilter.{AuthContext, Tables, authorized_collections}
use sentinal_rag.Retrieval.AccessFilter.Laws.{Accessible, authorized_collections_iff, is_nil_iff}
use sentinal_rag.Retrieval.OpenSearch.{
  IndexableChunk, Index, Engine, resolve_authorized_collections, selects, source_of, search,
}

-- The chunk is the tenant's, of a collection that the user may access, and of a requested one if
-- some are requested.
abbrev pub InScope : AuthContext → Tables → List ℕ → IndexableChunk → Type 0
InScope auth t requested c =
    (c.tenant_id ≡ auth.tenant_id)
    × Accessible auth t 1 c.collection_id
    × ((requested ≡ []) ⊎ Any (λ r. r ≡ c.collection_id) requested)

any-keep_if : (p q : ℕ → Bool) (xs : List ℕ) → any p (keep_if q xs) ≡ any (λ x. q x && p x) xs
any-keep_if p q [] = refl
any-keep_if p q (x ∷ xs) = elim (Bool-cases (q x)) [
  | inl e ↦ rw (e, any-keep_if p q xs) refl
  | inr e ↦ rw (e, any-keep_if p q xs) refl
]

module _ (auth : AuthContext) (t : Tables) (requested : List ℕ) where
  kept_iff :
      (i j : ℕ)
      → (any (λ r. r == j) requested && (j == i) ≡ true) ↔ ((j ≡ i) × Any (λ r. r ≡ j) requested)
  kept_iff i j = ground (arith, any_decides _ _ requested (λ r. ==_iff r j), ==_iff j i)

  wanted :
      (i : ℕ) (js : List ℕ)
      → Any (λ j. (j ≡ i) × Any (λ r. r ≡ j) requested) js
      → Any (λ r. r ≡ i) requested
  wanted i [] absent = elim absent [ ]
  wanted i (j ∷ js) (inl h) = Any-imp requested (λ r e. e ∙ h.0) h.1
  wanted i (j ∷ js) (inr h) = wanted i js h

  found :
      (i : ℕ)
      → Any (λ j. (j ≡ i) × Any (λ r. r ≡ j) requested) (authorized_collections auth t 1)
      → any (λ j. j == i) (authorized_collections auth t 1) ≡ true
  found i h =
      (any_decides _ _ (authorized_collections auth t 1) (λ j. ==_iff j i)).1
        (Any-imp (authorized_collections auth t 1) (λ j p. p.0) h)

  resolve_sound :
      (i : ℕ)
      → any (λ j. j == i) (resolve_authorized_collections auth t requested) ≡ true
      → Accessible auth t 1 i × ((requested ≡ []) ⊎ Any (λ r. r ≡ i) requested)
  unfolding resolve_authorized_collections
  resolve_sound i h = elim (Bool-cases (is_nil requested)) [
    | inl e ↦
        let h' : any (λ j. j == i) (authorized_collections auth t 1) ≡ true = rw e at h in
        ((authorized_collections_iff auth t 1 i).0 h', inl ((is_nil_iff auth t requested).0 e))
    | inr e ↦
        let h' : any (λ j. j == i)
              (keep_if (λ c. any (λ r. r == c) requested) (authorized_collections auth t 1))
            ≡ true =
          rw e at h in
        let both : Any (λ j. (j ≡ i) × Any (λ r. r ≡ j) requested)
            (authorized_collections auth t 1) =
          (any_decides _ (λ j. (j ≡ i) × Any (λ r. r ≡ j) requested)
              (authorized_collections auth t 1) (kept_iff i)).0
            (sym (any-keep_if _ _ (authorized_collections auth t 1)) ∙ h') in
        ((authorized_collections_iff auth t 1 i).0 (found i both), inr (wanted i _ both))
  ]

keep_if-All :
    {A : Type 0} (P : A → Type 0) (q : A → Bool) (xs : List A)
    → ((x : A) → Any (λ y. y ≡ x) xs → q x ≡ true → P x)
    → All P (keep_if q xs)
keep_if-All P q [] h = tt
keep_if-All P q (x ∷ xs) h =
    let rest = keep_if-All P q xs (λ y m. h y (inr m)) in
    elim (Bool-cases (q x)) [ inl e ↦ rw e (h x (inl refl) e, rest) | inr e ↦ rw e rest ]

module _ {S : Scores} (engine : Engine S) where
  -- The candidate shows what was indexed as `c`, with the score that the engine gives `c`.
  abbrev pub Shows : String → IndexableChunk → Candidate S.Score → Type 0
  Shows query c x =
      (x.chunk_id ≡ c.chunk_id)
      × (x.document_id ≡ c.document_id)
      × (x.content ≡ c.content)
      × (x.score ≡ engine.score query c)

  from_rows-Shows :
      (P : IndexableChunk → Type 0) (query : String) (n : ℕ) (cs : List IndexableChunk)
      → All P cs
      → All
          (λ x. (c : IndexableChunk) × P c × Shows query c x)
          (from_rows RetrievalStage.bm25 n (map (λ c. (source_of c, engine.score query c)) cs))
  unfolding from_rows
  from_rows-Shows P query n [] h = tt
  from_rows-Shows P query n (c ∷ cs) h =
      ((c, h.0, (refl, refl, refl, refl)), from_rows-Shows P query (suc n) cs h.1)

  -- What a search may find: an indexed chunk in scope that the query matches.
  abbrev pub MayFind : Index → AuthContext → Tables → List ℕ → String → IndexableChunk → Type 0
  MayFind index auth t requested query c =
      Any (λ d. d ≡ c) (values index) × InScope auth t requested c × (engine.matches query c ≡ true)

  selects-MayFind :
      (index : Index) (auth : AuthContext) (t : Tables) (requested : List ℕ) (query : String)
      (c : IndexableChunk)
      → Any (λ d. d ≡ c) (values index)
      → selects engine auth (resolve_authorized_collections auth t requested) query c ≡ true
      → MayFind index auth t requested query c
  unfolding selects
  selects-MayFind index auth t requested query c m h =
      let (both, coll) = &&-split _ _ h in
      let (hit, tenant) = &&-split _ _ both in
      let (in_scope, asked) = resolve_sound auth t requested c.collection_id coll in
      (m, ((==_iff c.tenant_id auth.tenant_id).0 tenant, in_scope, asked), hit)

  -- The search returns at most `top_k` candidates, ranked 1, 2, …, and each shows a chunk of the
  -- index that the query matches, that is of the user's tenant and of a collection that the user
  -- may read and that was requested, if any was.
  pub search-IsScoped :
      (index : Index) (auth : AuthContext) (t : Tables) (requested : List ℕ) (query : String)
      (top_k : ℕ)
      → let out = search engine index auth t requested query top_k in
        (length out ≤ top_k)
        × NumberedFrom 1 out
        × All
            (λ x. (c : IndexableChunk) × MayFind index auth t requested query c × Shows query c x)
            out
  unfolding search
  search-IsScoped index auth t requested query top_k =
      let ids = resolve_authorized_collections auth t requested in
      let kept = keep_if (selects engine auth ids query) (values index) in
      let best =
        take top_k
          (sort_desc (λ a b. S.smaller (engine.score query a) (engine.score query b)) kept) in
      let rows : List (ChunkRow × S.Score) = map (λ c. (source_of c, engine.score query c)) best in
      elim (Bool-cases (is_blank query || ltb top_k 1)) [
        | inl e ↦ rw e (omega arith, tt, tt)
        | inr e ↦ elim (Bool-cases (is_nil ids)) [
          | inl n ↦ rw (e, n) (omega arith, tt, tt)
          | inr n ↦
              rw (e, n)
                (
                  omega (
                    arith,
                    length-from_rows RetrievalStage.bm25 1 rows,
                    length-map {B = ChunkRow × S.Score} best
                        (λ c. (source_of c, engine.score query c)),
                    length-take top_k (
                        sort_desc (λ a b. S.smaller (engine.score query a) (engine.score query b))
                          kept),
                  ),
                  from_rows-NumberedFrom RetrievalStage.bm25 1 rows,
                  from_rows-Shows (MayFind index auth t requested query) query 1 best (
                      All-take _ top_k _ (
                        sort_desc-All _ _ kept (
                          keep_if-All _ _ (values index)
                            (selects-MayFind index auth t requested query)))),
                )
        ]
      ]
