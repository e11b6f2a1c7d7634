-- ===== src/Retrieval/Fusion/Fused.antt =====
-- What stands in the dict `scored` of the fusion for one chunk.
use sentinal_rag.Base.{
  ◌==◌, if◌then◌else◌, ==_iff, Bool-cases, All, ℕ, ◌+◌, ◌≤◌, ◌≡◌, refl, ap, ◌∙◌, ◌≢◌, inl, inr,
  true, Option, none, some, List, [], ◌∷◌, arith,
}
use sentinal_rag.Base.Dict.{nat_eq, Dict, lookup, insert, lookup-insert}
use sentinal_rag.Base.Sort.{AllPairs}
use sentinal_rag.Retrieval.{Scores, Candidate}
use sentinal_rag.Retrieval.Fusion.{
  merged, bind, Entry, bm25_entry, vector_entry, add_bm25, add_vector,
}
use sentinal_rag.Retrieval.Fusion.Scored.{
  are_ranked, put_bm25, put_vector, add_bm25_lem, add_vector_lem,
}

abbrev pub Distinct : {S : Type 0} → List (Candidate S) → Type 0
Distinct = AllPairs (λ b c. b.chunk_id ≢ c.chunk_id)

unfoldable pub find_chunk : {S : Type 0} → ℕ → List (Candidate S) → Option (Candidate S)
find_chunk id [] = none
find_chunk id (c ∷ cs) = if c.chunk_id == id then some c else find_chunk id cs

-- An independent description of the fused entry from the two results for a chunk.
abbrev pub fuse :
    (S : Scores)
    → ℕ
    → Option (Candidate S.Score)
    → Option (Candidate S.Score)
    → Option (Entry S.Score)
fuse S k none none = none
fuse S k (some b) none = some (record {
  score = S.reciprocal (k + b.rank);
  cand = b;
  bm25_rank = some b.rank;
  vector_rank = none;
})
fuse S k none (some v) = some (record {
  score = S.reciprocal (k + v.rank);
  cand = v;
  bm25_rank = none;
  vector_rank = some v.rank;
})
fuse S k (some b) (some v) = some (record {
  score = S.plus (S.reciprocal (k + b.rank)) (S.reciprocal (k + v.rank));
  cand = b;
  bm25_rank = some b.rank;
  vector_rank = some v.rank;
})

are_ranked_lem :
    {S : Type 0} (cs : List (Candidate S)) → All (λ c. 1 ≤ c.rank) cs → are_ranked cs ≡ true
are_ranked_lem [] h = refl
are_ranked_lem (c ∷ cs) h = ground (arith, h.0, are_ranked_lem cs h.1)

module _ (S : Scores) (rrf_k : ℕ) (id : ℕ) where
  find_chunk-absent :
      (j : ℕ) (cs : List (Candidate S.Score))
      → j ≡ id
      → All (λ c. j ≢ c.chunk_id) cs
      → find_chunk id cs ≡ none
  unfolding find_chunk
  find_chunk-absent j [] e h = refl
  find_chunk-absent j (c ∷ cs) e h = ground (arith, find_chunk-absent j cs e h.1, h.0)

  put_bm25-lookup :
      (cs : List (Candidate S.Score)) (d : Dict ℕ (Entry S.Score))
      → Distinct cs
      → lookup id (put_bm25 S rrf_k cs d)
        ≡ elim (find_chunk id cs) [ none ↦ lookup id d | some c ↦ some (bm25_entry S rrf_k c) ]
  unfolding put_bm25 find_chunk
  put_bm25-lookup [] d h = refl
  put_bm25-lookup (c ∷ cs) d h = elim (Bool-cases (c.chunk_id == id)) [
    | inl same ↦
        let e : c.chunk_id ≡ id = (==_iff c.chunk_id id).0 same in
        rw same (
          put_bm25-lookup cs (insert c.chunk_id (bm25_entry S rrf_k c) d) h.1
          ∙ ground (
            arith,
            find_chunk-absent c.chunk_id cs e h.0,
            lookup-insert c.chunk_id id (bm25_entry S rrf_k c) d,
          ))
    | inr other ↦ rw other (
        put_bm25-lookup cs (insert c.chunk_id (bm25_entry S rrf_k c) d) h.1
        ∙ ground (arith, lookup-insert c.chunk_id id (bm25_entry S rrf_k c) d))
  ]

  put_vector-lookup :
      (cs : List (Candidate S.Score)) (d : Dict ℕ (Entry S.Score))
      → Distinct cs
      → lookup id (put_vector S rrf_k cs d) ≡ elim (find_chunk id cs) [
        | none ↦ lookup id d
        | some c ↦ some (vector_entry S rrf_k c (lookup id d))
      ]
  unfolding put_vector find_chunk
  put_vector-lookup [] d h = refl
  put_vector-lookup (c ∷ cs) d h =
      let e = vector_entry S rrf_k c (lookup c.chunk_id d) in
      elim (Bool-cases (c.chunk_id == id)) [
        | inl same ↦
            let eq : c.chunk_id ≡ id = (==_iff c.chunk_id id).0 same in
            rw same (
              put_vector-lookup cs (insert c.chunk_id e d) h.1
              ∙ ground (
                arith,
                find_chunk-absent c.chunk_id cs eq h.0,
                lookup-insert c.chunk_id id e d,
                ap (λ i. vector_entry S rrf_k c (lookup i d)) eq,
              ))
        | inr other ↦ rw other (
            put_vector-lookup cs (insert c.chunk_id e d) h.1
            ∙ ground (arith, lookup-insert c.chunk_id id e d))
      ]

  -- If every rank is at least 1 and each list names a chunk at most once, the two loops succeed,
  -- and the dict `scored` that they build holds for every chunk exactly what the lists say of it:
  -- nothing if neither has it, the reciprocal rank of the one result, or the sum of both with the
  -- keyword result's content and both ranks.
  pub scored-fuse :
      (bs vs : List (Candidate S.Score))
      → All (λ c. 1 ≤ c.rank) bs
      → All (λ c. 1 ≤ c.rank) vs
      → Distinct bs
      → Distinct vs
      → (scored : Dict ℕ (Entry S.Score)) × (bind (add_bm25 S rrf_k bs []) (add_vector S rrf_k vs)
          ≡ merged scored)
        × (lookup id scored ≡ fuse S rrf_k (find_chunk id bs) (find_chunk id vs))
  unfolding bm25_entry vector_entry lookup
  scored-fuse bs vs rb rv hb hv = (
    put_vector S rrf_k vs (put_bm25 S rrf_k bs []),
    rw
        (
          add_bm25_lem S rrf_k bs [],
          are_ranked_lem bs rb,
          add_vector_lem S rrf_k vs (put_bm25 S rrf_k bs []),
          are_ranked_lem vs rv,
        )
        refl,
    ground (arith, put_vector-lookup vs (put_bm25 S rrf_k bs []) hv, put_bm25-lookup bs [] hb),
  )
