-- ===== src/Retrieval/Fusion/Scored.antt =====
-- The dict `scored` of the fusion: its two loops without their errors, what they keep.
use sentinal_rag.Base.{
  ltb, if◌then◌else◌, Bool-cases, All, ℕ, ◌≡◌, refl, inl, inr, Bool, true, ◌&&◌, not, Option, none,
  some, List, [], ◌∷◌,
}
use sentinal_rag.Base.Dict.{nat_eq, Dict, lookup, insert, lookup-All}
use sentinal_rag.Base.Keys.{DistinctKeys, All-insert, insert-DistinctKeys}
use sentinal_rag.Retrieval.{Scores, Candidate}
use sentinal_rag.Retrieval.Fusion.{
  merged, bad_rank, Entry, validate_candidate_rank, bm25_entry, vector_entry, add_bm25, add_vector,
}

-- Every rank is at least 1.
abbrev pub are_ranked : {S : Type 0} → List (Candidate S) → Bool
are_ranked [] = true
are_ranked (c ∷ cs) = not (ltb c.rank 1) && are_ranked cs

-- The keys are distinct, each entry stands under its candidate's chunk id, and the candidate
-- meets `P`.
abbrev pub IsScored : {S : Type 0} → (Candidate S → Type 0) → Dict ℕ (Entry S) → Type 0
IsScored P scored =
    DistinctKeys scored × All (λ p. p.1.cand.chunk_id ≡ p.0) scored × All (λ p. P p.1.cand) scored

module _ (S : Scores) (rrf_k : ℕ) where
  unfoldable pub put_bm25 :
      List (Candidate S.Score) → Dict ℕ (Entry S.Score) → Dict ℕ (Entry S.Score)
  put_bm25 [] d = d
  put_bm25 (c ∷ cs) d = put_bm25 cs (insert c.chunk_id (bm25_entry S rrf_k c) d)

  unfoldable pub put_vector :
      List (Candidate S.Score) → Dict ℕ (Entry S.Score) → Dict ℕ (Entry S.Score)
  put_vector [] d = d
  put_vector (c ∷ cs) d =
      put_vector cs (insert c.chunk_id (vector_entry S rrf_k c (lookup c.chunk_id d)) d)

  pub add_bm25_lem :
      (cs : List (Candidate S.Score)) (d : Dict ℕ (Entry S.Score))
      → add_bm25 S rrf_k cs d ≡ (if are_ranked cs then merged (put_bm25 cs d) else bad_rank)
  unfolding add_bm25 validate_candidate_rank put_bm25
  add_bm25_lem [] d = refl
  add_bm25_lem (c ∷ cs) d = elim (Bool-cases (ltb c.rank 1)) [
    | inl low ↦ rw low refl
    | inr fine ↦ rw fine (add_bm25_lem cs (insert c.chunk_id (bm25_entry S rrf_k c) d))
  ]

  pub add_vector_lem :
      (cs : List (Candidate S.Score)) (d : Dict ℕ (Entry S.Score))
      → add_vector S rrf_k cs d ≡ (if are_ranked cs then merged (put_vector cs d) else bad_rank)
  unfolding add_vector validate_candidate_rank put_vector
  add_vector_lem [] d = refl
  add_vector_lem (c ∷ cs) d = elim (Bool-cases (ltb c.rank 1)) [
    | inl low ↦ rw low refl
    | inr fine ↦
        rw fine
          (add_vector_lem cs (insert c.chunk_id (vector_entry S rrf_k c (lookup c.chunk_id d)) d))
  ]

module _ (S : Scores) (rrf_k : ℕ) (P : Candidate S.Score → Type 0) where
  IsScored-insert :
      (e : Entry S.Score) (k : ℕ) (d : Dict ℕ (Entry S.Score))
      → e.cand.chunk_id ≡ k
      → P e.cand
      → IsScored P d
      → IsScored P (insert k e d)
  IsScored-insert e k d key p h = (
    insert-DistinctKeys k e d h.0,
    All-insert (λ q. q.1.cand.chunk_id ≡ q.0) k e d key h.1,
    All-insert (λ q. P q.1.cand) k e d p h.2,
  )

  pub put_bm25-IsScored :
      (cs : List (Candidate S.Score)) (d : Dict ℕ (Entry S.Score))
      → All P cs
      → IsScored P d
      → IsScored P (put_bm25 S rrf_k cs d)
  unfolding put_bm25 bm25_entry
  put_bm25-IsScored [] d p h = h
  put_bm25-IsScored (c ∷ cs) d p h =
      put_bm25-IsScored cs (insert c.chunk_id (bm25_entry S rrf_k c) d) p.1
        (IsScored-insert (bm25_entry S rrf_k c) c.chunk_id d refl p.0 h)

  vector_entry-keeps :
      (c : Candidate S.Score) (d : Dict ℕ (Entry S.Score)) (o : Option (Entry S.Score))
      → lookup c.chunk_id d ≡ o
      → P c
      → IsScored P d
      → ((vector_entry S rrf_k c o).cand.chunk_id ≡ c.chunk_id) × P (vector_entry S rrf_k c o).cand
  unfolding vector_entry
  vector_entry-keeps c d none m p h = (refl, p)
  vector_entry-keeps c d (some e) m p h = (
    lookup-All (λ q. q.1.cand.chunk_id ≡ q.0) c.chunk_id e d h.1 m,
    lookup-All (λ q. P q.1.cand) c.chunk_id e d h.2 m,
  )

  pub put_vector-IsScored :
      (cs : List (Candidate S.Score)) (d : Dict ℕ (Entry S.Score))
      → All P cs
      → IsScored P d
      → IsScored P (put_vector S rrf_k cs d)
  unfolding put_vector
  put_vector-IsScored [] d p h = h
  put_vector-IsScored (c ∷ cs) d p h =
      let o = lookup c.chunk_id d in
      let k = vector_entry-keeps c d o refl p.0 h in
      put_vector-IsScored cs (insert c.chunk_id (vector_entry S rrf_k c o) d) p.1
        (IsScored-insert (vector_entry S rrf_k c o) c.chunk_id d k.0 k.1 h)
