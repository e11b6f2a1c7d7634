-- ===== src/Retrieval/Fusion/Laws.antt =====
-- What the fused ranking promises, and when the fusion raises.
use sentinal_rag.Base.{
  ltb, if◌then◌else◌, length, take, All, length-take, All-take, ℕ, zero, suc, ◌≤◌, ◌≡◌, refl, sym,
  ap, ◌≢◌, Bool, true, false, ◌&&◌, ◌||◌, not, List, [], ◌∷◌, arith,
}
use sentinal_rag.Base.Dict.{nat_eq, Dict}
use sentinal_rag.Base.Keys.{values, All-values, AllPairs-values}
use sentinal_rag.Base.Sort.{
  AllPairs, AllPairs-take, sort_desc, sort_desc-All, sort_desc-AllPairs, sort_desc-Sorted,
}
use sentinal_rag.Retrieval.{Scores, Candidate}
use sentinal_rag.Retrieval.Fusion.{
  Merged, merged, bad_rrf_k, bad_rank, Entry, to_candidates, smaller_entry, merge_with_rrf,
}
use sentinal_rag.Retrieval.Fusion.Scored.{
  are_ranked, IsScored, put_bm25, put_vector, add_bm25_lem, add_vector_lem, put_bm25-IsScored,
  put_vector-IsScored,
}

-- The dict after both loops.
unfoldable scored_of :
    (S : Scores) → ℕ → List (Candidate S.Score) → List (Candidate S.Score) → Dict ℕ (Entry S.Score)
scored_of S rrf_k bs vs = put_vector S rrf_k vs (put_bm25 S rrf_k bs [])

-- The fusion as its two loops and one error test.
merge_with_rrf_loops :
    (S : Scores) (bs vs : List (Candidate S.Score)) (top_k rrf_k : ℕ)
    → merge_with_rrf S bs vs top_k rrf_k ≡ (
        if ltb rrf_k 1
        then bad_rrf_k
        else if ltb top_k 1
        then merged []
        else if are_ranked bs && are_ranked vs
        then merged (
            to_candidates 1
              (take top_k (sort_desc (smaller_entry S) (values (scored_of S rrf_k bs vs)))))
        else bad_rank)
unfolding merge_with_rrf scored_of
merge_with_rrf_loops S bs vs top_k rrf_k =
    ground (arith, add_bm25_lem S rrf_k bs [], add_vector_lem S rrf_k vs (put_bm25 S rrf_k bs []))

abbrev pub is_merged : {A : Type 0} → Merged A → Bool
is_merged (merged a) = true
is_merged _ = false

-- The fusion raises exactly if the constant is below 1, or candidates are asked for and some rank
-- is below 1.
pub merge_with_rrf-raises :
    (S : Scores) (bs vs : List (Candidate S.Score)) (top_k rrf_k : ℕ)
    → is_merged (merge_with_rrf S bs vs top_k rrf_k)
      ≡ (not (ltb rrf_k 1) && (ltb top_k 1 || (are_ranked bs && are_ranked vs)))
merge_with_rrf-raises S bs vs top_k rrf_k = ground (arith, merge_with_rrf_loops S bs vs top_k rrf_k)

-- Ranks count up from `n`.
abbrev pub NumberedFrom : {S : Type 0} → ℕ → List (Candidate S) → Type 0
NumberedFrom n [] = Unit
NumberedFrom n (c ∷ cs) = (c.rank ≡ n) × NumberedFrom (suc n) cs

abbrev pub SameChunk : {S : Type 0} → Candidate S → Candidate S → Type 0
SameChunk o c =
    (o.chunk_id ≡ c.chunk_id)
    × (o.document_id ≡ c.document_id)
    × (o.content ≡ c.content)
    × (o.page_number ≡ c.page_number)
    × (o.section_title ≡ c.section_title)

module _ {S : Type 0} where
  to_candidates-NumberedFrom : (n : ℕ) (es : List (Entry S)) → NumberedFrom n (to_candidates n es)
  unfolding to_candidates
  to_candidates-NumberedFrom n [] = tt
  to_candidates-NumberedFrom n (e ∷ es) = (refl, to_candidates-NumberedFrom (suc n) es)

  length-to_candidates : (n : ℕ) (es : List (Entry S)) → length (to_candidates n es) ≡ length es
  unfolding to_candidates
  length-to_candidates n [] = refl
  length-to_candidates n (e ∷ es) = ap suc (length-to_candidates (suc n) es)

  to_candidates-SameChunk :
      (P : Candidate S → Type 0) (n : ℕ) (es : List (Entry S))
      → All (λ e. P e.cand) es
      → All (λ o. (c : Candidate S) × P c × SameChunk o c) (to_candidates n es)
  unfolding to_candidates
  to_candidates-SameChunk P n [] h = tt
  to_candidates-SameChunk P n (e ∷ es) h =
      ((e.cand, h.0, (refl, refl, refl, refl, refl)), to_candidates-SameChunk P (suc n) es h.1)

  to_candidates-All :
      (R : S → ℕ → Type 0) (n : ℕ) (es : List (Entry S))
      → All (λ e. R e.score e.cand.chunk_id) es
      → All (λ o. R o.score o.chunk_id) (to_candidates n es)
  unfolding to_candidates
  to_candidates-All R n [] h = tt
  to_candidates-All R n (e ∷ es) h = (h.0, to_candidates-All R (suc n) es h.1)

  to_candidates-AllPairs :
      (R : S → ℕ → S → ℕ → Type 0) (n : ℕ) (es : List (Entry S))
      → AllPairs (λ a b. R a.score a.cand.chunk_id b.score b.cand.chunk_id) es
      → AllPairs (λ a b. R a.score a.chunk_id b.score b.chunk_id) (to_candidates n es)
  unfolding to_candidates
  to_candidates-AllPairs R n [] h = tt
  to_candidates-AllPairs R n (e ∷ es) h = (
    to_candidates-All (R e.score e.cand.chunk_id) (suc n) es h.0,
    to_candidates-AllPairs R (suc n) es h.1,
  )

-- The fused list: at most `top_k`, ranks 1, 2, …, no candidate scored above an earlier one, no
-- chunk twice, and each the chunk of a candidate that meets `P`.
abbrev pub IsFused :
    (S : Scores) → (Candidate S.Score → Type 0) → ℕ → List (Candidate S.Score) → Type 0
IsFused S P top_k out =
    (length out ≤ top_k)
    × NumberedFrom 1 out
    × AllPairs (λ a b. S.smaller a.score b.score ≡ false) out
    × AllPairs (λ a b. a.chunk_id ≢ b.chunk_id) out
    × All (λ o. (c : Candidate S.Score) × P c × SameChunk o c) out

module _ (S : Scores) (P : Candidate S.Score → Type 0) where
  best-IsFused :
      (top_k : ℕ) (scored : Dict ℕ (Entry S.Score))
      → IsScored P scored
      → IsFused S P top_k
          (to_candidates 1 (take top_k (sort_desc (smaller_entry S) (values scored))))
  best-IsFused top_k scored h =
      let vs = values scored in
      let sorted = sort_desc (smaller_entry S) vs in
      let best = take top_k sorted in
      (
        omega (arith, length-to_candidates 1 best, length-take top_k sorted),
        to_candidates-NumberedFrom 1 best,
        to_candidates-AllPairs (λ a i b j. S.smaller a b ≡ false) 1 best
            (AllPairs-take (λ a b. smaller_entry S a b ≡ false) top_k sorted
              (sort_desc-Sorted (smaller_entry S) (λ a b. S.smaller_asym a.score b.score)
                (λ a b c. S.smaller_trans a.score b.score c.score) vs)),
        to_candidates-AllPairs (λ a i b j. i ≢ j) 1 best
            (AllPairs-take (λ a b. a.cand.chunk_id ≢ b.cand.chunk_id) top_k sorted
              (sort_desc-AllPairs (smaller_entry S) (λ a b. a.cand.chunk_id ≢ b.cand.chunk_id) vs
                (λ a b ne same. ne (sym same))
                (AllPairs-values (λ e. e.cand.chunk_id) scored h.1 h.0))),
        to_candidates-SameChunk P 1 best (
            All-take (λ e. P e.cand) top_k sorted
              (sort_desc-All (smaller_entry S) (λ e. P e.cand) vs
                (All-values (λ e. P e.cand) scored h.2))),
      )

  -- With a constant of at least 1 and valid ranks the fusion returns a list of at most `top_k`
  -- candidates, ranked 1, 2, …, none scored above an earlier one, no chunk twice, and each the
  -- chunk (id, document, content, page, section) of an input; what holds of all inputs holds of it.
  pub merge_with_rrf-IsFused :
      (bs vs : List (Candidate S.Score)) (top_k rrf_k : ℕ)
      → 1 ≤ rrf_k
      → are_ranked bs ≡ true
      → are_ranked vs ≡ true
      → All P bs
      → All P vs
      → (out : List (Candidate S.Score)) × (merge_with_rrf S bs vs top_k rrf_k ≡ merged out)
        × IsFused S P top_k out
  unfolding scored_of
  merge_with_rrf-IsFused bs vs zero rrf_k k rb rv pb pv =
      ([], ground (arith, merge_with_rrf_loops S bs vs 0 rrf_k), (omega arith, tt, tt, tt, tt))
  merge_with_rrf-IsFused bs vs (suc top_k) rrf_k k rb rv pb pv =
      let scored = scored_of S rrf_k bs vs in
      (
        to_candidates 1 (take (suc top_k) (sort_desc (smaller_entry S) (values scored))),
        ground (arith, merge_with_rrf_loops S bs vs (suc top_k) rrf_k),
        best-IsFused (suc top_k) scored (
            put_vector-IsScored S rrf_k P vs (put_bm25 S rrf_k bs []) pv
              (put_bm25-IsScored S rrf_k P bs [] pb (tt, tt, tt))),
      )
