-- ===== src/Retrieval/Rerank/Laws.antt =====
-- What the rerank stage returns for every reranker that meets its contract, and that the two
-- rerankers meet it.
use sentinal_rag.Retrieval.Fusion.Laws.{NumberedFrom, SameChunk}
use sentinal_rag.Retrieval.{Scores, RetrievalStage, MetaValue, Candidate}
use sentinal_rag.Base.Sort.{sort_desc, sort_desc-All}
use sentinal_rag.Base.{
  ltb, if◌then◌else◌, length, take, get_elem?, All, length-take, length-map, All-take, All-imp, ℕ,
  zero, suc, ◌+◌, ◌≤◌, ◌<◌, min, String, ◌≡◌, refl, subst, ap, ◌⊎◌, inl, inr, some, List, [], ◌∷◌,
  map, arith,
}
use sentinal_rag.Base.Dict.{string_eq, insert}
use sentinal_rag.Retrieval.Rerank.{
  RerankCandidate, RerankResult, Attempt, done, reranker_error, other_error, Reranker, range_from,
  enumerate_from, noop, smaller_item, bge, reranked, escaped, keep_order, apply_ranking,
  rerank_inputs, rerank_merged,
}

-- As many scores as indices, at most `top_k` of them, each index below the number of candidates.
abbrev pub IsRanking : {S : Type 0} → ℕ → ℕ → RerankResult S → Type 0
IsRanking n top_k r =
    (length r.scores ≡ length r.indices) × (length r.indices ≤ top_k) × All (λ i. i < n) r.indices

-- A reranker's contract: an error, or a ranking of the candidates it was given.
abbrev pub IsReranker : {S : Type 0} → Reranker S → Type 0
IsReranker {S = S} reranker =
    (query : String) (cs : List RerankCandidate) (top_k : ℕ) (r : RerankResult S)
    → reranker query cs top_k ≡ done r
    → IsRanking (length cs) top_k r

pub done_inj : {A : Type 0} (a b : A) → Attempt.done a ≡ done b → a ≡ b
done_inj a b e = cc e

Attempt-cases :
    {A : Type 0} (t : Attempt A)
    → ((t ≡ reranker_error) ⊎ (t ≡ other_error)) ⊎ ((a : A) × (t ≡ done a))
Attempt-cases (done a) = inr (a, refl)
Attempt-cases reranker_error = inl (inl refl)
Attempt-cases other_error = inl (inr refl)

get_elem?-below {ℓ} :
    {A : Type ℓ} (xs : List A) (i : ℕ) → i < length xs → (a : A) × (get_elem? xs i ≡ some a)
get_elem?-below [] i h = let no : ⊥ = omega arith in elim no [ ]
get_elem?-below (x ∷ xs) zero h = (x, refl)
get_elem?-below (x ∷ xs) (suc i) h = get_elem?-below xs i (omega arith)

get_elem?-All {ℓ κ} :
    {A : Type ℓ} (P : A → Type κ) (xs : List A) (i : ℕ) (a : A)
    → All P xs
    → get_elem? xs i ≡ some a
    → P a
get_elem?-All P [] i a h m = cc
get_elem?-All P (x ∷ xs) zero a h m = subst P (cc m) h.0
get_elem?-All P (x ∷ xs) (suc i) a h m = get_elem?-All P xs i a h.1 m

range_from-below : (m i n : ℕ) → i + n ≤ m → All (λ j. j < m) (range_from i n)
range_from-below m i zero h = tt
range_from-below m i (suc n) h = (omega arith, range_from-below m (suc i) n (omega arith))

pub length-range_from : (i n : ℕ) → length (range_from i n) ≡ n
length-range_from i zero = refl
length-range_from i (suc n) = ap suc (length-range_from (suc i) n)

-- `NoOpReranker` meets the contract.
pub noop-IsReranker : {S : Type 0} (score_at : ℕ → S) → IsReranker (noop score_at)
unfolding noop
noop-IsReranker score_at query cs top_k r run =
    let n = min top_k (length cs) in
    subst (IsRanking (length cs) top_k) (done_inj _ _ run) (
      length-map (range_from 0 n) score_at,
      omega (arith, length-range_from 0 n),
      range_from-below (length cs) 0 n (omega arith),
    )

module _ {ℓ} {A : Type ℓ} where
  enumerate_from-below :
      (m i : ℕ) (xs : List A) → i + length xs ≤ m → All (λ p. p.0 < m) (enumerate_from i xs)
  enumerate_from-below m i [] h = tt
  enumerate_from-below m i (x ∷ xs) h =
      (omega arith, enumerate_from-below m (suc i) xs (omega arith))

  All-map {κ ι} :
      {B : Type κ} (P : B → Type ι) (f : A → B) (xs : List A)
      → All (λ x. P (f x)) xs
      → All P (map f xs)
  All-map P f [] h = tt
  All-map P f (x ∷ xs) h = (h.0, All-map P f xs h.1)

-- If its model gives one score for each pair, whatever `BgeReranker` returns without an error is
-- a ranking: as many scores as indices, at most `top_k`, each index below the number of
-- candidates.
pub bge-IsRanking :
    (S : Scores) (model_name : String)
    (score_texts : List (String × String) → Attempt (List S.Score))
    → ((pairs : List (String × String)) (scores : List S.Score)
        → score_texts pairs ≡ done scores
        → length scores ≡ length pairs)
    → (query : String) (cs : List RerankCandidate) (top_k : ℕ) (r : RerankResult S.Score)
    → bge S model_name score_texts query cs top_k ≡ done r
    → IsRanking (length cs) top_k r
unfolding bge
bge-IsRanking S model_name score_texts fits query [] top_k r run =
    subst (IsRanking 0 top_k) (done_inj _ _ run) (refl, omega arith, tt)
bge-IsRanking S model_name score_texts fits query (c ∷ cs) top_k r run =
    let pairs : List (String × String) = map (λ x. (query, x.text)) (c ∷ cs) in
    elim (Attempt-cases (score_texts pairs)) [
      | inl (inl failed) ↦ let run' = rw failed at run in cc run'
      | inl (inr failed) ↦ let run' = rw failed at run in cc run'
      | inr (scores, e) ↦
          let items = enumerate_from 0 scores in
          let sorted = sort_desc (smaller_item S) items in
          let kept = take top_k sorted in
          let run' = rw e at run in
          subst (IsRanking (length (c ∷ cs)) top_k) (done_inj _ _ run') (
            omega (arith, length-map kept (λ p. p.1), length-map kept (λ p. p.0)),
            omega (arith, length-map kept (λ p. p.0), length-take top_k sorted),
            All-map (λ i. i < length (c ∷ cs)) (λ p. p.0) kept
                (All-take (λ p. p.0 < length (c ∷ cs)) top_k sorted
                  (sort_desc-All (smaller_item S) (λ p. p.0 < length (c ∷ cs)) items
                    (enumerate_from-below (length (c ∷ cs)) 0 scores (
                      omega (
                        arith,
                        fits pairs scores e,
                        length-map {B = String × String} (c ∷ cs) (λ x. (query, x.text)),
                      ))))),
          )
    ]

-- What the stage hands on: candidates ranked 1, 2, …, at the rerank stage, each with the chunk of a
-- candidate that meets `P`.
abbrev pub IsReranked : {S : Type 0} → (Candidate S → Type 0) → ℕ → List (Candidate S) → Type 0
IsReranked {S = S} P rank out =
    NumberedFrom rank out
    × All (λ o. o.stage ≡ RetrievalStage.rerank) out
    × All (λ o. (c : Candidate S) × P c × SameChunk o c) out

module _ {S : Type 0} (P : Candidate S → Type 0) where
  keep_order-IsReranked :
      (key : String) (rank : ℕ) (cs : List (Candidate S))
      → All P cs
      → IsReranked P rank (keep_order key rank cs)
  unfolding keep_order
  keep_order-IsReranked key rank [] p = (tt, tt, tt)
  keep_order-IsReranked key rank (c ∷ cs) p =
      let h = keep_order-IsReranked key (suc rank) cs p.1 in
      ((refl, h.0), (refl, h.1), ((c, p.0, (refl, refl, refl, refl, refl)), h.2))

  abbrev ranked_as : String → ℕ → Candidate S → S → Candidate S
  ranked_as model rank src s = record src {
    score = s;
    rank = rank;
    stage = RetrievalStage.rerank;
    metadata = insert "reranker_model" (MetaValue.name model) src.metadata;
  }

  apply_ranking-cons :
      (merged : List (Candidate S)) (model : String) (rank i : ℕ) (indices : List ℕ) (s : S)
      (scores : List S) (src : Candidate S) (out : List (Candidate S))
      → get_elem? merged i ≡ some src
      → apply_ranking merged model (suc rank) indices scores ≡ reranked out
      → apply_ranking merged model rank (i ∷ indices) (s ∷ scores)
        ≡ reranked (ranked_as model rank src s ∷ out)
  unfolding apply_ranking
  apply_ranking-cons merged model rank i indices s scores src out found run =
      ground (arith, found, run)

  apply_ranking-IsReranked :
      (merged : List (Candidate S)) (model : String) (rank : ℕ) (indices : List ℕ) (scores : List S)
      → All P merged
      → length scores ≡ length indices
      → All (λ i. i < length merged) indices
      → (out : List (Candidate S)) × (apply_ranking merged model rank indices scores ≡ reranked out)
        × (length out ≡ length indices)
        × IsReranked P rank out
  unfolding apply_ranking
  apply_ranking-IsReranked merged model rank [] [] p e b = ([], refl, refl, (tt, tt, tt))
  apply_ranking-IsReranked merged model rank [] (s ∷ scores) p e b =
      let no : ⊥ = omega arith in elim no [ ]
  apply_ranking-IsReranked merged model rank (i ∷ indices) [] p e b =
      let no : ⊥ = omega arith in elim no [ ]
  apply_ranking-IsReranked merged model rank (i ∷ indices) (s ∷ scores) p e b =
      let (src, found) = get_elem?-below merged i b.0 in
      let (out, run, len, h) =
        apply_ranking-IsReranked merged model (suc rank) indices scores p (omega arith) b.1 in
      (
        ranked_as model rank src s ∷ out,
        apply_ranking-cons merged model rank i indices s scores src out found run,
        ap suc len,
        (
          (refl, h.0),
          (refl, h.1),
          ((src, get_elem?-All P merged i src p found, (refl, refl, refl, refl, refl)), h.2),
        ),
      )

  length-keep_order :
      (key : String) (rank : ℕ) (cs : List (Candidate S))
      → length (keep_order key rank cs) ≡ length cs
  unfolding keep_order
  length-keep_order key rank [] = refl
  length-keep_order key rank (c ∷ cs) = ap suc (length-keep_order key (suc rank) cs)

  -- With a reranker that meets its contract the stage returns candidates ranked 1, 2, …, at the
  -- rerank stage, at most `top_k` of them (all, if `top_k` is 0), each with the chunk of a candidate
  -- it was given, whether the reranker ranked, raised a `RerankerError` or was off; the one other
  -- end is that the reranker raises another exception, which then escapes.
  pub rerank_merged-IsReranked :
      (reranker : Reranker S) (query : String) (merged : List (Candidate S)) (top_k : ℕ)
      → IsReranker reranker
      → All P merged
      → ((reranker query (rerank_inputs merged) top_k ≡ other_error)
          × (rerank_merged reranker query merged top_k ≡ escaped))
        ⊎ ((out : List (Candidate S)) × (rerank_merged reranker query merged top_k ≡ reranked out)
            × (length out ≤ (if ltb top_k 1 then length merged else top_k))
            × IsReranked P 1 out)
  unfolding rerank_merged
  rerank_merged-IsReranked reranker query [] top_k ok p = inr ([], refl, omega arith, (tt, tt, tt))
  rerank_merged-IsReranked reranker query (c ∷ cs) zero ok p =
      let merged = c ∷ cs in
      inr (
        keep_order "rerank_disabled" 1 merged,
        refl,
        omega (arith, length-keep_order "rerank_disabled" 1 merged),
        keep_order-IsReranked "rerank_disabled" 1 merged p,
      )
  rerank_merged-IsReranked reranker query (c ∷ cs) (suc n) ok p =
      let merged = c ∷ cs in
      let best = take (suc n) merged in
      elim (Attempt-cases (reranker query (rerank_inputs merged) (suc n))) [
        | inl (inr failed) ↦ inl (failed, ground (arith, failed))
        | inl (inl failed) ↦ inr (
          keep_order "rerank_degraded" 1 best,
          ground (arith, failed),
          grind (arith, length-keep_order "rerank_degraded" 1 best, length-take (suc n) merged),
          keep_order-IsReranked "rerank_degraded" 1 best (All-take P (suc n) merged p),
        )
        | inr (r, e) ↦
            let h = ok query (rerank_inputs merged) (suc n) r e in
            let (out, run, len, shape) =
              apply_ranking-IsReranked merged r.model_name 1 r.indices r.scores p h.0 (
                All-imp r.indices
                  (λ i below. omega (
                    arith,
                    length-map {B = RerankCandidate} merged
                        (λ c. record { chunk_id = c.chunk_id; text = c.content }),
                  ))
                  h.2) in
            inr (out, ground (arith, e, run), grind arith, shape)
      ]
