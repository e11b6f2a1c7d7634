-- ===== src/Tests/RetrievalExamples.antt =====
-- The theorems on retrieval at concrete inputs.
use sentinal_rag.Base.Sort.{place, sort_desc}
use sentinal_rag.Base.{
  ltb, if◌then◌else◌, length, ℕ, ◌≤◌, String, ◌≡◌, refl, sym, ap, ◌∙◌, ◌⊎◌, ◌&&◌, ◌||◌, not, none,
  List, [], ◌∷◌, arith,
}
use sentinal_rag.Base.Dict.{nat_eq, string_eq, Dict, lookup}
use sentinal_rag.Retrieval.{RetrievalStage, Candidate}
use sentinal_rag.Retrieval.Fusion.{merged, bind, Entry, add_bm25, add_vector, merge_with_rrf}
use sentinal_rag.Retrieval.Fusion.Fused.{find_chunk, fuse, scored-fuse}
use sentinal_rag.Retrieval.Fusion.Scored.{are_ranked}
use sentinal_rag.Retrieval.Fusion.Laws.{
  is_merged, merge_with_rrf-raises, IsFused, merge_with_rrf-IsFused,
}
use sentinal_rag.Retrieval.Rerank.{
  RerankResult, Attempt, done, other_error, range_from, bge, reranked, escaped, rerank_inputs,
  rerank_merged,
}
use sentinal_rag.Retrieval.Rerank.Laws.{
  IsRanking, done_inj, length-range_from, bge-IsRanking, IsReranked, rerank_merged-IsReranked,
}
use sentinal_rag.Tests.Instances.{per_million}

abbrev hit : ℕ → ℕ → Candidate ℕ
hit id rank = record {
  chunk_id = id;
  document_id = 9;
  content = "text";
  score = 1;
  rank = rank;
  stage = RetrievalStage.bm25;
  page_number = none;
  section_title = none;
  metadata = [];
}

abbrev keyword_hits : List (Candidate ℕ)
keyword_hits = hit 1 1 ∷ hit 2 2 ∷ []

abbrev vector_hits : List (Candidate ℕ)
vector_hits = hit 2 1 ∷ hit 3 2 ∷ []

abbrev OfDocument : Candidate ℕ → Type 0
OfDocument c = c.document_id ≡ 9

merge_with_rrf-IsFused_example :
    (out : List (Candidate ℕ)) × (merge_with_rrf per_million keyword_hits vector_hits 2 60
      ≡ merged out)
    × IsFused per_million OfDocument 2 out
merge_with_rrf-IsFused_example =
    merge_with_rrf-IsFused per_million OfDocument keyword_hits vector_hits 2 60 (omega arith) refl
      refl (refl, (refl, tt)) (refl, (refl, tt))

scored-fuse_example :
    (scored : Dict ℕ (Entry ℕ)) × (bind
        (add_bm25 per_million 60 keyword_hits [])
        (add_vector per_million 60 vector_hits)
      ≡ merged scored)
    × (lookup 2 scored ≡ fuse per_million 60 (find_chunk 2 keyword_hits) (find_chunk 2 vector_hits))
scored-fuse_example =
    scored-fuse per_million 60 2 keyword_hits vector_hits (omega arith, (omega arith, tt))
      (omega arith, (omega arith, tt)) ((ground arith, tt), (tt, tt)) ((ground arith, tt), (tt, tt))

-- A model that scores by position.
abbrev by_position : List (String × String) → Attempt (List ℕ)
by_position pairs = done (range_from 0 (length pairs))

positions :
    (pairs : List (String × String)) (scores : List ℕ)
    → by_position pairs ≡ done scores
    → length scores ≡ length pairs
positions pairs scores e =
    ap length (sym (done_inj (range_from 0 (length pairs)) scores e))
    ∙ length-range_from 0 (length pairs)

abbrev only_first : RerankResult ℕ
only_first = record { indices = 0 ∷ []; scores = 0 ∷ []; model_name = "bge" }

bge-IsRanking_example : IsRanking 1 1 only_first
unfolding bge sort_desc place
bge-IsRanking_example =
    bge-IsRanking per_million "bge" by_position positions "q"
      (record { chunk_id = 1; text = "text" } ∷ []) 1 only_first refl

rerank_merged-IsReranked_example :
    ((bge per_million "bge" by_position "q" (rerank_inputs keyword_hits) 1 ≡ other_error)
      × (rerank_merged (bge per_million "bge" by_position) "q" keyword_hits 1 ≡ escaped))
    ⊎ ((out : List (Candidate ℕ)) × (rerank_merged
            (bge per_million "bge" by_position)
            "q"
            keyword_hits
            1
          ≡ reranked out)
        × (length out ≤ (if ltb 1 1 then length keyword_hits else 1))
        × IsReranked OfDocument 1 out)
rerank_merged-IsReranked_example =
    rerank_merged-IsReranked OfDocument (bge per_million "bge" by_position) "q" keyword_hits 1
      (bge-IsRanking per_million "bge" by_position positions) (refl, (refl, tt))

merge_with_rrf-raises_example :
    is_merged (merge_with_rrf per_million keyword_hits (hit 4 0 ∷ []) 2 60)
    ≡ (not (ltb 60 1) && (ltb 2 1 || (are_ranked keyword_hits && are_ranked (hit 4 0 ∷ []))))
merge_with_rrf-raises_example = merge_with_rrf-raises per_million keyword_hits (hit 4 0 ∷ []) 2 60
