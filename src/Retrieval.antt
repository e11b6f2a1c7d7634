-- ===== src/Retrieval.antt =====
-- The retrieval unit, packages/shared/python/sentinelrag_shared/retrieval/candidate.py. Chunk and
-- document ids are numbers. Python's floats are not in src/: scores are an interface with what the
-- fusion uses of them, reciprocal, sum and an order without NaN.
pub mod Fusion
pub mod Rerank
pub mod AccessFilter
pub mod Search
pub mod OpenSearch
pub mod InProcess
pub mod Contracts
pub mod Service
pub mod HttpClient
use sentinal_rag.Base.{ℕ, String, ◌≡◌, Bool, true, false, Option}
use sentinal_rag.Base.Dict.{Dict}

pub record Scores : Type 1 where
  pub Score : Type 0
  -- `1.0 / n`
  pub reciprocal : ℕ → Score
  pub plus : Score → Score → Score
  -- `a < b`
  pub smaller : Score → Score → Bool
  pub smaller_asym : (a b : Score) → smaller a b ≡ true → smaller b a ≡ false
  pub smaller_trans :
      (a b c : Score) → smaller a b ≡ false → smaller b c ≡ false → smaller a c ≡ false

pub data RetrievalStage : Type 0 where
  bm25 : RetrievalStage
  vector : RetrievalStage
  hybrid_merge : RetrievalStage
  rerank : RetrievalStage

-- The metadata values the pipeline itself writes; `number none` is a rank that is `None`.
pub data MetaValue : Type 0 where
  number : Option ℕ → MetaValue
  flag : Bool → MetaValue
  name : String → MetaValue

pub record Candidate (S : Type 0) : Type 0 where
  pub chunk_id : ℕ
  pub document_id : ℕ
  pub content : String
  pub score : S
  pub rank : ℕ
  pub stage : RetrievalStage
  pub page_number : Option ℕ
  pub section_title : Option String
  pub metadata : Dict String MetaValue
