-- ===== src/Retrieval/Search.antt =====
-- The two searches in Postgres, packages/shared/python/sentinelrag_shared/retrieval/
-- keyword_search.py and vector_search.py: a query as a function on the rows. What the database
-- computes of a row (match, rank, distance) is a parameter; rows of one score keep their order.
pub mod Laws
use sentinal_rag.Base.{
  ltb, ◌==◌, if◌then◌else◌, length, take, is_nil, ℕ, suc, String, Bool, ◌&&◌, ◌||◌, Option, none,
  some, List, [], ◌∷◌, map,
}
use sentinal_rag.Base.Dict.{nat_eq, string_eq}
use sentinal_rag.Base.Text.{codes, strip}
use sentinal_rag.Base.Json.{Fields}
use sentinal_rag.Base.Sort.{sort_desc}
use sentinal_rag.Retrieval.{Scores, RetrievalStage, Candidate}
use sentinal_rag.Retrieval.AccessFilter.{AuthContext, Tables, build}

-- A row of `document_chunks`.
pub record ChunkRow : Type 0 where
  pub id : ℕ
  pub document_id : ℕ
  pub content : String
  pub page_number : Option ℕ
  pub section_title : Option String

pub record Database (S : Scores) (Vec : Type 0) : Type 0 where
  pub tables : Tables
  pub chunks : List ChunkRow
  -- `content_tsv @@ websearch_to_tsquery(…)`, and `ts_rank_cd(…)`
  pub matches : String → ChunkRow → Bool
  pub ts_rank : String → ChunkRow → S.Score
  -- `ce.{column} <=> …` for the row of `chunk_embeddings` of the model whose column is not NULL
  pub distance : String → String → Vec → ChunkRow → Option S.Score
  -- `1 - d`
  pub one_minus : S.Score → S.Score

pub data Raise : Type 0 where
  value_error : Raise
  runtime_error : Raise
  vector_search_error : Raise
  embedder_error : Raise
  validation_error : Raise

pub data Outcome (A : Type 0) : Type 0 where
  returned : A → Outcome A
  raised : Raise → Outcome A

abbrev pub and_then : {A B : Type 0} → Outcome A → (A → Outcome B) → Outcome B
and_then (returned a) f = f a
and_then (raised e) f = raised e

-- `UsageRecord`, less the token total and the metadata; costs are whole units.
pub record UsageRecord : Type 0 where
  pub usage_type : Option String
  pub provider : Option String
  pub model_name : Option String
  pub input_tokens : ℕ
  pub output_tokens : ℕ
  pub total_tokens : ℕ
  pub total_cost_usd : Option ℕ
  pub latency_ms : Option ℕ
  pub metadata : Fields

pub record EmbeddingResult (Vec : Type 0) : Type 0 where
  pub vectors : List Vec
  pub usage : Option UsageRecord

-- An embedder: its name and dimension, and `embed`.
pub record Embedder (Vec : Type 0) : Type 0 where
  pub model_name : String
  pub dimension : ℕ
  pub embed : List String → Outcome (EmbeddingResult Vec)

-- `_PrecomputedEmbedder`
unfoldable pub precomputed : {Vec : Type 0} → Embedder Vec → EmbeddingResult Vec → Embedder Vec
precomputed e result = record e {
  embed = λ texts. if length texts == 1 then returned result else raised runtime_error;
}

-- `not query.strip()`
abbrev pub is_blank : String → Bool
is_blank query = is_nil (strip (codes query))

-- `_DIM_TO_COLUMN`
unfoldable pub dim_to_column : ℕ → Option String
dim_to_column d =
    if d == 768
    then some "embedding_768"
    else if d == 1024
    then some "embedding_1024"
    else if d == 1536
    then some "embedding_1536"
    else none

-- The candidates of the rows, `enumerate(rows, start=1)`.
unfoldable pub from_rows :
    {S : Type 0} → RetrievalStage → ℕ → List (ChunkRow × S) → List (Candidate S)
from_rows stage rank [] = []
from_rows stage rank ((row, score) ∷ rows) =
    record {
      chunk_id = row.id;
      document_id = row.document_id;
      content = row.content;
      score = score;
      rank = rank;
      stage = stage;
      page_number = row.page_number;
      section_title = row.section_title;
      metadata = [];
    }
    ∷ from_rows stage (suc rank) rows

module _ {S : Scores} {Vec : Type 0} (db : Database S Vec) (auth : AuthContext) (ids : List ℕ) where
  -- `AND {predicate.sql}` for the level `read`
  abbrev pub admits : ChunkRow → Bool
  admits row = build auth db.tables 1 ids row.document_id

  -- The rows of the keyword query with their scores.
  unfoldable pub keyword_rows : String → List ChunkRow → List (ChunkRow × S.Score)
  keyword_rows query [] = []
  keyword_rows query (row ∷ rows) =
      let rest = keyword_rows query rows in
      if db.matches query row && admits row then (row, db.ts_rank query row) ∷ rest else rest

  -- `PostgresFtsKeywordSearch.search`
  unfoldable pub keyword_search : String → ℕ → List (Candidate S.Score)
  keyword_search query top_k =
      if is_blank query || ltb top_k 1
      then []
      else from_rows RetrievalStage.bm25 1
          (take top_k (sort_desc (λ a b. S.smaller a.1 b.1) (keyword_rows query db.chunks)))

  -- The rows of the vector query with their distances.
  unfoldable pub vector_rows : String → String → Vec → List ChunkRow → List (ChunkRow × S.Score)
  vector_rows model column vec [] = []
  vector_rows model column vec (row ∷ rows) =
      let rest = vector_rows model column vec rows in
      elim (db.distance model column vec row) [
        | none ↦ rest
        | some d ↦ if admits row then (row, d) ∷ rest else rest
      ]

  unfoldable pub nearest : String → String → Vec → ℕ → List (Candidate S.Score)
  nearest model column vec top_k = from_rows RetrievalStage.vector 1 (
      map (λ p. (p.0, db.one_minus p.1))
        (take top_k
          (sort_desc (λ a b. S.smaller b.1 a.1) (vector_rows model column vec db.chunks))))

  -- `PgvectorVectorSearch(…)` and its `search`
  unfoldable pub vector_search : Embedder Vec → String → ℕ → Outcome (List (Candidate S.Score))
  vector_search embedder query top_k = elim (dim_to_column embedder.dimension) [
    | none ↦ raised vector_search_error
    | some column ↦
        if is_blank query || ltb top_k 1
        then returned []
        else and_then (embedder.embed (query ∷ [])) (λ embedding. elim embedding.vectors [
          | [] ↦ returned []
          | vec ∷ _ ↦ returned (nearest embedder.model_name column vec top_k)
        ])
  ]
