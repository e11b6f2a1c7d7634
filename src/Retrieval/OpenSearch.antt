-- ===== src/Retrieval/OpenSearch.antt =====
-- packages/shared/python/sentinelrag_shared/retrieval/opensearch_keyword_search.py: the adapter on
-- an index that is a dict from chunk ids to what was indexed. What OpenSearch computes of a chunk
-- (match, score) and which items of a bulk request it refuses are parameters.
pub mod Laws
pub mod Complete
use sentinal_rag.Base.{
  ltb, ◌==◌, if◌then◌else◌, length, take, is_nil, keep_if, any, ℕ, ◌-◌, String, Bool, true, false,
  ◌&&◌, ◌||◌, not, Option, List, [], ◌∷◌, map,
}
use sentinal_rag.Base.Dict.{nat_eq, Dict, insert}
use sentinal_rag.Base.Keys.{values}
use sentinal_rag.Base.Sort.{sort_desc}
use sentinal_rag.Retrieval.{Scores, RetrievalStage, Candidate}
use sentinal_rag.Retrieval.AccessFilter.{AuthContext, Tables, authorized_collections}
use sentinal_rag.Retrieval.Search.{ChunkRow, is_blank, from_rows}

pub record IndexableChunk : Type 0 where
  pub chunk_id : ℕ
  pub document_id : ℕ
  pub tenant_id : ℕ
  pub collection_id : ℕ
  pub content : String
  pub page_number : Option ℕ
  pub section_title : Option String

abbrev pub Index : Type 0
Index = Dict ℕ IndexableChunk

pub record Engine (S : Scores) : Type 0 where
  -- the `match` on the content, and `_score`
  pub matches : String → IndexableChunk → Bool
  pub score : String → IndexableChunk → S.Score
  -- an item of a bulk response carries an error
  pub refuses : IndexableChunk → Bool

-- `_resolve_authorized_collections`
unfoldable pub resolve_authorized_collections : AuthContext → Tables → List ℕ → List ℕ
resolve_authorized_collections auth t requested =
    let ids = authorized_collections auth t 1 in
    if is_nil requested then ids else keep_if (λ c. any (λ r. r == c) requested) ids

-- The `bool` query: the match and the two filters.
unfoldable pub selects :
    {S : Scores} → Engine S → AuthContext → List ℕ → String → IndexableChunk → Bool
selects engine auth authorized_ids query c =
    engine.matches query c
    && (c.tenant_id == auth.tenant_id)
    && any (λ i. i == c.collection_id) authorized_ids

-- A hit's `_source`, as the row that the candidate is made of.
abbrev pub source_of : IndexableChunk → ChunkRow
source_of c = record {
  id = c.chunk_id;
  document_id = c.document_id;
  content = c.content;
  page_number = c.page_number;
  section_title = c.section_title;
}

-- `search`; OpenSearch gives the best `size` hits, by score.
unfoldable pub search :
    {S : Scores}
    → Engine S
    → Index
    → AuthContext
    → Tables
    → List ℕ
    → String
    → ℕ
    → List (Candidate S.Score)
search {S = S} engine index auth t requested query top_k =
    let authorized_ids = resolve_authorized_collections auth t requested in
    if is_blank query || ltb top_k 1
    then []
    else if is_nil authorized_ids
    then []
    else from_rows RetrievalStage.bm25 1 (
        map (λ c. (source_of c, engine.score query c))
          (take top_k (
            sort_desc (λ a b. S.smaller (engine.score query a) (engine.score query b))
              (keep_if (selects engine auth authorized_ids query) (values index)))))

module _ {S : Scores} (engine : Engine S) where
  -- What a bulk request does to the index: each accepted chunk stands under its id.
  unfoldable pub index_all : List IndexableChunk → Index → Index
  index_all [] index = index
  index_all (c ∷ cs) index =
      let rest = index_all cs (insert c.chunk_id c index) in
      let skipped = index_all cs index in if engine.refuses c then skipped else rest

  -- `bulk_index`: the count and the index.
  unfoldable pub bulk_index : List IndexableChunk → Index → ℕ × Index
  bulk_index chunks index =
      if is_nil chunks
      then (0, index)
      else (length chunks - length (keep_if engine.refuses chunks), index_all chunks index)

abbrev pub is_of : ℕ → ℕ → ℕ × IndexableChunk → Bool
is_of tenant_id document_id p = (p.1.tenant_id == tenant_id) && (p.1.document_id == document_id)

-- `delete_by_document`: the count and the index.
unfoldable pub delete_by_document : ℕ → ℕ → Index → ℕ × Index
delete_by_document tenant_id document_id index = (
  length (keep_if (is_of tenant_id document_id) index),
  keep_if (λ p. not (is_of tenant_id document_id p)) index,
)

-- `ensure_index`: whether it was made, and that it exists then.
unfoldable pub ensure_index : Bool → Bool × Bool
ensure_index exists = if exists then (false, true) else (true, true)
