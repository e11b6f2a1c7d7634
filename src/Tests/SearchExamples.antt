-- ===== src/Tests/SearchExamples.antt =====
-- The theorems on the access filter, the searches and the retrieval clients at concrete inputs.
use sentinal_rag.Base.{
  then_some, length, Any, All, ℕ, ◌-◌, ◌≤◌, String, ◌≡◌, refl, ◌↔◌, inl, true, false, none, some,
  [], ◌∷◌, arith,
}
use sentinal_rag.Base.Dict.{nat_eq, string_eq}
use sentinal_rag.Base.Text.{codes, text_eq, lstrip, strip}
use sentinal_rag.Base.Sort.{place, sort_desc}
use sentinal_rag.Retrieval.{RetrievalStage, Candidate}
use sentinal_rag.Retrieval.AccessFilter.{
  AuthContext, Tables, level_rank, reaches, holds_role, grants, authorized, authorized_collections,
  in_collections, build,
}
use sentinal_rag.Retrieval.AccessFilter.Laws.{MayAccess, MayRead, build_iff}
use sentinal_rag.Retrieval.Rerank.{restage, restage_candidates}
use sentinal_rag.Retrieval.Search.{
  ChunkRow, Database, returned, EmbeddingResult, Embedder, dim_to_column, from_rows, keyword_rows,
  keyword_search,
}
use sentinal_rag.Retrieval.Fusion.Laws.{NumberedFrom}
use sentinal_rag.Retrieval.OpenSearch.{IndexableChunk, Index, Engine, search}
use sentinal_rag.Retrieval.OpenSearch.Complete.{search-finds}
use sentinal_rag.Retrieval.OpenSearch.Laws.{Shows, MayFind, search-IsScoped}
use sentinal_rag.Retrieval.InProcess.{Arguments, HybridRetrievalResult, retrieve}
use sentinal_rag.Retrieval.InProcess.Laws.{IsRetrieval, retrieve-IsRetrieval}
use sentinal_rag.Retrieval.Contracts.{
  RetrieveResponse, stage_value, build_response, validate_response,
}
use sentinal_rag.Retrieval.Service.{serve}
use sentinal_rag.Retrieval.HttpClient.{to_hybrid_result, done, http_retrieve}
use sentinal_rag.Retrieval.HttpClient.Laws.{IsWireResult, to_hybrid_result-build_response}
use sentinal_rag.Retrieval.HttpClient.Delivery.{flaky, IsAccepted}
use sentinal_rag.Retrieval.HttpClient.Equivalence.{noted, http_retrieve-retrieve}
use sentinal_rag.Tests.Instances.{per_million}

abbrev reader : AuthContext
reader = record { user_id = 5; tenant_id = 1; email = "a@b"; permissions = codes "read" ∷ [] }

-- A collection for the tenant, and one that only a role that the reader lacks may read.
abbrev two_collections : Tables
two_collections = record {
  collections =
      record { id = 1; tenant_id = 1; visibility = "tenant" }
      ∷ record { id = 2; tenant_id = 1; visibility = "private" }
      ∷ [];
  policies =
      record { collection_id = 2; role_id = some 8; user_id = none; access_level = "read" } ∷ [];
  user_roles = record { user_id = 6; role_id = 8 } ∷ [];
  documents = record { id = 10; collection_id = 1 } ∷ record { id = 11; collection_id = 2 } ∷ [];
}

build_iff_example :
    (build reader two_collections 1 (1 ∷ []) 11 ≡ true)
    ↔ MayRead reader two_collections 1 (1 ∷ []) 11
build_iff_example = build_iff reader two_collections 1 (1 ∷ []) 11

abbrev row_in : ℕ → ℕ → ChunkRow
row_in id doc = record {
  id = id;
  document_id = doc;
  content = "text";
  page_number = none;
  section_title = none;
}

abbrev two_rows : Database per_million ℕ
two_rows = record {
  tables = two_collections;
  chunks = row_in 100 10 ∷ row_in 101 11 ∷ [];
  matches = λ query row. true;
  ts_rank = λ query row. 3;
  distance = λ model column vec row. some 4;
  one_minus = λ d. 10 - d;
}

abbrev one_vector : EmbeddingResult ℕ
one_vector = record { vectors = 7 ∷ []; usage = none }

abbrev small_embedder : Embedder ℕ
small_embedder = record {
  model_name = "small";
  dimension = 768;
  embed = λ texts. returned one_vector;
}

abbrev asking : String → Arguments
asking mode = record {
  query = "text";
  collection_ids = [];
  mode = mode;
  top_k_bm25 = 20;
  top_k_vector = 20;
  top_k_hybrid = 30;
  ef_search = none;
}

retrieve-IsRetrieval_example :
    (r : HybridRetrievalResult ℕ) × (retrieve two_rows small_embedder reader (asking "hybrid")
      ≡ returned r)
    × IsRetrieval reader two_collections [] 30 r
unfolding dim_to_column
retrieve-IsRetrieval_example =
    retrieve-IsRetrieval two_rows reader (asking "hybrid") small_embedder "embedding_768" one_vector
      refl refl

abbrev hit_at : RetrievalStage → Candidate ℕ
hit_at stage = record {
  chunk_id = 100;
  document_id = 10;
  content = "text";
  score = 3;
  rank = 1;
  stage = stage;
  page_number = none;
  section_title = none;
  metadata = [];
}

abbrev found : HybridRetrievalResult ℕ
found = record {
  bm25_candidates = hit_at RetrievalStage.bm25 ∷ [];
  vector_candidates = [];
  merged_candidates = hit_at RetrievalStage.hybrid_merge ∷ [];
  metadata = [];
  embedding_usage = none;
}

abbrev as_is : String → String
as_is s = s

found_by_keyword : retrieve two_rows small_embedder reader (asking "bm25") ≡ returned found
unfolding retrieve keyword_search keyword_rows from_rows build authorized_collections authorized
    grants holds_role reaches level_rank in_collections sort_desc place restage_candidates restage
    strip lstrip
found_by_keyword = refl

stage_as_is : (s : RetrievalStage) → as_is (stage_value s) ≡ stage_value s
stage_as_is s = refl

found-IsWireResult : IsWireResult as_is found
found-IsWireResult =
    (((refl, refl, omega arith, refl), tt), tt, ((refl, refl, omega arith, refl), tt), tt)

accepted : IsAccepted as_is reader (asking "bm25")
unfolding strip lstrip
accepted = (refl, refl, refl, refl, refl, (refl, tt), (tt, tt))

http_retrieve-retrieve_example :
    http_retrieve as_is
      (flaky 1 (serve as_is two_rows small_embedder (codes "s3")))
      (codes "s3")
      3
      reader
      (asking "bm25")
    ≡ done (noted (asking "bm25") found)
http_retrieve-retrieve_example =
    http_retrieve-retrieve as_is two_rows small_embedder reader (asking "bm25") stage_as_is
      (codes "s3") 3 1 found refl accepted (omega arith) found_by_keyword found-IsWireResult

to_hybrid_result-build_response_example :
    (body : RetrieveResponse ℕ) × (build_response as_is found ≡ some body)
    × (then_some (validate_response as_is body) to_hybrid_result ≡ some found)
to_hybrid_result-build_response_example =
    to_hybrid_result-build_response as_is stage_as_is found found-IsWireResult

abbrev indexed : ℕ → ℕ → IndexableChunk
indexed id collection = record {
  chunk_id = id;
  document_id = 10;
  tenant_id = 1;
  collection_id = collection;
  content = "text";
  page_number = none;
  section_title = none;
}

abbrev lenient : Engine per_million
lenient = record { matches = λ query c. true; score = λ query c. c.chunk_id; refuses = λ c. false }

abbrev two_indexed : Index
two_indexed = (100, indexed 100 1) ∷ (101, indexed 101 2) ∷ []

search-IsScoped_example :
    (length (search lenient two_indexed reader two_collections [] "text" 5) ≤ 5)
    × NumberedFrom 1 (search lenient two_indexed reader two_collections [] "text" 5)
    × All
        (λ x.
          (c : IndexableChunk) × MayFind lenient two_indexed reader two_collections [] "text" c
          × Shows lenient "text" c x)
        (search lenient two_indexed reader two_collections [] "text" 5)
search-IsScoped_example = search-IsScoped lenient two_indexed reader two_collections [] "text" 5

search-finds_example :
    Any
      (Shows lenient "text" (indexed 100 1))
      (search lenient two_indexed reader two_collections [] "text" 5)
unfolding strip lstrip
search-finds_example =
    search-finds lenient two_indexed reader two_collections [] "text" 5 (indexed 100 1) refl
      (omega arith) (omega arith)
      (inl refl, (refl, inl (MayAccess.tenant_wide refl refl (omega arith), refl), inl refl), refl)
