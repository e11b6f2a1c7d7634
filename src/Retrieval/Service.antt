-- ===== src/Retrieval/Service.antt =====
-- apps/retrieval-service/sentinelrag_retrieval_service/main.py: the guard, the request and the
-- response of `POST /v1/retrieve`. The session of the tenant is the database argument.
use sentinal_rag.Base.{
  if◌then◌else◌, take, is_nil, ℕ, suc, String, Option, none, some, List, [], ◌∷◌, ◌++◌, str_eq,
}
use sentinal_rag.Base.Dict.{nat_eq, string_eq, Dict}
use sentinal_rag.Base.Text.{Text, codes, text_beq}
use sentinal_rag.Retrieval.{Scores, RetrievalStage, MetaValue, Candidate}
use sentinal_rag.Retrieval.AccessFilter.{AuthContext}
use sentinal_rag.Retrieval.Search.{
  Database, validation_error, Outcome, returned, raised, and_then, EmbeddingResult, Embedder,
  precomputed, keyword_search, vector_search,
}
use sentinal_rag.Retrieval.InProcess.{Arguments, HybridRetrievalResult, hybrid_retrieve}
use sentinal_rag.Retrieval.Contracts.{
  AuthContextDto, RetrieveRequest, RetrieveResponse, sorted_texts, validate_request, build_response,
}

-- `f"Bearer {…}"`, on both sides
unfoldable pub bearer : Text → Text
bearer token = codes "Bearer " ++ token

-- `require_service_token`: the status it refuses with.
unfoldable pub require_service_token : Text → Option Text → Option ℕ
require_service_token service_token authorization =
    if is_nil service_token then some 503 else elim authorization [
      | none ↦ some 401
      | some sent ↦ if text_beq sent (bearer service_token) then none else some 401
    ]

-- `_auth_from_dto`
unfoldable pub auth_from_dto : AuthContextDto → AuthContext
auth_from_dto dto = record {
  user_id = dto.user_id;
  tenant_id = dto.tenant_id;
  email = dto.email;
  permissions = sorted_texts dto.permissions;
}

-- `_restage`
unfoldable pub restage_from :
    {S : Type 0} → RetrievalStage → ℕ → List (Candidate S) → List (Candidate S)
restage_from stage rank [] = []
restage_from stage rank (c ∷ cs) =
    record {
      chunk_id = c.chunk_id;
      document_id = c.document_id;
      content = c.content;
      score = c.score;
      rank = rank;
      stage = stage;
      page_number = c.page_number;
      section_title = c.section_title;
      metadata = c.metadata;
    }
    ∷ restage_from stage (suc rank) cs

abbrev pub mode_metadata : String → Dict String MetaValue
mode_metadata mode = ("mode", MetaValue.name mode) ∷ []

-- The answer of the service: a status, and the response under 200.
pub data Reply (S : Type 0) : Type 0 where
  ok : RetrieveResponse S → Reply S
  refused : ℕ → Reply S

module _ (trim : String → String) {S : Scores} {Vec : Type 0} (db : Database S Vec) where
  -- The value of `_build_response`, where a `ValidationError` is raised on.
  abbrev pub respond : HybridRetrievalResult S.Score → Outcome (RetrieveResponse S.Score)
  respond r = elim (build_response trim r) [
    | none ↦ raised validation_error
    | some response ↦ returned response
  ]

  -- `_run_retrieval` in the vector and the hybrid mode.
  unfoldable pub run_embedded :
      Embedder Vec
      → AuthContext
      → Arguments
      → EmbeddingResult Vec
      → Outcome (RetrieveResponse S.Score)
  run_embedded embedder auth a embedding =
      if str_eq a.mode "vector"
      then and_then
          (vector_search db auth a.collection_ids (precomputed embedder embedding) a.query
            a.top_k_vector)
          (λ vectors. respond (record {
            bm25_candidates = [];
            vector_candidates = vectors;
            merged_candidates =
                restage_from RetrievalStage.hybrid_merge 1 (take a.top_k_hybrid vectors);
            metadata = mode_metadata "vector";
            embedding_usage = embedding.usage;
          }))
      else and_then (hybrid_retrieve db 60 (precomputed embedder embedding) auth a)
          (λ result. respond (record result { embedding_usage = embedding.usage }))

  -- The route `retrieve` with `_run_retrieval`; the query is embedded unless the mode is bm25.
  unfoldable pub run_retrieval :
      Embedder Vec → AuthContext → Arguments → Outcome (RetrieveResponse S.Score)
  run_retrieval embedder auth a =
      if str_eq a.mode "bm25"
      then (let bm25s = keyword_search db auth a.collection_ids a.query a.top_k_bm25 in
          respond (record {
            bm25_candidates = bm25s;
            vector_candidates = [];
            merged_candidates =
                restage_from RetrievalStage.hybrid_merge 1 (take a.top_k_hybrid bm25s);
            metadata = mode_metadata "bm25";
            embedding_usage = none;
          }))
      else and_then (embedder.embed (a.query ∷ [])) (run_embedded embedder auth a)

  abbrev pub reply_of : Outcome (RetrieveResponse S.Score) → Reply S.Score
  reply_of (returned response) = ok response
  reply_of (raised e) = refused 500

  -- What follows the validation of the body, and what follows the guard.
  unfoldable pub after_validation : Embedder Vec → Option RetrieveRequest → Reply S.Score
  after_validation embedder none = refused 422
  after_validation embedder (some payload) =
      reply_of (run_retrieval embedder (auth_from_dto payload.auth) payload.arguments)

  unfoldable pub after_guard : Embedder Vec → Option ℕ → RetrieveRequest → Reply S.Score
  after_guard embedder (some status) request = refused status
  after_guard embedder none request = after_validation embedder (validate_request trim request)

  -- The request as the service answers it: the guard, the validation of the body, the route.
  unfoldable pub serve : Embedder Vec → Text → Option Text → RetrieveRequest → Reply S.Score
  serve embedder service_token authorization request =
      after_guard embedder (require_service_token service_token authorization) request
