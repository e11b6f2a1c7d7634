-- ===== src/Retrieval/HttpClient.antt =====
-- `HttpRetrievalClient` of apps/api/app/services/rag/client.py. The network is a function from the
-- number of the attempt and the request; the waits between attempts are left out.
pub mod Laws
pub mod Delivery
pub mod Equivalence
use sentinal_rag.Base.{
  ◌==◌, if◌then◌else◌, then_some, ℕ, zero, suc, ◌-◌, String, Bool, ◌||◌, not, Option, none, some,
  str_eq,
}
use sentinal_rag.Base.Dict.{nat_eq, string_eq}
use sentinal_rag.Base.Each.{each}
use sentinal_rag.Base.Text.{Text}
use sentinal_rag.Retrieval.{Candidate}
use sentinal_rag.Retrieval.AccessFilter.{AuthContext}
use sentinal_rag.Base.Json.{end}
use sentinal_rag.Retrieval.Search.{UsageRecord}
use sentinal_rag.Retrieval.InProcess.{Arguments, HybridRetrievalResult}
use sentinal_rag.Retrieval.Service.{bearer, Reply, ok, refused}
use sentinal_rag.Retrieval.Contracts.{
  RetrieveRequest, CandidateOutput, EmbeddingUsageDto, RetrieveResponse, stage_of, sorted_texts,
  within, validate_request, validate_response,
}

-- `_candidate_from_dto`
unfoldable pub candidate_from_dto : {S : Type 0} → CandidateOutput S → Option (Candidate S)
candidate_from_dto dto = then_some (stage_of dto.stage) (λ stage. some (record {
  chunk_id = dto.chunk_id;
  document_id = dto.document_id;
  content = dto.content;
  score = dto.score;
  rank = dto.rank;
  stage = stage;
  page_number = dto.page_number;
  section_title = dto.section_title;
  metadata = dto.metadata;
}))

-- `_usage_from_dto`
unfoldable pub usage_from_dto : Option EmbeddingUsageDto → Option UsageRecord
usage_from_dto none = none
usage_from_dto (some dto) = some (record {
  usage_type = some "embedding";
  provider = some dto.provider;
  model_name = some dto.model_name;
  input_tokens = dto.input_tokens;
  output_tokens = dto.output_tokens;
  total_tokens = 0;
  total_cost_usd = dto.total_cost_usd;
  latency_ms = dto.latency_ms;
  metadata = end;
})

-- `_to_hybrid_result`
unfoldable pub to_hybrid_result :
    {S : Type 0} → RetrieveResponse S → Option (HybridRetrievalResult S)
to_hybrid_result payload = then_some (each candidate_from_dto payload.bm25_candidates) (λ bs.
    then_some (each candidate_from_dto payload.vector_candidates) (λ vs.
      then_some (each candidate_from_dto payload.merged_candidates) (λ ms. some (record {
        bm25_candidates = bs;
        vector_candidates = vs;
        merged_candidates = ms;
        metadata = payload.metadata;
        embedding_usage = usage_from_dto payload.embedding_usage;
      }))))

-- What one `post` comes to: an `httpx.RequestError`, or a response. A body is there under a
-- successful status.
pub data Post (S : Type 0) : Type 0 where
  request_error : Post S
  response : ℕ → RetrieveResponse S → Post S
  error_response : ℕ → Post S

-- The service's answer as the network delivers it.
abbrev pub to_post : {S : Type 0} → Reply S → Post S
to_post (ok body) = response 200 body
to_post (refused status) = error_response status

-- The client's errors: the messages of `RetrievalClientError`, a `ValidationError`, and the
-- `ValueError` of an unknown stage.
pub data ClientError : Type 0 where
  unsupported_mode : ClientError
  retries_exhausted : ClientError
  status_error : ℕ → ClientError
  unreachable : ClientError
  invalid : ClientError

pub data Result (A : Type 0) : Type 0 where
  done : A → Result A
  failed : ClientError → Result A

-- `_RETRYABLE_STATUS`
abbrev pub is_retryable : ℕ → Bool
is_retryable status = (status == 502) || (status == 503) || (status == 504)

-- What the body of the attempt does: leave the loop with a response or an error, or be retried.
pub data Attempt (S : Type 0) : Type 0 where
  left_with : Result (RetrieveResponse S) → Attempt S
  retry : Attempt S

unfoldable pub attempt : {S : Type 0} → Post S → Attempt S
attempt request_error = left_with (failed unreachable)
attempt (response status body) =
    if is_retryable status
    then retry
    else if within 200 299 status
    then left_with (done body)
    else left_with (failed (status_error status))
attempt (error_response status) =
    if is_retryable status then retry else left_with (failed (status_error status))

-- `AsyncRetrying` from attempt `n` on, with `left` further attempts.
unfoldable pub attempts : {S : Type 0} → (ℕ → Post S) → ℕ → ℕ → Result (RetrieveResponse S)
attempts post zero n = elim (attempt (post n)) [
  | left_with r ↦ r
  | retry ↦ failed retries_exhausted
]
attempts post (suc left) n =
    let rest = attempts post left (suc n) in
    elim (attempt (post n)) [ left_with r ↦ r | retry ↦ rest ]

module _ (trim : String → String) where
  -- The request, `AuthContextDTO(…)` and `RetrieveRequest(…)`.
  unfoldable pub request_of : AuthContext → Arguments → Option RetrieveRequest
  request_of auth a = validate_request trim (record {
    auth = record {
      user_id = auth.user_id;
      tenant_id = auth.tenant_id;
      email = auth.email;
      permissions = sorted_texts auth.permissions;
    };
    arguments = a;
  })

  -- The last two lines.
  unfoldable pub parse_reply :
      {S : Type 0} → Result (RetrieveResponse S) → Result (HybridRetrievalResult S)
  parse_reply (failed e) = failed e
  parse_reply (done body) = elim (then_some (validate_response trim body) to_hybrid_result) [
    | none ↦ failed invalid
    | some r ↦ done r
  ]

  -- `HttpRetrievalClient.retrieve`; there is at least one attempt.
  unfoldable pub http_retrieve :
      {S : Type 0}
      → (Option Text → RetrieveRequest → ℕ → Post S)
      → Text
      → ℕ
      → AuthContext
      → Arguments
      → Result (HybridRetrievalResult S)
  http_retrieve network service_token max_retries auth a =
      if not (str_eq a.mode "bm25" || str_eq a.mode "vector" || str_eq a.mode "hybrid")
      then failed unsupported_mode
      else elim (request_of auth a) [
        | none ↦ failed invalid
        | some request ↦
            parse_reply
              (attempts (network (some (bearer service_token)) request) (max_retries - 1) 1)
      ]
