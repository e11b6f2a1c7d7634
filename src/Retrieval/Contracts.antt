-- ===== src/Retrieval/Contracts.antt =====
-- The wire types, packages/shared/python/sentinelrag_shared/contracts/retrieval.py, and the
-- conversions on both sides: apps/api/app/services/rag/client.py and apps/retrieval-service/
-- sentinelrag_retrieval_service/main.py. Pydantic validates what is built or read: a `none` is its
-- `ValidationError`; `trim` is what it does to each text. Metadata is passed on as it is.
use sentinal_rag.Base.{
  ltb, leb, ◌==◌, if◌then◌else◌, is_none, or_else, then_some, map_some, ℕ, String, Bool, true,
  false, ◌&&◌, ◌||◌, not, Option, none, some, List, [], ◌∷◌, map, str_eq,
}
use sentinal_rag.Base.Dict.{nat_eq, string_eq, Dict}
use sentinal_rag.Base.Each.{each}
use sentinal_rag.Base.Text.{Text, text_beq, strip as strip_text}
use sentinal_rag.Retrieval.{RetrievalStage, MetaValue, Candidate}
use sentinal_rag.Retrieval.Search.{UsageRecord}
use sentinal_rag.Retrieval.InProcess.{Arguments, HybridRetrievalResult}

pub record AuthContextDto : Type 0 where
  pub user_id : ℕ
  pub tenant_id : ℕ
  pub email : String
  pub permissions : List Text

pub record RetrieveRequest : Type 0 where
  pub auth : AuthContextDto
  pub arguments : Arguments

-- `RetrievalCandidateOutput`
pub record CandidateOutput (S : Type 0) : Type 0 where
  pub chunk_id : ℕ
  pub document_id : ℕ
  pub content : String
  pub score : S
  pub rank : ℕ
  pub stage : String
  pub page_number : Option ℕ
  pub section_title : Option String
  pub metadata : Dict String MetaValue

pub record EmbeddingUsageDto : Type 0 where
  pub provider : String
  pub model_name : String
  pub input_tokens : ℕ
  pub output_tokens : ℕ
  pub total_cost_usd : Option ℕ
  pub latency_ms : Option ℕ

pub record RetrieveResponse (S : Type 0) : Type 0 where
  pub bm25_candidates : List (CandidateOutput S)
  pub vector_candidates : List (CandidateOutput S)
  pub merged_candidates : List (CandidateOutput S)
  pub metadata : Dict String MetaValue
  pub embedding_usage : Option EmbeddingUsageDto

-- `RetrievalStage.value`, and `RetrievalStage(…)`, where `none` is the `ValueError`
abbrev pub stage_value : RetrievalStage → String
stage_value RetrievalStage.bm25 = "bm25"
stage_value RetrievalStage.vector = "vector"
stage_value RetrievalStage.hybrid_merge = "hybrid_merge"
stage_value RetrievalStage.rerank = "rerank"

unfoldable pub stage_of : String → Option RetrievalStage
stage_of s =
    if str_eq s "bm25"
    then some RetrievalStage.bm25
    else if str_eq s "vector"
    then some RetrievalStage.vector
    else if str_eq s "hybrid_merge"
    then some RetrievalStage.hybrid_merge
    else if str_eq s "rerank"
    then some RetrievalStage.rerank
    else none

-- `sorted(…)` of a set, and `frozenset(…)` of a list
abbrev pub text_less : Text → Text → Bool
text_less [] [] = false
text_less [] (b ∷ bs) = true
text_less (a ∷ as') [] = false
text_less (a ∷ as') (b ∷ bs) = ltb a b || ((a == b) && text_less as' bs)

unfoldable pub place_text : Text → List Text → List Text
place_text x [] = x ∷ []
place_text x (y ∷ ys) =
    let rest = place_text x ys in
    if text_less x y then x ∷ y ∷ ys else if text_beq x y then y ∷ ys else y ∷ rest

unfoldable pub sorted_texts : List Text → List Text
sorted_texts [] = []
sorted_texts (x ∷ xs) = place_text x (sorted_texts xs)

abbrev pub within : ℕ → ℕ → ℕ → Bool
within low high n = leb low n && leb n high

module _ (trim : String → String) where
  -- The validation of a `RetrieveRequest`; permissions are stripped as texts.
  unfoldable pub validate_request : RetrieveRequest → Option RetrieveRequest
  validate_request r =
      let a = r.arguments in
      let query = trim a.query in
      if not (str_eq query "")
        && (str_eq a.mode "bm25" || str_eq a.mode "vector" || str_eq a.mode "hybrid")
        && within 1 200 a.top_k_bm25
        && within 1 200 a.top_k_vector
        && within 1 200 a.top_k_hybrid
        && (is_none a.ef_search || within 1 512 (or_else a.ef_search 1))
      then some (record {
        auth = record r.auth {
          email = trim r.auth.email;
          permissions = map strip_text r.auth.permissions;
        };
        arguments = record a { query = query };
      })
      else none

  -- The validation of a `RetrievalCandidateOutput`.
  unfoldable pub validate_candidate : {S : Type 0} → CandidateOutput S → Option (CandidateOutput S)
  validate_candidate c =
      let content = trim c.content in
      if str_eq content "" || ltb c.rank 1
      then none
      else some (record c {
        content = content;
        stage = trim c.stage;
        section_title = map_some trim c.section_title;
      })

  -- The validation of an `EmbeddingUsageDTO`.
  unfoldable pub validate_usage : EmbeddingUsageDto → EmbeddingUsageDto
  validate_usage u = record u { provider = trim u.provider; model_name = trim u.model_name }

  -- `_to_out`
  unfoldable pub to_out : {S : Type 0} → Candidate S → Option (CandidateOutput S)
  to_out c = validate_candidate (record {
    chunk_id = c.chunk_id;
    document_id = c.document_id;
    content = c.content;
    score = c.score;
    rank = c.rank;
    stage = stage_value c.stage;
    page_number = c.page_number;
    section_title = c.section_title;
    metadata = c.metadata;
  })

  -- `_usage_to_dto`; a provider or a model name that is `None` fails the validation.
  unfoldable pub usage_to_dto : Option UsageRecord → Option (Option EmbeddingUsageDto)
  usage_to_dto none = some none
  usage_to_dto (some usage) = then_some usage.provider (λ provider.
      then_some usage.model_name (λ model_name. some (
        some (
          validate_usage (record {
            provider = provider;
            model_name = model_name;
            input_tokens = usage.input_tokens;
            output_tokens = usage.output_tokens;
            total_cost_usd = usage.total_cost_usd;
            latency_ms = usage.latency_ms;
          })))))

  -- `_build_response`
  unfoldable pub build_response :
      {S : Type 0} → HybridRetrievalResult S → Option (RetrieveResponse S)
  build_response r = then_some (each to_out r.bm25_candidates) (λ bs.
      then_some (each to_out r.vector_candidates) (λ vs.
        then_some (each to_out r.merged_candidates) (λ ms.
          then_some (usage_to_dto r.embedding_usage) (λ usage. some (record {
            bm25_candidates = bs;
            vector_candidates = vs;
            merged_candidates = ms;
            metadata = r.metadata;
            embedding_usage = usage;
          })))))

  -- `RetrieveResponse.model_validate`
  unfoldable pub validate_response : {S : Type 0} → RetrieveResponse S → Option (RetrieveResponse S)
  validate_response r = then_some (each validate_candidate r.bm25_candidates) (λ bs.
      then_some (each validate_candidate r.vector_candidates) (λ vs.
        then_some (each validate_candidate r.merged_candidates) (λ ms. some (record r {
          bm25_candidates = bs;
          vector_candidates = vs;
          merged_candidates = ms;
          embedding_usage = map_some validate_usage r.embedding_usage;
        }))))
