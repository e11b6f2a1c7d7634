-- ===== src/Retrieval/HttpClient/Equivalence.antt =====
-- The client over HTTP returns what the client in process returns.
use sentinal_rag.Retrieval.HttpClient.Laws.{
  attempts-answers, IsWireResult, to_hybrid_result-build_response,
}
use sentinal_rag.Retrieval.Search.{
  Database, Outcome, returned, raised, and_then, EmbeddingResult, Embedder, precomputed,
  keyword_search, vector_search,
}
use sentinal_rag.Base.{
  Bool-cases, take, is_nil, ℕ, ◌-◌, ◌<◌, String, ◌≡◌, refl, ◌∙◌, inl, inr, Bool, true, false, none,
  some, List, [], ◌∷◌, arith, str_eq,
}
use sentinal_rag.Base.Dict.{nat_eq, string_eq}
use sentinal_rag.Base.Text.{Text, text_beq_iff}
use sentinal_rag.Retrieval.{Scores, RetrievalStage, Candidate}
use sentinal_rag.Retrieval.AccessFilter.{AuthContext}
use sentinal_rag.Retrieval.Rerank.{restage_candidates}
use sentinal_rag.Retrieval.InProcess.{
  Arguments, HybridRetrievalResult, hybrid_retrieve, retrieve_embedded, retrieve,
}
use sentinal_rag.Retrieval.Contracts.{RetrieveResponse, stage_value, build_response}
use sentinal_rag.Retrieval.Service.{
  bearer, require_service_token, restage_from, mode_metadata, ok, respond, run_embedded,
  run_retrieval, reply_of, after_validation, after_guard, serve,
}
use sentinal_rag.Retrieval.HttpClient.{done, attempts, parse_reply, http_retrieve}
use sentinal_rag.Retrieval.HttpClient.Delivery.{
  flaky, flaky-AllRetried, flaky-delivers, restage_from-restage, IsAccepted, wire_request,
  validate_request-wire, request_of-wire, auth_from_dto-wire,
}

-- The service notes the mode where the client in process leaves the metadata empty.
abbrev noted_if : {S : Type 0} → Bool → Bool → HybridRetrievalResult S → HybridRetrievalResult S
noted_if true v r = record r { metadata = mode_metadata "bm25" }
noted_if false true r = record r { metadata = mode_metadata "vector" }
noted_if false false r = r

abbrev pub noted : {S : Type 0} → Arguments → HybridRetrievalResult S → HybridRetrievalResult S
noted a r = noted_if (str_eq a.mode "bm25") (str_eq a.mode "vector") r

and_then_assoc :
    {A B C : Type 0} (o : Outcome A) (f : A → Outcome B) (g : B → Outcome C)
    → and_then o (λ x. and_then (f x) g) ≡ and_then (and_then o f) g
and_then_assoc (returned x) f g = refl
and_then_assoc (raised e) f g = refl

and_then_cong :
    {A B : Type 0} (o : Outcome A) (f g : A → Outcome B)
    → ((x : A) → f x ≡ g x)
    → and_then o f ≡ and_then o g
and_then_cong (returned x) f g h = h x
and_then_cong (raised e) f g h = refl

module _ (trim : String → String) {S : Scores} {Vec : Type 0} (db : Database S Vec)
    (embedder : Embedder Vec) (auth : AuthContext) (a : Arguments) where
  restaged :
      (cs : List (Candidate S.Score))
      → restage_from RetrievalStage.hybrid_merge 1 cs
        ≡ restage_candidates cs RetrievalStage.hybrid_merge
  unfolding restage_candidates
  restaged cs = restage_from-restage RetrievalStage.hybrid_merge 1 cs

  run_embedded-retrieve :
      (embedding : EmbeddingResult Vec)
      → run_embedded trim db embedder auth a embedding
        ≡ and_then
            (retrieve_embedded db embedder auth a embedding)
            (λ r. respond trim db (noted_if false (str_eq a.mode "vector") r))
  unfolding run_embedded retrieve_embedded
  run_embedded-retrieve embedding = elim (Bool-cases (str_eq a.mode "vector")) [
    | inl e ↦
        let found =
          vector_search db auth a.collection_ids (precomputed embedder embedding) a.query
            a.top_k_vector in
        rw e (
          and_then_cong found _ _ (λ cs. rw (restaged (take a.top_k_hybrid cs)) refl)
          ∙ and_then_assoc found _ _)
    | inr e ↦
        let found = hybrid_retrieve db 60 (precomputed embedder embedding) auth a in
        rw e (and_then_assoc found _ _)
  ]

  embedded-retrieve :
      (o : Outcome (EmbeddingResult Vec))
      → and_then o (run_embedded trim db embedder auth a)
        ≡ and_then
            (and_then o (retrieve_embedded db embedder auth a))
            (λ r. respond trim db (noted_if false (str_eq a.mode "vector") r))
  embedded-retrieve (returned embedding) = run_embedded-retrieve embedding
  embedded-retrieve (raised e) = refl

  -- The service runs the retrieval of the client in process, and notes the mode.
  run_retrieval-retrieve :
      run_retrieval trim db embedder auth a
      ≡ and_then (retrieve db embedder auth a) (λ r. respond trim db (noted a r))
  unfolding run_retrieval retrieve
  run_retrieval-retrieve = elim (Bool-cases (str_eq a.mode "bm25")) [
    | inl e ↦
        let found = keyword_search db auth a.collection_ids a.query a.top_k_bm25 in
        rw (e, restaged (take a.top_k_hybrid found)) refl
    | inr e ↦ rw e (embedded-retrieve (embedder.embed (a.query ∷ [])))
  ]

  module _ (trim_stage : (s : RetrievalStage) → trim (stage_value s) ≡ stage_value s) (token : Text)
      (max_retries k : ℕ) (r : HybridRetrievalResult S.Score) where
    guard-passes : is_nil token ≡ false → require_service_token token (some (bearer token)) ≡ none
    unfolding require_service_token
    guard-passes t = rw (t, (text_beq_iff (bearer token) (bearer token)).1 refl) refl

    noted-wire : IsWireResult trim r → IsWireResult trim (noted a r)
    noted-wire w = elim (Bool-cases (str_eq a.mode "bm25")) [
      | inl e ↦ rw e w
      | inr e ↦ elim (Bool-cases (str_eq a.mode "vector")) [
        | inl v ↦ rw (e, v) w
        | inr v ↦ rw (e, v) w
      ]
    ]

    reply_of-respond :
        (x : HybridRetrievalResult S.Score) (body : RetrieveResponse S.Score)
        → build_response trim x ≡ some body
        → reply_of trim db (respond trim db x) ≡ ok body
    reply_of-respond x body h = rw (respond, h) refl

    serve-replies :
        (body : RetrieveResponse S.Score)
        → is_nil token ≡ false
        → IsAccepted trim auth a
        → retrieve db embedder auth a ≡ returned r
        → build_response trim (noted a r) ≡ some body
        → serve trim db embedder token (some (bearer token)) (wire_request trim auth a) ≡ ok body
    unfolding serve after_guard after_validation
    serve-replies body t h run built =
        rw
          (
            guard-passes t,
            validate_request-wire trim auth a h,
            auth_from_dto-wire trim auth a h,
            run_retrieval-retrieve,
            run,
          )
          (reply_of-respond (noted a r) body built)

    -- When the request is one that the contract takes as it is, the first `k` attempts meet a 503,
    -- `k` is below the number of attempts, and the result of retrieval in process can be carried
    -- by the wire types, the client over HTTP returns that result, with the mode noted in the
    -- metadata of a bm25 or a vector result.
    pub http_retrieve-retrieve :
        is_nil token ≡ false
        → IsAccepted trim auth a
        → k < max_retries
        → retrieve db embedder auth a ≡ returned r
        → IsWireResult trim r
        → http_retrieve trim (flaky k (serve trim db embedder token)) token max_retries auth a
          ≡ done (noted a r)
    unfolding http_retrieve parse_reply
    http_retrieve-retrieve t h le run w =
        let (body, built, back) =
          to_hybrid_result-build_response trim trim_stage (noted a r) (noted-wire w) in
        let service = serve trim db embedder token in
        let request = wire_request trim auth a in
        let sent = some (bearer token) in
        let answered : attempts (flaky k service sent request) (max_retries - 1) 1 ≡ done body =
          attempts-answers (flaky k service sent request) (max_retries - 1) 1 k (done body)
            (omega arith) (flaky-AllRetried k service sent request k 1 (omega arith))
            (flaky-delivers k service sent request body (serve-replies body t h run built)) in
        rw (http_retrieve, h.2, request_of-wire trim auth a h, answered, parse_reply, back) refl
