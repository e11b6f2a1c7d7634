-- ===== src/Retrieval/HttpClient/Laws.antt =====
-- The attempts of the client, and what crosses the wire unchanged.
use sentinal_rag.Retrieval.InProcess.{HybridRetrievalResult}
use sentinal_rag.Base.Json.{end}
use sentinal_rag.Retrieval.Search.{UsageRecord}
use sentinal_rag.Base.{
  le→ltb, then_some, map_some, All, ℕ, zero, suc, ◌+◌, ◌≤◌, String, ◌≡◌, refl, sym, ap, ◌∙◌, false,
  Option, none, some, List, map, arith, str_eq,
}
use sentinal_rag.Base.Dict.{nat_eq, string_eq}
use sentinal_rag.Base.Each.{each, each-map, each-back, each-kept}
use sentinal_rag.Retrieval.{RetrievalStage, Candidate}
use sentinal_rag.Retrieval.Contracts.{
  CandidateOutput, EmbeddingUsageDto, RetrieveResponse, stage_value, stage_of, validate_candidate,
  validate_usage, to_out, usage_to_dto, build_response, validate_response,
}
use sentinal_rag.Retrieval.HttpClient.{
  candidate_from_dto, usage_from_dto, to_hybrid_result, Post, retries_exhausted, Result, failed,
  Attempt, left_with, retry, attempt, attempts,
}

module _ {S : Type 0} (post : ℕ → Post S) where
  -- Attempts `n`, `n + 1`, … up to `k` of them are retried.
  abbrev pub AllRetried : ℕ → ℕ → Type 0
  AllRetried n zero = Unit
  AllRetried n (suc k) = (attempt (post n) ≡ retry) × AllRetried (suc n) k

  attempt-at : (r : Attempt S) (i j : ℕ) → i ≡ j → attempt (post i) ≡ r → attempt (post j) ≡ r
  attempt-at r i j e h = ap (λ x. attempt (post x)) (sym e) ∙ h

  -- With `left` further attempts from attempt `n` on, the result is that of the first attempt that
  -- is not retried, if at most `left` attempts come before it.
  pub attempts-answers :
      (left n k : ℕ) (r : Result (RetrieveResponse S))
      → k ≤ left
      → AllRetried n k
      → attempt (post (n + k)) ≡ left_with r
      → attempts post left n ≡ r
  unfolding attempts
  attempts-answers zero n zero r le tried last =
      rw (attempts, attempt-at (left_with r) (n + 0) n (omega arith) last) refl
  attempts-answers zero n (suc k) r le tried last = let no : ⊥ = omega arith in elim no [ ]
  attempts-answers (suc left) n zero r le tried last =
      rw (attempts, attempt-at (left_with r) (n + 0) n (omega arith) last) refl
  attempts-answers (suc left) n (suc k) r le tried last =
      rw (attempts, tried.0)
        (attempts-answers left (suc n) k r (omega arith) tried.1
          (attempt-at (left_with r) (n + suc k) (suc n + k) (omega arith) last))

  -- If every attempt is retried, the client gives up.
  pub attempts-exhausted :
      (left n : ℕ) → AllRetried n (suc left) → attempts post left n ≡ failed retries_exhausted
  unfolding attempts
  attempts-exhausted zero n tried = rw (attempts, tried.0) refl
  attempts-exhausted (suc left) n tried =
      rw (attempts, tried.0) (attempts-exhausted left (suc n) tried.1)

same_usage :
    (u : UsageRecord) (x y z : Option String)
    → u.usage_type ≡ x
    → u.provider ≡ y
    → u.model_name ≡ z
    → u.total_tokens ≡ 0
    → u.metadata ≡ end
    → record u { usage_type = x; provider = y; model_name = z; total_tokens = 0; metadata = end }
      ≡ u
same_usage u x y z e f g t d = rw (sym e, sym f, sym g, sym t, sym d) refl

-- The candidate on the wire.
unfoldable pub out_of : {S : Type 0} → Candidate S → CandidateOutput S
out_of c = record {
  chunk_id = c.chunk_id;
  document_id = c.document_id;
  content = c.content;
  score = c.score;
  rank = c.rank;
  stage = stage_value c.stage;
  page_number = c.page_number;
  section_title = c.section_title;
  metadata = c.metadata;
}

stage_of-stage_value : (s : RetrievalStage) → stage_of (stage_value s) ≡ some s
unfolding stage_of
stage_of-stage_value RetrievalStage.bm25 = refl
stage_of-stage_value RetrievalStage.vector = refl
stage_of-stage_value RetrievalStage.hybrid_merge = refl
stage_of-stage_value RetrievalStage.rerank = refl

candidate_from_dto-out_of : {S : Type 0} (c : Candidate S) → candidate_from_dto (out_of c) ≡ some c
unfolding candidate_from_dto out_of
candidate_from_dto-out_of c = rw (stage_of-stage_value c.stage) refl

module _ (trim : String → String) where
  -- Texts that trimming keeps, a content that is not empty, a rank of at least 1.
  abbrev pub IsWire : {S : Type 0} → Candidate S → Type 0
  IsWire c =
      (trim c.content ≡ c.content)
      × (str_eq c.content "" ≡ false)
      × (1 ≤ c.rank)
      × (map_some trim c.section_title ≡ c.section_title)

  -- A usage that the wire type can carry: it has no place for a total or metadata.
  abbrev pub IsWireUsage : Option UsageRecord → Type 0
  IsWireUsage none = Unit
  IsWireUsage (some u) =
      (u.usage_type ≡ some "embedding")
      × ((p : String) × (u.provider ≡ some p) × (trim p ≡ p))
      × ((m : String) × (u.model_name ≡ some m) × (trim m ≡ m))
      × (u.total_tokens ≡ 0)
      × (u.metadata ≡ end)

  abbrev pub IsWireResult : {S : Type 0} → HybridRetrievalResult S → Type 0
  IsWireResult r =
      All IsWire r.bm25_candidates
      × All IsWire r.vector_candidates
      × All IsWire r.merged_candidates
      × IsWireUsage r.embedding_usage

module _ (trim : String → String)
    (trim_stage : (s : RetrievalStage) → trim (stage_value s) ≡ stage_value s) where
  validate_candidate-out_of :
      {S : Type 0} (c : Candidate S)
      → IsWire trim c
      → validate_candidate trim (out_of c) ≡ some (out_of c)
  unfolding validate_candidate out_of
  validate_candidate-out_of c w = rw (w.0, w.1, le→ltb c.rank 1 w.2, trim_stage c.stage, w.3) refl

  to_out-out_of : {S : Type 0} (c : Candidate S) → IsWire trim c → to_out trim c ≡ some (out_of c)
  unfolding to_out out_of
  to_out-out_of c w = validate_candidate-out_of c w

  validated :
      {S : Type 0} (cs : List (Candidate S))
      → All (IsWire trim) cs
      → each (validate_candidate trim) (map out_of cs) ≡ some (map out_of cs)
  validated cs h =
      each-kept (validate_candidate trim) out_of (IsWire trim) validate_candidate-out_of cs h

  read_back :
      {S : Type 0} (cs : List (Candidate S))
      → All (IsWire trim) cs
      → each candidate_from_dto (map out_of cs) ≡ some cs
  read_back cs h =
      each-back candidate_from_dto out_of (IsWire trim) (λ c _. candidate_from_dto-out_of c) cs h

  usage_round_trip :
      (o : Option UsageRecord)
      → IsWireUsage trim o
      → (dto : Option EmbeddingUsageDto) × (usage_to_dto trim o ≡ some dto)
        × (usage_from_dto (map_some (validate_usage trim) dto) ≡ o)
  unfolding usage_to_dto usage_from_dto validate_usage
  usage_round_trip none w = (none, refl, refl)
  usage_round_trip (some u) w =
      let (p, ep, tp) = w.1 in
      let (m, em, tm) = w.2 in
      (
        some (
            validate_usage trim (record {
              provider = p;
              model_name = m;
              input_tokens = u.input_tokens;
              output_tokens = u.output_tokens;
              total_cost_usd = u.total_cost_usd;
              latency_ms = u.latency_ms;
            })),
        rw (ep, em) refl,
        rw (tp, tp, tm, tm) (ap some (same_usage u _ _ _ w.0 ep em w.3 w.4)),
      )

  -- A result whose texts, ranks and usage the wire types can carry comes back from the wire as it
  -- was.
  pub to_hybrid_result-build_response :
      {S : Type 0} (r : HybridRetrievalResult S)
      → IsWireResult trim r
      → (body : RetrieveResponse S) × (build_response trim r ≡ some body)
        × (then_some (validate_response trim body) to_hybrid_result ≡ some r)
  unfolding build_response validate_response to_hybrid_result
  to_hybrid_result-build_response r w =
      let bs = r.bm25_candidates in
      let vs = r.vector_candidates in
      let ms = r.merged_candidates in
      let (usage, sent, back) = usage_round_trip r.embedding_usage w.3 in
      (
        record {
          bm25_candidates = map out_of bs;
          vector_candidates = map out_of vs;
          merged_candidates = map out_of ms;
          metadata = r.metadata;
          embedding_usage = usage;
        },
        rw
            (
              each-map (to_out trim) out_of (IsWire trim) to_out-out_of bs w.0,
              each-map (to_out trim) out_of (IsWire trim) to_out-out_of vs w.1,
              each-map (to_out trim) out_of (IsWire trim) to_out-out_of ms w.2,
              sent,
            )
            refl,
        rw
            (
              validated bs w.0,
              validated vs w.1,
              validated ms w.2,
              read_back bs w.0,
              read_back vs w.1,
              read_back ms w.2,
              back,
            )
            refl,
      )
