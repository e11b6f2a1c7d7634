-- ===== src/Retrieval/HttpClient/Delivery.antt =====
-- A network with passing failures, and the request that reaches the service.
use sentinal_rag.Retrieval.HttpClient.Laws.{AllRetried}
use sentinal_rag.Base.{
  leb, if◌then◌else◌, is_none, or_else, All, ℕ, zero, suc, ◌+◌, ◌≤◌, String, ◌≡◌, refl, true, false,
  ◌&&◌, ◌||◌, Option, some, List, [], ◌∷◌, map, arith, str_eq,
}
use sentinal_rag.Base.Dict.{nat_eq, string_eq}
use sentinal_rag.Base.Text.{Text, strip as strip_text}
use sentinal_rag.Base.Sort.{AllPairs}
use sentinal_rag.Retrieval.{RetrievalStage, Candidate}
use sentinal_rag.Retrieval.AccessFilter.{AuthContext}
use sentinal_rag.Retrieval.Rerank.{restage}
use sentinal_rag.Retrieval.InProcess.{Arguments}
use sentinal_rag.Retrieval.Contracts.{
  RetrieveRequest, RetrieveResponse, text_less, place_text, sorted_texts, within, validate_request,
}
use sentinal_rag.Retrieval.Service.{auth_from_dto, restage_from, Reply, ok}
use sentinal_rag.Retrieval.HttpClient.{
  Post, error_response, to_post, done, left_with, retry, attempt, request_of,
}

-- A network that lets the first `k` attempts meet a 503 and delivers the others to the service.
abbrev pub flaky :
    {S : Type 0}
    → ℕ
    → (Option Text → RetrieveRequest → Reply S)
    → Option Text
    → RetrieveRequest
    → ℕ
    → Post S
flaky k service authorization request n =
    if leb n k then error_response 503 else to_post (service authorization request)

module _ {S : Type 0} (k : ℕ) (service : Option Text → RetrieveRequest → Reply S)
    (authorization : Option Text) (request : RetrieveRequest) where
  pub flaky-retry : (n : ℕ) → n ≤ k → attempt (flaky k service authorization request n) ≡ retry
  unfolding attempt
  flaky-retry n h = let low : leb n k ≡ true = ground arith in rw low refl

  pub flaky-AllRetried :
      (i n : ℕ) → n + i ≤ suc k → AllRetried (flaky k service authorization request) n i
  flaky-AllRetried zero n h = tt
  flaky-AllRetried (suc i) n h =
      (flaky-retry n (omega arith), flaky-AllRetried i (suc n) (omega arith))

  pub flaky-delivers :
      (body : RetrieveResponse S)
      → service authorization request ≡ ok body
      → attempt (flaky k service authorization request (1 + k)) ≡ left_with (done body)
  unfolding attempt
  flaky-delivers body h = let past : leb (1 + k) k ≡ false = ground arith in rw (past, h) refl

pub restage_from-restage :
    {S : Type 0} (stage : RetrievalStage) (n : ℕ) (cs : List (Candidate S))
    → restage_from stage n cs ≡ restage stage n cs
unfolding restage_from restage
restage_from-restage stage n [] = refl
restage_from-restage stage n (c ∷ cs) = rw (restage_from-restage stage (suc n) cs) refl

-- Ascending and without duplicates, as a set of texts is kept.
abbrev pub AscendingTexts : List Text → Type 0
AscendingTexts = AllPairs (λ a b. text_less a b ≡ true)

pub sorted_texts-Ascending : (xs : List Text) → AscendingTexts xs → sorted_texts xs ≡ xs
unfolding sorted_texts place_text
sorted_texts-Ascending [] h = refl
sorted_texts-Ascending (x ∷ []) h = refl
sorted_texts-Ascending (x ∷ y ∷ ys) h = rw (sorted_texts-Ascending (y ∷ ys) h.1) (rw h.0.0 refl)

pub map-fixed : {A : Type 0} (f : A → A) (xs : List A) → All (λ x. f x ≡ x) xs → map f xs ≡ xs
map-fixed f [] h = refl
map-fixed f (x ∷ xs) h = rw (h.0, map-fixed f xs h.1) refl

module _ (trim : String → String) (auth : AuthContext) (a : Arguments) where
  -- Arguments that the contract takes as they are: trimmed texts, a mode that is known, bounds
  -- that are met, and permissions in the order of a set.
  abbrev pub IsAccepted : Type 0
  IsAccepted =
      (trim a.query ≡ a.query)
      × (str_eq a.query "" ≡ false)
      × ((str_eq a.mode "bm25" || str_eq a.mode "vector" || str_eq a.mode "hybrid") ≡ true)
      × ((within 1 200 a.top_k_bm25
            && within 1 200 a.top_k_vector
            && within 1 200 a.top_k_hybrid
            && (is_none a.ef_search || within 1 512 (or_else a.ef_search 1)))
          ≡ true)
      × (trim auth.email ≡ auth.email)
      × All (λ p. strip_text p ≡ p) auth.permissions
      × AscendingTexts auth.permissions

  abbrev pub wire_request : RetrieveRequest
  wire_request = record {
    auth = record {
      user_id = auth.user_id;
      tenant_id = auth.tenant_id;
      email = auth.email;
      permissions = auth.permissions;
    };
    arguments = a;
  }

  pub validate_request-wire : IsAccepted → validate_request trim wire_request ≡ some wire_request
  unfolding validate_request
  validate_request-wire h =
      rw (h.0, h.1, h.2, h.3, h.4, map-fixed strip_text auth.permissions h.5) refl

  pub request_of-wire : IsAccepted → request_of trim auth a ≡ some wire_request
  unfolding request_of
  request_of-wire h = rw (sorted_texts-Ascending auth.permissions h.6) (validate_request-wire h)

  pub auth_from_dto-wire : IsAccepted → auth_from_dto wire_request.auth ≡ auth
  unfolding auth_from_dto
  auth_from_dto-wire h = rw (sorted_texts-Ascending auth.permissions h.6) refl
