-- ===== src/Idempotency/Route.antt =====
-- `execute_query` of apps/api/app/api/v1/routes/query.py around the orchestrator, which is the
-- argument `run`: it answers, or `none` where it raised. The permission check and the
-- idempotency steps are the route's own; `pause` is what other clients do to the store while
-- this request sleeps between two polls of its first or second wait.
pub mod Laws
use sentinal_rag.Base.{if◌then◌else◌, is_nil, ℕ, Bool, ◌&&◌, not, Option, none, some}
use sentinal_rag.Base.Text.{Text, codes, starts_with}
use sentinal_rag.Redis.{Redis}
use sentinal_rag.Idempotency.{
  Stored, miss, running, found, cache_key, body_hash, try_claim, store_result, release_claim,
  get_cached, wait_for_result,
}

pub record Request : Type 0 where
  pub model : Text
  pub default_model : Text
  pub may_use_cloud : Bool
  pub tenant_id : Text
  pub idempotency_key : Option Text
  pub body : Text

pub data Outcome (R : Type 0) : Type 0 where
  forbidden raised : Outcome R
  replayed fresh : R → Outcome R

-- `payload.generation.model or settings.default_generation_model`
unfoldable pub requested_model : Request → Text
requested_model q = if is_nil q.model then q.default_model else q.model

unfoldable pub requires_cloud_model_permission : Text → Bool
requires_cloud_model_permission model = not (starts_with (codes "ollama/") model)

-- The key is absent without the header, and where the header is the empty text.
unfoldable pub request_key : (Text → Text) → Request → Option Text
request_key sha256_hexdigest q = elim q.idempotency_key [
  | none ↦ none
  | some k ↦
      if is_nil k then none else some (cache_key q.tenant_id k (body_hash sha256_hexdigest q.body))
]

module _ {R : Type 0} (client : Redis (Stored R)) (connected : Bool) where
  open client use {Store}

  -- `_resolve_idempotent_response`
  unfoldable pub resolve : (ℕ → Store → Store) → Text → Store → Option R × Store
  resolve pause key s =
      let (cached, s') = get_cached client connected key s in
      elim cached [
        | miss ↦ (none, s')
        | found r ↦ (some r, s')
        | running ↦ wait_for_result client pause connected key s'
      ]

  -- From the call of the orchestrator to the end of the handler.
  unfoldable pub finish : (Store → Option R × Store) → Option Text → Store → Outcome R × Store
  finish run key s =
      let (answer, s') = run s in
      elim answer [
        | none ↦ (raised, elim key [ none ↦ s' | some k ↦ release_claim client connected k s' ])
        | some r ↦ (fresh r, elim key [ none ↦ s' | some k ↦ store_result client connected k r s' ])
      ]

  unfoldable pub with_key :
      (Store → Option R × Store) → (ℕ → ℕ → Store → Store) → Text → Store → Outcome R × Store
  with_key run pause key s =
      let (cached, s₁) = resolve (pause 0) key s in
      elim cached [
        | some r ↦ (replayed r, s₁)
        | none ↦
            let (claimed, s₂) = try_claim client connected key s₁ in
            if claimed
            then finish run (some key) s₂
            else let (again, s₃) = resolve (pause 1) key s₂ in
              elim again [ some r ↦ (replayed r, s₃) | none ↦ finish run (some key) s₃ ]
      ]

  unfoldable pub execute_query :
      (Text → Text)
      → (Store → Option R × Store)
      → (ℕ → ℕ → Store → Store)
      → Request
      → Store
      → Outcome R × Store
  execute_query sha256_hexdigest run pause q s =
      if requires_cloud_model_permission (requested_model q) && not q.may_use_cloud
      then (forbidden, s)
      else elim (request_key sha256_hexdigest q) [
        | none ↦ finish run none s
        | some key ↦ with_key run pause key s
      ]
