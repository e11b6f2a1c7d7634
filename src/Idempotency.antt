-- ===== src/Idempotency.antt =====
-- `IdempotencyService` of apps/api/app/services/idempotency.py. What a key can hold is told apart
-- the way `get_cached` does: the marker "__pending__", the JSON text of a response, or a text
-- that is no JSON. The text of a response stands for what `json.loads` and `model_validate` read
-- back of it; JSON that is no response, which the service never stores, is left out. `connected`
-- is false where the source has no client.
pub mod Service
pub mod Route
pub mod Keys
use sentinal_rag.Base.Text.{Text, codes}
use sentinal_rag.Redis.{Redis}
use sentinal_rag.Base.{
  if◌then◌else◌, take, ℕ, zero, suc, ◌*◌, Bool, true, not, Option, none, some, ◌++◌,
}

pub data Stored (R : Type 0) : Type 0 where
  pending : Stored R
  response : R → Stored R
  unparseable : Stored R

-- What `get_cached` returns: `None`, `{"__pending__": True}`, or the response.
pub data Lookup (R : Type 0) : Type 0 where
  miss running : Lookup R
  found : R → Lookup R

-- `_PENDING_TTL_SECONDS`, `_RESULT_TTL_SECONDS`, `_POLL_MAX_TICKS`
abbrev pub pending_ttl_seconds : ℕ
pending_ttl_seconds = 90

abbrev pub result_ttl_seconds : ℕ
result_ttl_seconds = 24 * 60 * 60

abbrev pub poll_max_ticks : ℕ
poll_max_ticks = 240

unfoldable pub cache_key : Text → Text → Text → Text
cache_key tenant_id idempotency_key body_hash =
    codes "idempotency:"
    ++ (tenant_id ++ (codes ":" ++ (idempotency_key ++ (codes ":" ++ body_hash))))

-- `body_hash`: the first 32 digits of the hexadecimal SHA-256 digest
unfoldable pub body_hash : (Text → Text) → Text → Text
body_hash sha256_hexdigest body_bytes = take 32 (sha256_hexdigest body_bytes)

module _ {R : Type 0} (client : Redis (Stored R)) where
  open client use {Store, set, set_nx, get, delete}

  unfoldable pub try_claim : Bool → Text → Store → Bool × Store
  try_claim connected key s =
      if not connected
      then (true, s)
      else let (r, s') = set_nx key pending pending_ttl_seconds s in
        elim r [ none ↦ (true, s') | some claimed ↦ (claimed, s') ]

  unfoldable pub store_result : Bool → Text → R → Store → Store
  store_result connected key result s =
      if not connected then s else (set key (response result) result_ttl_seconds s).1

  unfoldable pub release_claim : Bool → Text → Store → Store
  release_claim connected key s =
      if not connected
      then s
      else let (r, s') = get key s in elim r [ some (some pending) ↦ (delete key s').1 | _ ↦ s' ]

  unfoldable pub get_cached : Bool → Text → Store → Lookup R × Store
  get_cached connected key s =
      if not connected
      then (miss, s)
      else let (r, s') = get key s in
        elim r [
          | none ↦ (miss, s')
          | some none ↦ (miss, s')
          | some (some pending) ↦ (running, s')
          | some (some (response result)) ↦ (found result, s')
          | some (some unparseable) ↦ (miss, s')
        ]

  -- The polls that are left, and what becomes of the store in each pause of 0.25 seconds: by other
  -- clients, and by the keys whose time ends.
  unfoldable pub wait_loop : ℕ → (ℕ → Store → Store) → Bool → Text → Store → Option R × Store
  wait_loop zero pause connected key s = (none, s)
  wait_loop (suc ticks) pause connected key s =
      let (cached, s') = get_cached connected key s in
      elim cached [
        | miss ↦ (none, s')
        | found result ↦ (some result, s')
        | running ↦ wait_loop ticks pause connected key (pause ticks s')
      ]

  unfoldable pub wait_for_result : (ℕ → Store → Store) → Bool → Text → Store → Option R × Store
  wait_for_result = wait_loop poll_max_ticks
