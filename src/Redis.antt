-- ===== src/Redis.antt =====
-- The Redis client that budget_reservation.py and idempotency.py use (redis.asyncio is a
-- third-party package): the calls made, and what the documentation says of them. A call returns
-- `none` when it raised; the store after a call that raised is left open. `held` is what the
-- server holds for a key, expired keys left out.
use sentinal_rag.Base.{if◌then◌else◌, is_none, ℕ, ◌≡◌, Bool, ◌&&◌, Option, none, some, List}
use sentinal_rag.Base.Dict.{◌===◌}
use sentinal_rag.Base.Text.{Text, text_eq}

pub record Redis (V : Type 0) : Type 1 where
  pub Store : Type 0
  -- SET key value EX ttl
  pub set : Text → V → ℕ → Store → Option (Unit {0}) × Store
  -- SET key value NX EX ttl
  pub set_nx : Text → V → ℕ → Store → Option Bool × Store
  pub get : Text → Store → Option (Option V) × Store
  pub delete : Text → Store → Option (Unit {0}) × Store
  -- SCAN cursor MATCH pattern
  pub scan : ℕ → Text → Store → Option (ℕ × List Text) × Store
  pub mget : List Text → Store → Option (List (Option V)) × Store
  pub held : Store → Text → Option V
  pub set_holds :
      (k j : Text) (v : V) (ttl : ℕ) (s : Store)
      → (set k v ttl s).0 ≡ some tt
      → held (set k v ttl s).1 j ≡ (if k === j then some v else held s j)
  pub set_nx_claims :
      (k : Text) (v : V) (ttl : ℕ) (s : Store) (b : Bool)
      → (set_nx k v ttl s).0 ≡ some b
      → b ≡ is_none (held s k)
  pub set_nx_holds :
      (k j : Text) (v : V) (ttl : ℕ) (s : Store) (b : Bool)
      → (set_nx k v ttl s).0 ≡ some b
      → held (set_nx k v ttl s).1 j ≡ (if b && (k === j) then some v else held s j)
  pub get_reads : (k : Text) (s : Store) (o : Option V) → (get k s).0 ≡ some o → o ≡ held s k
  pub get_keeps : (k j : Text) (s : Store) → held (get k s).1 j ≡ held s j
  pub delete_drops :
      (k j : Text) (s : Store)
      → (delete k s).0 ≡ some tt
      → held (delete k s).1 j ≡ (if k === j then none else held s j)
  pub scan_keeps :
      (cursor : ℕ) (pattern j : Text) (s : Store) → held (scan cursor pattern s).1 j ≡ held s j
  pub mget_keeps : (ks : List Text) (j : Text) (s : Store) → held (mget ks s).1 j ≡ held s j
