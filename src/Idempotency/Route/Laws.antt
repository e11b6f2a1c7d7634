-- ===== src/Idempotency/Route/Laws.antt =====
-- What the query route promises to callers that send an Idempotency-Key.
use sentinal_rag.Idempotency.Service.{
  get_cached_lem, release_claim-frees, wait_loop-pending, wait_loop-lapsed,
}
use sentinal_rag.Base.Dict.{beq_refl}
use sentinal_rag.Base.{
  ◌<◌, ◌≤◌, if◌then◌else◌, Option-cases, is_none, is_some, ℕ, ◌≡◌, ◌∙◌, inl, inr, true, Option,
  none, some, arith,
}
use sentinal_rag.Redis.{Redis}
use sentinal_rag.Base.Text.{Text, text_eq}
use sentinal_rag.Idempotency.{
  Stored, pending, response, pending_ttl_seconds, result_ttl_seconds, poll_max_ticks, try_claim,
  store_result, get_cached, wait_for_result,
}
use sentinal_rag.Idempotency.Route.{raised, replayed, fresh, resolve, finish, with_key}

module _ {R : Type 0} (client : Redis (Stored R)) where
  open client use {Store, set, set_nx, get, delete, held, set_holds, set_nx_claims, set_nx_holds}

  -- A key that holds a response answers the request, without a run.
  with_key-held :
      (run : Store → Option R × Store) (pause : ℕ → ℕ → Store → Store) (key : Text) (s : Store)
      (r : R)
      → held s key ≡ some (response r)
      → is_some (get key s).0 ≡ true
      → (with_key client true run pause key s).0 ≡ replayed r
  unfolding with_key resolve
  with_key-held run pause key s r h up = ground (arith, (get_cached_lem client key s up).0)

  finish-held :
      (run : Store → Option R × Store) (key : Text) (s : Store) (r : R)
      → (run s).0 ≡ some r
      → (set key (response r) result_ttl_seconds (run s).1).0 ≡ some tt
      → ((finish client true run (some key) s).0 ≡ fresh r)
        × (held (finish client true run (some key) s).1 key ≡ some (response r))
  unfolding finish store_result
  finish-held run key s r e stored =
      ground
        (arith, set_holds key key (response r) result_ttl_seconds (run s).1 stored, beq_refl key)

  -- After a request that answered `r` and stored it (its SET did not raise), a request with the
  -- same key gets `r` back without running the orchestrator, if its GET does not raise.
  pub with_key-replays :
      (run again : Store → Option R × Store) (pause : ℕ → ℕ → Store → Store) (key : Text)
      (s : Store) (r : R)
      → (run s).0 ≡ some r
      → (set key (response r) result_ttl_seconds (run s).1).0 ≡ some tt
      → is_some (get key (finish client true run (some key) s).1).0 ≡ true
      → ((finish client true run (some key) s).0 ≡ fresh r)
        × ((with_key client true again pause key (finish client true run (some key) s).1).0
            ≡ replayed r)
  with_key-replays run again pause key s r e stored up =
      let (answered, kept) = finish-held run key s r e stored in
      (answered, with_key-held again pause key (finish client true run (some key) s).1 r kept up)

  module _ (run : Store → Option R × Store) (pause : ℕ → ℕ → Store → Store) (key : Text)
      (up : (t : Store) → is_some (get key t).0 ≡ true)
      (nx : (t : Store) → is_some (set_nx key pending pending_ttl_seconds t).0 ≡ true) where
    resolve-free :
        (s : Store) (p : ℕ → Store → Store)
        → held s key ≡ none
        → ((resolve client true p key s).0 ≡ none)
          × (held (resolve client true p key s).1 key ≡ none)
    unfolding resolve
    resolve-free s p free =
        let (looked, same) = get_cached_lem client key s (up s) in ground (arith, looked, same key)

    try_claim_lem :
        (s : Store)
        → ((try_claim client true key s).0 ≡ is_none (held s key))
          × (held (try_claim client true key s).1 key
              ≡ (if is_none (held s key) then some pending else held s key))
    unfolding try_claim
    try_claim_lem s = elim (Option-cases (set_nx key pending pending_ttl_seconds s).0) [
      | inl e ↦ absurd (ground (arith, nx s))
      | inr (b, e) ↦ ground (
        arith,
        set_nx_claims key pending pending_ttl_seconds s b e,
        set_nx_holds key key pending pending_ttl_seconds s b e,
        beq_refl key,
      )
    ]

    -- If GET and SET NX never raise, a request that finds its key free claims it: it runs the
    -- orchestrator on a store in which the key holds the marker.
    pub with_key-leader :
        (s : Store)
        → held s key ≡ none
        → (t : Store) × (with_key client true run pause key s ≡ finish client true run (some key) t)
          × (held t key ≡ some pending)
    unfolding with_key
    with_key-leader s free =
        let (none_yet, still) = resolve-free s (pause 0) free in
        let s₁ = (resolve client true (pause 0) key s).1 in
        let (claimed, marked) = try_claim_lem s₁ in
        ((try_claim client true key s₁).1, ground arith, ground arith)

  -- The marker of another request stands through the first wait (240 polls, 60 seconds), and is
  -- gone after the pause number `last` of the second. The pauses count down from 239, and those of
  -- a quarter second with number 120 or more are within the 90 seconds of a marker.
  pub record Lapses (pause : ℕ → ℕ → Store → Store) (key : Text) (last : ℕ) : Type 0 where
    pub in_second : last < poll_max_ticks
    pub in_time : 120 ≤ last
    pub first :
        (n : ℕ) (t : Store) → held t key ≡ some pending → held (pause 0 n t) key ≡ some pending
    pub second :
        (n : ℕ) (t : Store)
        → last < n
        → held t key ≡ some pending
        → held (pause 1 n t) key ≡ some pending
    pub gone : (t : Store) → held t key ≡ some pending → held (pause 1 last t) key ≡ none

  module _ (run : Store → Option R × Store) (pause : ℕ → ℕ → Store → Store) (key : Text) (s : Store)
      (last : ℕ) (up : (t : Store) → is_some (get key t).0 ≡ true)
      (nx : (t : Store) → is_some (set_nx key pending pending_ttl_seconds t).0 ≡ true)
      (lapses : Lapses pause key last) (leader : held s key ≡ some pending) where
    resolve-first :
        ((resolve client true (pause 0) key s).0 ≡ none)
        × (held (resolve client true (pause 0) key s).1 key ≡ some pending)
    unfolding resolve wait_for_result
    resolve-first =
        let (looked, same) = get_cached_lem client key s (up s) in
        let s' = (get_cached client true key s).1 in
        let p' : held s' key ≡ some pending = same key ∙ leader in
        let waited = wait_loop-pending client poll_max_ticks (pause 0) key s' up lapses.first p' in
        ground (arith, looked, leader, waited)

    resolve-second :
        (t : Store)
        → held t key ≡ some pending
        → ((resolve client true (pause 1) key t).0 ≡ none)
          × (held (resolve client true (pause 1) key t).1 key ≡ none)
    unfolding resolve wait_for_result
    resolve-second t p =
        let (looked, same) = get_cached_lem client key t (up t) in
        let t' = (get_cached client true key t).1 in
        let p' : held t' key ≡ some pending = same key ∙ p in
        let waited =
          wait_loop-lapsed client poll_max_ticks last (pause 1) key t' up lapses.second lapses.gone
            lapses.in_second p' in
        ground (arith, looked, p, waited)

    -- If GET and SET NX never raise, a request whose key is claimed by another one, whose marker
    -- stands through the first wait and is gone in the second, does not claim the key: it runs the
    -- orchestrator on a store in which the key is free.
    pub with_key-unclaimed :
        (t : Store) × (with_key client true run pause key s ≡ finish client true run (some key) t)
        × (held t key ≡ none)
    unfolding with_key
    with_key-unclaimed =
        let (none_yet, still) = resolve-first in
        let s₁ = (resolve client true (pause 0) key s).1 in
        let (claimed, marked) = try_claim_lem run pause key up nx s₁ in
        let s₂ = (try_claim client true key s₁).1 in
        let (again, free) = resolve-second s₂ (ground arith) in
        ((resolve client true (pause 1) key s₂).1, ground arith, free)

    -- If GET, SET NX and DEL never raise, and a request whose key is claimed by another one sees
    -- that marker stand through its first wait and lapse in the second, then it can delete the
    -- marker of a third request: when its own run fails and a third one claims the key during that
    -- run, it raises and the key is free again.
    pub with_key-unclaimed_fails :
        ((t : Store) → held t key ≡ none → ((run t).0 ≡ none) × (held (run t).1 key ≡ some pending))
        → ((t : Store) → (delete key t).0 ≡ some tt)
        → ((with_key client true run pause key s).0 ≡ raised)
          × (held (with_key client true run pause key s).1 key ≡ none)
    unfolding finish
    with_key-unclaimed_fails fails del =
        let (t, same, free) = with_key-unclaimed in
        let (failed, marked) = fails t free in
        rw same (
          ground (
            arith,
            release_claim-frees client key (run t).1 marked (up (run t).1)
                (del (get key (run t).1).1),
          ))
