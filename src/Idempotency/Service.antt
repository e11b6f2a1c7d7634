-- ===== src/Idempotency/Service.antt =====
-- The laws of one call of the idempotency service.
use sentinal_rag.Base.{
  Bool-cases, ltb, ◌<◌, subst, sym, Option-cases, is_some, ℕ, zero, suc, ◌≡◌, refl, ap, ◌∙◌, ◌≢◌,
  inl, inr, Bool, true, none, some, arith,
}
use sentinal_rag.Base.Dict.{beq_refl}
use sentinal_rag.Redis.{Redis}
use sentinal_rag.Base.Text.{Text, text_eq}
use sentinal_rag.Idempotency.{
  Stored, pending, response, unparseable, miss, running, found, release_claim, get_cached,
  wait_loop,
}

module _ {R : Type 0} (client : Redis (Stored R)) where
  open client use {
    Store, set, set_nx, get, delete, held, set_nx_claims, get_reads, get_keeps, delete_drops,
  }

  -- What GET reads where it does not raise.
  pub get-held :
      (key : Text) (s : Store) → is_some (get key s).0 ≡ true → (get key s).0 ≡ some (held s key)
  get-held key s h = elim (Option-cases (get key s).0) [
    | inl e ↦ cc (ap is_some e)
    | inr (o, e) ↦ e ∙ ap some (get_reads key s o e)
  ]

  -- Where GET does not raise, `get_cached` tells apart exactly what the server holds, and no
  -- key changes.
  pub get_cached_lem :
      (key : Text) (s : Store)
      → is_some (get key s).0 ≡ true
      → ((get_cached client true key s).0 ≡ elim (held s key) [
        | none ↦ miss
        | some v ↦ elim v [ pending ↦ running | response r ↦ found r | unparseable ↦ miss ]
      ])
        × ((j : Text) → held (get_cached client true key s).1 j ≡ held s j)
  unfolding get_cached
  get_cached_lem key s h =
      (ground (arith, get-held key s h), λ j. ground (arith, get_keeps key j s))

  -- `release_claim` clobbers no stored response: unless the key holds the pending marker, every
  -- key holds afterwards what it held before, whether or not a call raised.
  pub release_claim-keeps :
      (connected : Bool) (key j : Text) (s : Store)
      → held s key ≢ some pending
      → held (release_claim client connected key s) j ≡ held s j
  unfolding release_claim
  release_claim-keeps connected key j s h = elim (Option-cases (get key s).0) [
    | inl e ↦ ground (arith, get_keeps key j s)
    | inr (o, e) ↦ ground (arith, get_keeps key j s, get_reads key s o e)
  ]

  -- A claim that is released while its marker stands is free again, if GET and DEL do not raise.
  pub release_claim-frees :
      (key : Text) (s : Store)
      → held s key ≡ some pending
      → is_some (get key s).0 ≡ true
      → (delete key (get key s).1).0 ≡ some tt
      → held (release_claim client true key s) key ≡ none
  unfolding release_claim
  release_claim-frees key s p h d =
      ground (arith, get-held key s h, delete_drops key key (get key s).1 d, beq_refl key)

  get_cached-found :
      (connected : Bool) (key : Text) (s : Store) (r : R)
      → (get_cached client connected key s).0 ≡ found r
      → held (get_cached client connected key s).1 key ≡ some (response r)
  unfolding get_cached
  get_cached-found connected key s r h = elim (Option-cases (get key s).0) [
    | inl e ↦ absurd (ground arith)
    | inr (o, e) ↦ ground (arith, get_keeps key key s, get_reads key s o e)
  ]

  -- A wait returns a response only if the key holds that response when the wait ends.
  pub wait_loop-found :
      (ticks : ℕ) (pause : ℕ → Store → Store) (connected : Bool) (key : Text) (s : Store) (r : R)
      → (wait_loop client ticks pause connected key s).0 ≡ some r
      → held (wait_loop client ticks pause connected key s).1 key ≡ some (response r)
  unfolding wait_loop
  wait_loop-found zero pause connected key s r h = cc
  wait_loop-found (suc ticks) pause connected key s r h =
      let s' = (get_cached client connected key s).1 in
      ground (
        arith,
        get_cached-found connected key s r,
        wait_loop-found ticks pause connected key (pause ticks s') r,
      )

  -- While the marker stands at every poll and GET does not raise, the wait gives up after its
  -- polls, and the marker still stands.
  pub wait_loop-pending :
      (ticks : ℕ) (pause : ℕ → Store → Store) (key : Text) (s : Store)
      → ((t : Store) → is_some (get key t).0 ≡ true)
      → ((n : ℕ) (t : Store) → held t key ≡ some pending → held (pause n t) key ≡ some pending)
      → held s key ≡ some pending
      → ((wait_loop client ticks pause true key s).0 ≡ none)
        × (held (wait_loop client ticks pause true key s).1 key ≡ some pending)
  unfolding wait_loop
  wait_loop-pending zero pause key s up keep p = (refl, p)
  wait_loop-pending (suc ticks) pause key s up keep p =
      let (looked, same) = get_cached_lem key s (up s) in
      let s' = (get_cached client true key s).1 in
      let p' : held s' key ≡ some pending = same key ∙ p in
      let ih = wait_loop-pending ticks pause key (pause ticks s') up keep (keep ticks s' p') in
      ground (arith, looked, ih)

  -- A key that is free is left by the wait at once.
  wait_loop-free :
      (ticks : ℕ) (pause : ℕ → Store → Store) (key : Text) (s : Store)
      → ((t : Store) → is_some (get key t).0 ≡ true)
      → held s key ≡ none
      → ((wait_loop client ticks pause true key s).0 ≡ none)
        × (held (wait_loop client ticks pause true key s).1 key ≡ none)
  unfolding wait_loop
  wait_loop-free zero pause key s up free = (refl, free)
  wait_loop-free (suc ticks) pause key s up free =
      let (looked, same) = get_cached_lem key s (up s) in ground (arith, looked, same key)

  -- If the marker stands until it is gone after the pause number `last`, and GET does not raise,
  -- the wait ends without a response and leaves the key free.
  pub wait_loop-lapsed :
      (ticks last : ℕ) (pause : ℕ → Store → Store) (key : Text) (s : Store)
      → ((t : Store) → is_some (get key t).0 ≡ true)
      → ((n : ℕ) (t : Store)
          → last < n
          → held t key ≡ some pending
          → held (pause n t) key ≡ some pending)
      → ((t : Store) → held t key ≡ some pending → held (pause last t) key ≡ none)
      → last < ticks
      → held s key ≡ some pending
      → ((wait_loop client ticks pause true key s).0 ≡ none)
        × (held (wait_loop client ticks pause true key s).1 key ≡ none)
  unfolding wait_loop
  wait_loop-lapsed zero last pause key s up keep lapse below p = absurd (omega arith)
  wait_loop-lapsed (suc ticks) last pause key s up keep lapse below p =
      let (looked, same) = get_cached_lem key s (up s) in
      let s' = (get_cached client true key s).1 in
      let p' : held s' key ≡ some pending = same key ∙ p in
      elim (Bool-cases (ltb last ticks)) [
        | inl before ↦
            let more : last < ticks = ground (arith, before) in
            let ih =
              wait_loop-lapsed ticks last pause key (pause ticks s') up keep lapse more
                (keep ticks s' more p') in
            ground (arith, looked, ih)
        | inr now ↦
            let same_tick : ticks ≡ last = ground (arith, now, below) in
            let gone : held (pause ticks s') key ≡ none =
              subst (λ n. held (pause n s') key ≡ none) (sym same_tick) (lapse s' p') in
            ground (arith, looked, wait_loop-free ticks pause key (pause ticks s') up gone)
      ]
