-- ===== src/Budget/Reservation/Totals.antt =====
-- What `total_reserved` returns, and what a reservation leaves in the store.
use sentinal_rag.Base.Dict.{◌===◌}
use sentinal_rag.Base.{
  if◌then◌else◌, length, ℕ, zero, suc, ◌+◌, ◌≤◌, ◌<◌, max, ◌≡◌, ap, ◌∙◌, ◌≢◌, Bool, true, Option,
  none, some, List, [], ◌∷◌, arith,
}
use sentinal_rag.Base.Text.{Text, text_eq}
use sentinal_rag.Redis.{Redis}
use sentinal_rag.Budget.Reservation.{
  Stored, decimal, not_decimal, reservation_cushion_seconds, reservation_key, tenant_prefix,
  add_values, reserve, release, fetch, scan_loop, total_reserved,
}

-- The amounts of a page, and of all pages.
unfoldable pub page_sum : List (Option Stored) → ℕ
page_sum [] = 0
page_sum (none ∷ vs) = page_sum vs
page_sum (some not_decimal ∷ vs) = page_sum vs
page_sum (some (decimal n) ∷ vs) = n + page_sum vs

unfoldable pub pages_sum : List (List (Option Stored)) → ℕ
unfolding page_sum
pages_sum [] = 0
pages_sum (p ∷ ps) = page_sum p + pages_sum ps

add_values-eq : (total : ℕ) (vs : List (Option Stored)) → add_values total vs ≡ total + page_sum vs
unfolding add_values page_sum
add_values-eq total [] = omega arith
add_values-eq total (none ∷ vs) = add_values-eq total vs
add_values-eq total (some not_decimal ∷ vs) = add_values-eq total vs
add_values-eq total (some (decimal n) ∷ vs) = omega (arith, add_values-eq (total + n) vs)

module _ (client : Redis Stored) where
  open client use {Store, scan, held, set_holds, delete_drops, set, delete}

  -- A full iteration of SCAN over an unchanged store: every call succeeds, and the pages hold
  -- the values of the keys returned.
  pub data Iterates (pattern : Text) (s : Store) : ℕ → List (List (Option Stored)) → Type 0 where
    last :
        {cursor : ℕ} {keys : List Text} {vs : List (Option Stored)}
        → scan cursor pattern s ≡ (some (0, keys), s)
        → fetch client keys s ≡ (some vs, s)
        → Iterates pattern s cursor (vs ∷ [])
    more :
        {cursor next : ℕ} {keys : List Text} {vs : List (Option Stored)}
        {rest : List (List (Option Stored))}
        → next ≢ 0
        → scan cursor pattern s ≡ (some (next, keys), s)
        → fetch client keys s ≡ (some vs, s)
        → Iterates pattern s next rest
        → Iterates pattern s cursor (vs ∷ rest)

  scan_loop-Iterates :
      (fuel total : ℕ) (pattern : Text) (s : Store) {cursor : ℕ}
      {pages : List (List (Option Stored))}
      → Iterates pattern s cursor pages
      → length pages ≤ fuel
      → scan_loop client fuel pattern cursor total s ≡ (some (total + pages_sum pages), s)
  unfolding scan_loop pages_sum
  scan_loop-Iterates zero total pattern s (last p q) h = absurd (omega arith)
  scan_loop-Iterates zero total pattern s (more n p q r) h = absurd (omega arith)
  scan_loop-Iterates (suc fuel) total pattern s (last {vs = vs} p q) h =
      rw (p, scan_loop) (ground (arith, add_values-eq total vs))
  scan_loop-Iterates (suc fuel) total pattern s (more {next = next} {vs = vs} n p q r) h = ground (
    arith,
    add_values-eq total vs,
    scan_loop-Iterates fuel (add_values total vs) pattern s r (omega arith),
  )

  -- With a client, an unchanged store that a full SCAN iterates in `pages`, and one round of
  -- fuel for each page, the total is the sum of the amounts on the pages, unreadable and absent
  -- values left out.
  pub total_reserved-eq-pages_sum :
      (fuel : ℕ) (tenant_id : Text) (s : Store) {pages : List (List (Option Stored))}
      → Iterates (tenant_prefix tenant_id) s 0 pages
      → length pages ≤ fuel
      → total_reserved client true fuel tenant_id s ≡ (some (pages_sum pages), s)
  unfolding total_reserved
  total_reserved-eq-pages_sum fuel tenant_id s it h =
      scan_loop-Iterates fuel 0 (tenant_prefix tenant_id) s it h
      ∙ ap (λ (n : ℕ). (some n, s)) (omega arith)

  -- A scan that raises on its first call makes the gate see no reservations at all.
  pub total_reserved-raised :
      (fuel : ℕ) (tenant_id : Text) (s : Store)
      → (scan 0 (tenant_prefix tenant_id) s).0 ≡ none
      → (total_reserved client true (suc fuel) tenant_id s).0 ≡ some 0
  unfolding total_reserved scan_loop
  total_reserved-raised fuel tenant_id s e = rw (e, scan_loop)

  -- When `reserve` returns true, the request's key holds the amount, every other key holds what
  -- it held, and the amount was positive.
  pub reserve-held :
      (connected : Bool) (tenant request : Text) (amount ttl : ℕ) (s : Store) (j : Text)
      → (reserve client connected tenant request amount ttl s).0 ≡ true
      → (held (reserve client connected tenant request amount ttl s).1 j
          ≡ (if reservation_key tenant request === j then some (decimal amount) else held s j))
        × (0 < amount)
  unfolding reserve
  reserve-held connected tenant request amount ttl s j h = ground (
    arith,
    set_holds (reservation_key tenant request) j (decimal amount)
        (max 1 (ttl + reservation_cushion_seconds)) s,
  )

  -- After a reservation that was placed and a release whose DEL did not raise, every other key
  -- holds what it held before both, and the request's key holds nothing.
  pub release-reserve :
      (tenant request : Text) (amount ttl : ℕ) (s : Store) (j : Text)
      → (reserve client true tenant request amount ttl s).0 ≡ true
      → (delete
          (reservation_key tenant request)
          (reserve client true tenant request amount ttl s).1).0
        ≡ some tt
      → held
          (release client true tenant request (reserve client true tenant request amount ttl s).1)
          j
        ≡ (if reservation_key tenant request === j then none else held s j)
  unfolding release
  release-reserve tenant request amount ttl s j h d = ground (
    arith,
    reserve-held true tenant request amount ttl s j h,
    delete_drops (reservation_key tenant request) j
        (reserve client true tenant request amount ttl s).1 d,
  )
