-- ===== src/Budget/Reservation.antt =====
-- `BudgetReservationService` of apps/api/app/services/budget_reservation.py. The client is a
-- `Redis`; `connected` is false where the source has no client. An amount is stored as the text
-- of a Decimal, which reads back as the same amount; any other text is `not_decimal`.
pub mod Totals
use sentinal_rag.Base.{
  ◌==◌, if◌then◌else◌, is_some, ℕ, zero, suc, ◌+◌, max, Bool, false, ◌||◌, not, Option, none, some,
  List, [], ◌∷◌, ◌++◌,
}
use sentinal_rag.Base.Text.{Text, codes}
use sentinal_rag.Redis.{Redis}

pub data Stored : Type 0 where
  decimal : ℕ → Stored
  not_decimal : Stored

-- `_RESERVATION_CUSHION_SECONDS`
abbrev pub reservation_cushion_seconds : ℕ
reservation_cushion_seconds = 30

-- The identifiers are the texts of UUIDs.
unfoldable pub reservation_key : Text → Text → Text
reservation_key tenant_id request_id =
    codes "budget:resv:" ++ (tenant_id ++ (codes ":" ++ request_id))

unfoldable pub tenant_prefix : Text → Text
tenant_prefix tenant_id = codes "budget:resv:" ++ (tenant_id ++ codes ":*")

-- The loop over the values of one page: absent and unreadable values are skipped.
unfoldable pub add_values : ℕ → List (Option Stored) → ℕ
add_values total [] = total
add_values total (none ∷ vs) = add_values total vs
add_values total (some not_decimal ∷ vs) = add_values total vs
add_values total (some (decimal n) ∷ vs) = add_values (total + n) vs

module _ (client : Redis Stored) where
  open client use {Store, set, delete, scan, mget}

  -- `ttl_seconds` is the whole seconds of the source's float.
  unfoldable pub reserve : Bool → Text → Text → ℕ → ℕ → Store → Bool × Store
  reserve connected tenant_id request_id amount_usd ttl_seconds s =
      if not connected || (amount_usd == 0)
      then (false, s)
      else let ttl = max 1 (ttl_seconds + reservation_cushion_seconds) in
        let (r, s') = set (reservation_key tenant_id request_id) (decimal amount_usd) ttl s in
        (is_some r, s')

  unfoldable pub release : Bool → Text → Text → Store → Store
  release connected tenant_id request_id s =
      if not connected then s else (delete (reservation_key tenant_id request_id) s).1

  -- The values of one page: MGET is called only if there are keys.
  unfoldable pub fetch : List Text → Store → Option (List (Option Stored)) × Store
  fetch [] s = (some [], s)
  fetch (k ∷ ks) s = mget (k ∷ ks) s

  -- The `while True` loop; the result is `none` only where the fuel ran out, and a call that
  -- raises makes the total 0.
  unfoldable pub scan_loop : ℕ → Text → ℕ → ℕ → Store → Option ℕ × Store
  scan_loop zero pattern cursor total s = (none, s)
  scan_loop (suc fuel) pattern cursor total s =
      let (page, s₁) = scan cursor pattern s in
      elim page [
        | none ↦ (some 0, s₁)
        | some (next, keys) ↦
            let (values, s₂) = fetch keys s₁ in
            elim values [
              | none ↦ (some 0, s₂)
              | some vs ↦
                  let rest = scan_loop fuel pattern next (add_values total vs) s₂ in
                  if next == 0 then (some (add_values total vs), s₂) else rest
            ]
      ]

  unfoldable pub total_reserved : Bool → ℕ → Text → Store → Option ℕ × Store
  unfolding scan_loop
  total_reserved connected fuel tenant_id s =
      if not connected then (some 0, s) else scan_loop fuel (tenant_prefix tenant_id) 0 0 s
