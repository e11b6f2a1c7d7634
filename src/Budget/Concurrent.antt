-- ===== src/Budget/Concurrent.antt =====
-- Concurrent queries of one tenant at the budget gate: `BudgetStage.run` first reads spend and
-- reservations (`check_budget`) and only afterwards writes its own reservation (`reserve`), so
-- steps of other requests may come between. A request is known by its number.
use sentinal_rag.Base.{
  ℕ, ◌+◌, ◌*◌, ◌≤◌, ◌<◌, String, ◌≡◌, refl, ◌≢◌, Bool, true, false, none, some, [], ◌∷◌, arith,
}
use sentinal_rag.Base.Dict.{nat_eq, Dict, lookup, erase}
use sentinal_rag.Budget.Decision.{TenantBudget, deny, check_budget}

-- The tenant's budget, its booked spend, the live reservations, and the requests that have
-- passed the check and have not yet reserved.
pub record Gate : Type 0 where
  pub budget : TenantBudget
  pub spend : ℕ
  pub live : Dict ℕ ℕ
  pub checked : Dict ℕ ℕ

unfoldable pub total : Dict ℕ ℕ → ℕ
total [] = 0
total ((r, e) ∷ d) = e + total d

abbrev pub passes : Gate → ℕ → String → Bool
passes g estimate model =
    elim (check_budget (some g.budget) g.spend (total g.live) estimate model).action [
      | deny ↦ false
      | _ ↦ true
    ]

-- The steps that the requests of the tenant can take, in any order.
pub data Step : Gate → Gate → Type 0 where
  -- `check_budget` does not deny
  check :
      (g : Gate) (r e : ℕ) (model : String)
      → passes g e model ≡ true
      → Step g (record g { checked = (r, e) ∷ g.checked })
  -- `reserve` of a request that has passed, whichever it is
  place :
      (g : Gate) (r e : ℕ)
      → lookup r g.checked ≡ some e
      → lookup r g.live ≡ none
      → Step g (record g { live = (r, e) ∷ g.live; checked = erase r g.checked })
  -- Redis fails in `reserve`; the stage swallows it and the request goes on without a reservation
  unreserved :
      (g : Gate) (r e : ℕ)
      → lookup r g.checked ≡ some e
      → Step g (record g { checked = erase r g.checked })
  -- the usage row is booked, and the reservation released if there is one
  settle :
      (g : Gate) (r cost : ℕ) → Step g (record g { spend = g.spend + cost; live = erase r g.live })
  -- the reservation is released after a failure, or its TTL ends
  lapse : (g : Gate) (r : ℕ) → Step g (record g { live = erase r g.live })

pub data Reach (g : Gate) : Gate → Type 0 where
  here : Reach g g
  next : {h k : Gate} → Reach g h → Step h k → Reach g k

-- Spend and reservations stay below the hard share of the limit.
abbrev pub IsCapped : Gate → Type 0
IsCapped g = (g.spend + total g.live) * 100 < g.budget.limit_usd * g.budget.hard_threshold_pct

-- As the stage is written, two requests can both pass before either reserves: whenever each
-- estimate alone stays below the hard share and both together reach it, a state is reachable in
-- which both are live and the cap is broken, before any spend is booked.
pub race_breaks_cap :
    (g : Gate) (r₁ e₁ r₂ e₂ : ℕ) (m₁ m₂ : String)
    → g.checked ≡ []
    → passes g e₁ m₁ ≡ true
    → passes g e₂ m₂ ≡ true
    → r₁ ≢ r₂
    → lookup r₁ g.live ≡ none
    → lookup r₂ g.live ≡ none
    → g.budget.limit_usd * g.budget.hard_threshold_pct ≤ (g.spend + total g.live + e₁ + e₂) * 100
    → (h : Gate) × Reach g h
      × (lookup r₁ h.live ≡ some e₁)
      × (lookup r₂ h.live ≡ some e₂)
      × (h.spend ≡ g.spend)
      × (¬ IsCapped h)
unfolding total lookup erase
race_breaks_cap g r₁ e₁ r₂ e₂ m₁ m₂ empty p₁ p₂ ne f₁ f₂ over =
    let g₁ : Gate = record g { checked = (r₁, e₁) ∷ g.checked } in
    let g₂ : Gate = record g₁ { checked = (r₂, e₂) ∷ g₁.checked } in
    let g₃ : Gate = record g₂ { live = (r₂, e₂) ∷ g.live; checked = erase r₂ g₂.checked } in
    let g₄ : Gate = record g₃ { live = (r₁, e₁) ∷ g₃.live; checked = erase r₁ g₃.checked } in
    (
      g₄,
      next
          (next (next (next here (check g r₁ e₁ m₁ p₁)) (check g₁ r₂ e₂ m₂ p₂))
            (place g₂ r₂ e₂ (ground arith) f₂))
          (place g₃ r₁ e₁ (ground arith) (ground arith)),
      ground arith,
      ground arith,
      refl,
      omega arith,
    )
