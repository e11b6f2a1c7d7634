-- ===== src/Budget/Repository.antt =====
-- `TenantBudgetRepository` of apps/api/app/db/repositories/budgets.py: its two queries, over the
-- rows of `tenant_budgets` and `usage_records`. Times are whole numbers of one unit.
use sentinal_rag.Base.{
  ltb, leb, ◌==◌, if◌then◌else◌, Option-cases, All, All-imp, ℕ, ◌+◌, ◌≤◌, ◌<◌, ◌≡◌, inl, inr, ◌&&◌,
  Option, none, some, List, [], ◌∷◌, arith,
}
use sentinal_rag.Budget.Decision.{TenantBudget}

pub record UsageRow : Type 0 where
  pub tenant_id : ℕ
  pub created_at : ℕ
  pub total_cost_usd : ℕ

-- Of two candidates, `order_by(desc(current_period_end)).limit(1)` keeps the later end.
abbrev later : TenantBudget → Option TenantBudget → TenantBudget
later b none = b
later b (some c) = if ltb b.current_period_end c.current_period_end then c else b

-- `get_active`
unfoldable pub get_active : ℕ → ℕ → List TenantBudget → Option TenantBudget
get_active tenant_id now [] = none
get_active tenant_id now (b ∷ bs) =
    let rest = get_active tenant_id now bs in
    if (b.tenant_id == tenant_id) && ltb now b.current_period_end then some (later b rest) else rest

-- `period_spend`: the sum over the window from `period_start` to before `period_end`
unfoldable pub period_spend : ℕ → ℕ → ℕ → List UsageRow → ℕ
period_spend tenant_id period_start period_end [] = 0
period_spend tenant_id period_start period_end (u ∷ us) =
    (if (u.tenant_id == tenant_id) && leb period_start u.created_at && ltb u.created_at period_end
      then u.total_cost_usd
      else 0)
    + period_spend tenant_id period_start period_end us

abbrev EndsBy : ℕ → ℕ → TenantBudget → Type 0
EndsBy tenant t c = c.tenant_id ≡ tenant → c.current_period_end ≤ t

get_active-none :
    (tenant now : ℕ) (rows : List TenantBudget)
    → get_active tenant now rows ≡ none
    → All (EndsBy tenant now) rows
unfolding get_active
get_active-none tenant now [] h = tt
get_active-none tenant now (c ∷ rows) h = elim (Option-cases (get_active tenant now rows)) [
  | inl e ↦ ((λ t. ground arith), get_active-none tenant now rows e)
  | inr (b, e) ↦ absurd (ground arith)
]

-- The active budget that is found is the tenant's, has not ended, and ends no earlier than any
-- other row of the tenant.
pub get_active-latest :
    (tenant now : ℕ) (rows : List TenantBudget) (b : TenantBudget)
    → get_active tenant now rows ≡ some b
    → (b.tenant_id ≡ tenant)
      × (now < b.current_period_end)
      × All (λ c. c.tenant_id ≡ tenant → c.current_period_end ≤ b.current_period_end) rows
unfolding get_active
get_active-latest tenant now [] b h = absurd (ground arith)
get_active-latest tenant now (c ∷ rows) b h = elim (Option-cases (get_active tenant now rows)) [
  | inl e ↦
      let active : now < b.current_period_end = ground arith in
      let old = get_active-none tenant now rows e in
      (ground arith, active, ((λ t. ground arith), All-imp rows (λ x k t. omega (arith, k t)) old))
  | inr (b', e) ↦
      let (same, active, older) = get_active-latest tenant now rows b' e in
      let le : b'.current_period_end ≤ b.current_period_end = ground arith in
      (
        ground arith,
        omega arith,
        ((λ t. ground arith), All-imp rows (λ x k t. omega (arith, k t)) older),
      )
]
