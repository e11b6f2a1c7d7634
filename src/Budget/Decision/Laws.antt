-- ===== src/Budget/Decision/Laws.antt =====
-- What the budget gate decides, for every spend, reservation total and estimate.
use sentinal_rag.Base.{
  refl, Option, none, eq_iff, Option-cases, inl, inr, ℕ, ◌+◌, ◌*◌, ◌≤◌, ◌<◌, String, ◌≡◌, ◌≢◌, ◌↔◌,
  some, arith,
}
use sentinal_rag.Base.Dict.{string_eq, Dict, lookup}
use sentinal_rag.Budget.Pricing.{default_downgrade_ladder}
use sentinal_rag.Budget.Decision.{
  other, absent, not_mapping, PolicyValue, text, Policy, mapping, TenantBudget, downgrade, deny,
  BudgetDecision, resolve_downgrade, check_budget, budget_exceeded, enforce_or_raise,
}

-- The model that the tenant's policy, or else the default ladder, offers in place of `model`.
pub data Offers (policy : Policy) (model target : String) : Type 0 where
  from_policy :
      (override : Dict String PolicyValue)
      → policy ≡ mapping override
      → lookup model override ≡ some (text target)
      → Offers policy model target
  -- the policy is silent on the model, or what it says is no text
  from_ladder :
      ((override : Dict String PolicyValue) (t : String)
        → policy ≡ mapping override
        → lookup model override ≢ some (text t))
      → lookup model default_downgrade_ladder ≡ some target
      → Offers policy model target

resolve_downgrade_iff :
    (policy : Policy) (model target : String)
    → (resolve_downgrade policy model ≡ some target) ↔ Offers policy model target
unfolding resolve_downgrade
resolve_downgrade_iff absent model target = (
  (λ e. from_ladder (λ o t q _. cc q) e),
  (λ h. elim h [ from_policy o q _ ↦ cc q | from_ladder _ e ↦ e ]),
)
resolve_downgrade_iff not_mapping model target = (
  (λ e. from_ladder (λ o t q _. cc q) e),
  (λ h. elim h [ from_policy o q _ ↦ cc q | from_ladder _ e ↦ e ]),
)
resolve_downgrade_iff (mapping override) model target = by_lookup (lookup model override) refl
  where
    by_lookup :
        (o : Option PolicyValue)
        → lookup model override ≡ o
        → (resolve_downgrade (mapping override) model ≡ some target)
          ↔ Offers (mapping override) model target
    by_lookup none e = (
      (λ r. from_ladder (λ d t q k. cc (q, k, e)) (ground (arith, r, e))),
      (λ h. elim h [ from_policy d q k ↦ cc (q, k, e) | from_ladder _ l ↦ ground (arith, l, e) ]),
    )
    by_lookup (some (text t)) e = (
      (λ r. from_policy override refl (ground (arith, r, e))),
      (λ h. elim h [
        | from_policy d q k ↦ ground (arith, q, k, e)
        | from_ladder silent l ↦ absurd (silent override t refl e)
      ]),
    )
    by_lookup (some other) e = (
      (λ r. from_ladder (λ d t q k. cc (q, k, e)) (ground (arith, r, e))),
      (λ h. elim h [ from_policy d q k ↦ cc (q, k, e) | from_ladder _ l ↦ ground (arith, l, e) ]),
    )

module _ (budget : TenantBudget) (spend reserved estimate : ℕ) (model : String) where
  -- With an active budget the gate denies exactly when spend, reservations and estimate reach
  -- the hard share of the limit.
  pub check_budget-deny_iff :
      ((check_budget (some budget) spend reserved estimate model).action ≡ deny)
      ↔ (budget.limit_usd * budget.hard_threshold_pct ≤ (spend + reserved + estimate) * 100)
  unfolding check_budget
  check_budget-deny_iff = ground arith

  downgrade_to_iff :
      (target : String)
      → (((check_budget (some budget) spend reserved estimate model).action ≡ downgrade)
          × ((check_budget (some budget) spend reserved estimate model).downgrade_to ≡ some target))
        ↔ ((resolve_downgrade budget.downgrade_policy model ≡ some target)
            × (target ≢ model)
            × (target ≢ "")
            × (budget.limit_usd * budget.soft_threshold_pct ≤ (spend + reserved + estimate) * 100)
            × ((spend + reserved + estimate) * 100 < budget.limit_usd * budget.hard_threshold_pct))
  unfolding check_budget
  downgrade_to_iff target = elim (Option-cases (resolve_downgrade budget.downgrade_policy model)) [
    | inl e ↦ ground (arith, e)
    | inr (t, e) ↦
        ground (arith, e, eq_iff t model, eq_iff t "", eq_iff target model, eq_iff target "")
  ]

  -- With an active budget the gate downgrades to a target exactly if the tenant's policy for the
  -- model, or else the default ladder, offers that target, it is another model and not the empty
  -- text, and spend, reservations and estimate reach the soft but not the hard share of the limit.
  pub check_budget-downgrade_iff :
      (target : String)
      → (((check_budget (some budget) spend reserved estimate model).action ≡ downgrade)
          × ((check_budget (some budget) spend reserved estimate model).downgrade_to ≡ some target))
        ↔ (Offers budget.downgrade_policy model target
            × (target ≢ model)
            × (target ≢ "")
            × (budget.limit_usd * budget.soft_threshold_pct ≤ (spend + reserved + estimate) * 100)
            × ((spend + reserved + estimate) * 100 < budget.limit_usd * budget.hard_threshold_pct))
  unfolding check_budget
  check_budget-downgrade_iff target =
      let offered = resolve_downgrade_iff budget.downgrade_policy model target in
      let decided = downgrade_to_iff target in
      (
        (λ h. let d = decided.0 h in (offered.0 d.0, d.1, d.2, d.3, d.4)),
        (λ h. decided.1 (offered.1 h.0, h.1, h.2, h.3, h.4)),
      )

-- The caller is stopped exactly when the gate denies, and when it goes on with another model
-- then the gate said to downgrade to it.
pub enforce_or_raise_lem :
    (d : BudgetDecision) → (enforce_or_raise d ≡ budget_exceeded d) ↔ (d.action ≡ deny)
unfolding enforce_or_raise
enforce_or_raise_lem d = ground arith
