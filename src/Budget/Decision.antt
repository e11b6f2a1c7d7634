-- ===== src/Budget/Decision.antt =====
-- The budget gate of apps/api/app/services/cost_service.py: `check_budget` on the values that the
-- repository and the reservation service returned, `_resolve_downgrade` and `enforce_or_raise`.
-- Amounts are whole numbers of one small unit of USD. The limits `limit_usd * pct / 100` are
-- kept as `limit_usd * pct` and compared with a hundred times the projection, so nothing is
-- rounded.
pub mod Laws
use sentinal_rag.Base.{
  leb, if◌then◌else◌, ℕ, ◌+◌, ◌*◌, String, Bool, false, ◌&&◌, not, Option, none, some, str_eq,
}
use sentinal_rag.Base.Dict.{string_eq, Dict, lookup}
use sentinal_rag.Budget.Pricing.{default_downgrade_ladder}

-- A value of the JSON object `downgrade_policy`: a text, or anything else.
pub data PolicyValue : Type 0 where
  text : String → PolicyValue
  other : PolicyValue

-- `budget.downgrade_policy`: null, an object, or another JSON value.
pub data Policy : Type 0 where
  absent : Policy
  mapping : Dict String PolicyValue → Policy
  not_mapping : Policy

pub record TenantBudget : Type 0 where
  pub tenant_id : ℕ
  pub limit_usd : ℕ
  pub soft_threshold_pct : ℕ
  pub hard_threshold_pct : ℕ
  pub downgrade_policy : Policy
  pub current_period_start : ℕ
  pub current_period_end : ℕ

pub data BudgetAction : Type 0 where
  allow downgrade deny : BudgetAction

-- The texts of `reason`, with the two amounts that a text shows.
pub data Reason : Type 0 where
  no_budget_configured no_downgrade_available : Reason
  over_hard_cap over_soft_cap : ℕ → ℕ → Reason

pub record BudgetDecision : Type 0 where
  pub action : BudgetAction
  pub current_spend_usd : ℕ
  pub limit_usd : ℕ
  pub period_end : Option ℕ
  pub downgrade_to : Option String
  pub reason : Option Reason

-- `_resolve_downgrade`
unfoldable pub resolve_downgrade : Policy → String → Option String
resolve_downgrade absent requested_model = lookup requested_model default_downgrade_ladder
resolve_downgrade not_mapping requested_model = lookup requested_model default_downgrade_ladder
resolve_downgrade (mapping override) requested_model = elim (lookup requested_model override) [
  | some v ↦ elim v [
    | text target ↦ some target
    | other ↦ lookup requested_model default_downgrade_ladder
  ]
  | none ↦ lookup requested_model default_downgrade_ladder
]

-- `downgrade and downgrade != requested_model`: neither `None` nor the empty text counts
abbrev pub is_usable : Option String → String → Bool
is_usable none requested_model = false
is_usable (some target) requested_model =
    not (str_eq target "") && not (str_eq target requested_model)

-- The decision once a budget is found: spend and reservations are what was read before.
unfoldable pub decide : TenantBudget → ℕ → ℕ → ℕ → String → BudgetDecision
decide budget spend reserved estimate_usd requested_model =
    let projected = spend + reserved + estimate_usd in
    let soft_limit = budget.limit_usd * budget.soft_threshold_pct in
    let hard_limit = budget.limit_usd * budget.hard_threshold_pct in
    let downgrade_target = resolve_downgrade budget.downgrade_policy requested_model in
    if leb hard_limit (projected * 100)
    then record {
      action = deny;
      current_spend_usd = spend;
      limit_usd = budget.limit_usd;
      period_end = some budget.current_period_end;
      downgrade_to = none;
      reason = some (over_hard_cap projected hard_limit);
    }
    else if leb soft_limit (projected * 100)
    then (if is_usable downgrade_target requested_model
        then record {
          action = downgrade;
          current_spend_usd = spend;
          limit_usd = budget.limit_usd;
          period_end = some budget.current_period_end;
          downgrade_to = downgrade_target;
          reason = some (over_soft_cap projected soft_limit);
        }
        else record {
          action = allow;
          current_spend_usd = spend;
          limit_usd = budget.limit_usd;
          period_end = some budget.current_period_end;
          downgrade_to = none;
          reason = some no_downgrade_available;
        })
    else record {
      action = allow;
      current_spend_usd = spend;
      limit_usd = budget.limit_usd;
      period_end = some budget.current_period_end;
      downgrade_to = none;
      reason = none;
    }

-- `CostService.check_budget`; the first argument is what `repo.get_active` returned.
unfoldable pub check_budget : Option TenantBudget → ℕ → ℕ → ℕ → String → BudgetDecision
unfolding decide
check_budget none spend reserved estimate_usd requested_model = record {
  action = allow;
  current_spend_usd = 0;
  limit_usd = 0;
  period_end = none;
  downgrade_to = none;
  reason = some no_budget_configured;
}
check_budget (some budget) spend reserved estimate_usd requested_model =
    decide budget spend reserved estimate_usd requested_model

-- `enforce_or_raise`: the error carries the decision whose fields become its details.
pub data Enforced : Type 0 where
  budget_exceeded : BudgetDecision → Enforced
  proceed : Option String → Enforced

unfoldable pub enforce_or_raise : BudgetDecision → Enforced
enforce_or_raise d = elim d.action [
  | deny ↦ budget_exceeded d
  | downgrade ↦ proceed d.downgrade_to
  | allow ↦ proceed none
]
