-- ===== src/Tests/BudgetExamples.antt =====
-- The theorems on budgets at concrete inputs.
use sentinal_rag.Base.{◌+◌, ◌*◌, ◌≤◌, ◌<◌, String, ◌≡◌, refl, ◌≢◌, ◌↔◌, true, some, [], ◌∷◌, arith}
use sentinal_rag.Base.Dict.{nat_eq, string_eq, lookup}
use sentinal_rag.Base.Text.{Text, codes, text_eq}
use sentinal_rag.Budget.Decision.{
  absent, TenantBudget, downgrade, deny, resolve_downgrade, decide, check_budget,
}
use sentinal_rag.Budget.Decision.Laws.{Offers, check_budget-deny_iff, check_budget-downgrade_iff}
use sentinal_rag.Budget.Reservation.{decimal, reservation_key, tenant_prefix, fetch, total_reserved}
use sentinal_rag.Budget.Reservation.Totals.{page_sum, pages_sum, last, total_reserved-eq-pages_sum}
use sentinal_rag.Budget.Concurrent.{Gate, total, Reach, IsCapped, race_breaks_cap}
use sentinal_rag.Tests.Instances.{in_memory}

abbrev monthly : TenantBudget
monthly = record {
  tenant_id = 1;
  limit_usd = 100;
  soft_threshold_pct = 80;
  hard_threshold_pct = 100;
  downgrade_policy = absent;
  current_period_start = 0;
  current_period_end = 30;
}

abbrev quiet : Gate
quiet = record { budget = monthly; spend = 10; live = []; checked = [] }

abbrev tenant : Text
tenant = codes "t1"

abbrev request : Text
request = codes "r1"

check_budget-deny_iff_example :
    ((check_budget (some monthly) 90 5 5 "openai/gpt-4o").action ≡ deny)
    ↔ (100 * 100 ≤ (90 + 5 + 5) * 100)
check_budget-deny_iff_example = check_budget-deny_iff monthly 90 5 5 "openai/gpt-4o"

abbrev large : String
large = "openai/gpt-4o"

abbrev small : String
small = "openai/gpt-4o-mini"

check_budget-downgrade_iff_example :
    (((check_budget (some monthly) 80 5 5 large).action ≡ downgrade)
      × ((check_budget (some monthly) 80 5 5 large).downgrade_to ≡ some small))
    ↔ (Offers absent large small
        × (small ≢ large)
        × (small ≢ "")
        × (100 * 80 ≤ (80 + 5 + 5) * 100)
        × ((80 + 5 + 5) * 100 < 100 * 100))
check_budget-downgrade_iff_example = check_budget-downgrade_iff monthly 80 5 5 large small

race_breaks_cap_example :
    (h : Gate) × Reach quiet h
    × (lookup 1 h.live ≡ some 60)
    × (lookup 2 h.live ≡ some 60)
    × (h.spend ≡ 10)
    × (¬ IsCapped h)
unfolding check_budget decide total lookup resolve_downgrade
race_breaks_cap_example =
    race_breaks_cap quiet 1 60 2 60 "openai/gpt-4o" "openai/gpt-4o" refl refl refl (ground arith)
      refl refl (omega arith)

total_reserved-eq-pages_sum_example :
    total_reserved in_memory true 2 tenant ((reservation_key tenant request, decimal 7) ∷ [])
    ≡ (some 7, (reservation_key tenant request, decimal 7) ∷ [])
unfolding reservation_key tenant_prefix fetch lookup pages_sum page_sum
total_reserved-eq-pages_sum_example =
    total_reserved-eq-pages_sum in_memory 2 tenant
      ((reservation_key tenant request, decimal 7) ∷ []) {pages = (some (decimal 7) ∷ []) ∷ []}
      (last refl refl) (omega arith)
