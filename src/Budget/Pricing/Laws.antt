-- ===== src/Budget/Pricing/Laws.antt =====
-- What the estimate of a completion promises to the budget gate.
use sentinal_rag.Base.{Option-cases, All, ℕ, ◌≤◌, String, ◌≡◌, inl, inr, none, some, arith}
use sentinal_rag.Base.Dict.{string_eq, lookup, lookup-All}
use sentinal_rag.Budget.Pricing.{
  ModelPrice, model_prices, default_downgrade_ladder, price_of, estimate_completion_cost,
}

-- The estimate covers every call that uses at most the estimated input tokens and at most
-- `max_output_tokens` output tokens of the model.
pub estimate-covers :
    (model : String) (estimated actual max_out used : ℕ)
    → actual ≤ estimated
    → used ≤ max_out
    → estimate_completion_cost model actual used ≤ estimate_completion_cost model estimated max_out
unfolding estimate_completion_cost
estimate-covers model estimated actual max_out used h k = grind arith

abbrev IsBelowCeiling : String × ModelPrice → Type 0
IsBelowCeiling (_, p) = (p.input_per_1k ≤ 500) × (p.output_per_1k ≤ 1500)

price_of_bounds :
    (m : String) → ((price_of m).input_per_1k ≤ 500) × ((price_of m).output_per_1k ≤ 1500)
unfolding price_of
price_of_bounds m = elim (Option-cases (lookup m model_prices)) [
  | inl unknown ↦ rw unknown (omega arith)
  | inr (p, e) ↦ rw e (lookup-All IsBelowCeiling m p model_prices (omega arith) e)
]

-- A model with no price is charged at least as much as any model of the table, for the same
-- tokens: the fallback errs on the side of denying.
pub estimate-unknown_model :
    (unknown known : String) (tokens max_out : ℕ)
    → lookup unknown model_prices ≡ none
    → estimate_completion_cost known tokens max_out
      ≤ estimate_completion_cost unknown tokens max_out
unfolding estimate_completion_cost
estimate-unknown_model unknown known tokens max_out e =
    rw (e, price_of) (grind (arith, price_of_bounds known))

-- The target of an entry of the ladder costs no more than its source, per token.
abbrev IsCheaper : String × String → Type 0
IsCheaper (m, t) =
    ((price_of t).input_per_1k ≤ (price_of m).input_per_1k)
    × ((price_of t).output_per_1k ≤ (price_of m).output_per_1k)

ladder_IsCheaper : All IsCheaper default_downgrade_ladder
unfolding price_of lookup
ladder_IsCheaper = omega arith

-- A downgrade along the default ladder never raises the estimate.
pub estimate-ladder :
    (model target : String) (tokens max_out : ℕ)
    → lookup model default_downgrade_ladder ≡ some target
    → estimate_completion_cost target tokens max_out ≤ estimate_completion_cost model tokens max_out
unfolding estimate_completion_cost
estimate-ladder model target tokens max_out e =
    let cheaper = lookup-All IsCheaper model target default_downgrade_ladder ladder_IsCheaper e in
    grind (arith, cheaper)
