-- ===== src/Budget/Pricing.antt =====
-- The pricing table and the cost estimate of apps/api/app/services/cost_service.py.
-- A price is a whole number of 10^-5 USD per 1,000 tokens, so a cost is a whole number of
-- 10^-8 USD and the two divisions by 1000 of the source are exact.
pub mod Laws
use sentinal_rag.Base.{ℕ, ◌+◌, ◌*◌, String, [], ◌∷◌, or_else}
use sentinal_rag.Base.Dict.{Dict, lookup, string_eq}

pub record ModelPrice : Type 0 where
  pub input_per_1k : ℕ
  pub output_per_1k : ℕ

abbrev price : ℕ → ℕ → ModelPrice
price i o = record { input_per_1k = i; output_per_1k = o }

abbrev pub model_prices : Dict String ModelPrice
model_prices =
    ("ollama/llama3.1:8b", price 0 0)
    ∷ ("ollama/nomic-embed-text", price 0 0)
    ∷ ("openai/gpt-4o", price 500 1500)
    ∷ ("openai/gpt-4o-mini", price 15 60)
    ∷ ("openai/text-embedding-3-small", price 2 0)
    ∷ ("anthropic/claude-3-5-sonnet", price 300 1500)
    ∷ ("anthropic/claude-3-5-haiku", price 80 400)
    ∷ []

abbrev pub gpt_4o_price : ModelPrice
gpt_4o_price = price 500 1500

abbrev pub default_downgrade_ladder : Dict String String
default_downgrade_ladder =
    ("openai/gpt-4o", "openai/gpt-4o-mini")
    ∷ ("anthropic/claude-3-5-sonnet", "anthropic/claude-3-5-haiku")
    ∷ ("ollama/llama3.1:8b", "ollama/llama3.1:8b")
    ∷ []

-- `MODEL_PRICES.get(model)`, or the price of "openai/gpt-4o"
unfoldable pub price_of : String → ModelPrice
price_of model = or_else (lookup model model_prices) gpt_4o_price

unfoldable pub estimate_completion_cost : String → ℕ → ℕ → ℕ
unfolding price_of
estimate_completion_cost model estimated_input_tokens max_output_tokens =
    let p = price_of model in
    p.input_per_1k * estimated_input_tokens + p.output_per_1k * max_output_tokens
