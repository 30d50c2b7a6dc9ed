-- ===== src/Cost.antt =====
-- src/config/pricing.py and src/services/cost_service.py.
pub mod Laws
use flyrank_capstone_meterin.Prelude.{
  ℕ, ◌+◌, String, Option, none, some, List, [], ◌∷◌, str_eq, if◌then◌else◌,
}
use flyrank_capstone_meterin.Result.{Result, ok, err, ◌>>=◌}
use flyrank_capstone_meterin.Errors.{Exn, value_error}
use flyrank_capstone_meterin.Money.{ℤ, pos, calculate_cost_microunits}
use flyrank_capstone_meterin.Models.{
  UsageType, api_call, input_tokens, cached_input_tokens, output_tokens, reasoning_tokens,
  same_type, type_value,
}

-- The prices come from the environment, so they are any integers.
pub record PricingConfig : Type 0 where
  pub api_call_per_thousand : ℤ
  pub input_token_per_thousand : ℤ
  pub cached_input_token_per_thousand : ℤ
  pub output_token_per_thousand : ℤ
  pub reasoning_token_per_thousand : ℤ

-- The defaults of src/config/settings.py.
abbrev pub default_pricing : PricingConfig
default_pricing = record {
  api_call_per_thousand = pos 1000000;
  input_token_per_thousand = pos 150;
  cached_input_token_per_thousand = pos 75;
  output_token_per_thousand = pos 600;
  reasoning_token_per_thousand = pos 600;
}

unfoldable pub token_categories : PricingConfig → List (String × ℤ)
token_categories pricing =
    ("input_tokens", pricing.input_token_per_thousand)
    ∷ ("cached_input_tokens", pricing.cached_input_token_per_thousand)
    ∷ ("output_tokens", pricing.output_token_per_thousand)
    ∷ ("reasoning_tokens", pricing.reasoning_token_per_thousand)
    ∷ []

-- `TOKEN_CATEGORIES.get(key)`
unfoldable pub get_price : String → List (String × ℤ) → Option ℤ
get_price key [] = none
get_price key ((k, price) ∷ rest) = if str_eq k key then some price else get_price key rest

cost_at : UsageType → ℕ → Option ℤ → Result Exn ℕ
cost_at usage_type quantity none = err (value_error "No pricing for usage type")
cost_at usage_type quantity (some price) = calculate_cost_microunits (pos quantity) price

-- The quantities are sums and validated requests, so they are not negative.
unfoldable pub calculate : PricingConfig → UsageType → ℕ → Result Exn ℕ
unfolding token_categories get_price cost_at same_type type_value
calculate pricing usage_type quantity =
    if same_type usage_type api_call
    then calculate_cost_microunits (pos quantity) pricing.api_call_per_thousand
    else cost_at usage_type quantity (get_price (type_value usage_type) (token_categories pricing))

pub record TokenCosts : Type 0 where
  pub input_tokens : ℕ
  pub cached_input_tokens : ℕ
  pub output_tokens : ℕ

-- Reasoning tokens are billed together with the output tokens.
unfoldable pub calculate_token_breakdown : PricingConfig → ℕ → ℕ → ℕ → ℕ → Result Exn TokenCosts
unfolding calculate
calculate_token_breakdown pricing input cached_input output reasoning = do
  let combined_output = output + reasoning
  input_cost ← calculate pricing input_tokens input
  cached_cost ← calculate pricing cached_input_tokens cached_input
  output_cost ← calculate pricing output_tokens combined_output
  ok (record {
    input_tokens = input_cost;
    cached_input_tokens = cached_cost;
    output_tokens = output_cost;
  })
