-- ===== src/Cost/Laws.antt =====
-- What the cost service returns (src/services/cost_service.py).
use flyrank_capstone_meterin.Prelude.{
  ℕ, ◌+◌, ◌*◌, ◌/◌, ◌^◌, ◌<◌, ◌≡◌, refl, sym, ap, ◌∙◌, ◌⊎◌, inl, inr,
}
use flyrank_capstone_meterin.Result.{Result, ok, err, Result-cases}
use flyrank_capstone_meterin.Errors.{Exn}
use flyrank_capstone_meterin.Money.{ℤ, pos, to_ℕ, calculate_cost_microunits}
use flyrank_capstone_meterin.Money.Laws.{calculate_cost_lem}
use flyrank_capstone_meterin.Models.{
  UsageType, api_call, input_tokens, cached_input_tokens, output_tokens, reasoning_tokens,
}
use flyrank_capstone_meterin.Cost.{PricingConfig, calculate, calculate_token_breakdown}

-- The price of a thousand units, read off the pricing table.
abbrev pub price_of : PricingConfig → UsageType → ℤ
price_of p api_call = p.api_call_per_thousand
price_of p input_tokens = p.input_token_per_thousand
price_of p cached_input_tokens = p.cached_input_token_per_thousand
price_of p output_tokens = p.output_token_per_thousand
price_of p reasoning_tokens = p.reasoning_token_per_thousand

-- Every usage type has a price.
pub calculate_lem :
    (p : PricingConfig) (t : UsageType) (q : ℕ)
    → calculate p t q ≡ calculate_cost_microunits (pos q) (price_of p t)
unfolding calculate
calculate_lem p api_call q = refl
calculate_lem p _ q = refl

abbrev value_or_zero : Result Exn ℕ → ℕ
value_or_zero (ok n) = n
value_or_zero (err e) = 0

-- The cost of a quantity, or 0 where none is returned.
abbrev pub cost_of : PricingConfig → UsageType → ℕ → ℕ
cost_of p t q = value_or_zero (calculate_cost_microunits (pos q) (price_of p t))

-- The product of quantity and price has at most 28 digits.
abbrev pub IsPriced : PricingConfig → UsageType → ℕ → Type 0
IsPriced p t q = q * to_ℕ (price_of p t) < 10 ^ 28

-- Half up to whole microunits of the price of a thousand.
abbrev pub rounded_cost : PricingConfig → UsageType → ℕ → ℕ
rounded_cost p t q = (q * to_ℕ (price_of p t) + 500) / 1000

pub cost_of-rounded_cost :
    (p : PricingConfig) (t : UsageType) (q : ℕ)
    → IsPriced p t q
    → cost_of p t q ≡ rounded_cost p t q
cost_of-rounded_cost p t q h = ap value_or_zero (calculate_cost_lem (pos q) (price_of p t) h)

pub calculate-ok :
    (p : PricingConfig) (t : UsageType) (q : ℕ)
    → IsPriced p t q
    → calculate p t q ≡ ok (rounded_cost p t q)
calculate-ok p t q h = calculate_lem p t q ∙ calculate_cost_lem (pos q) (price_of p t) h

-- A cost is computed, or the calculation fails.
pub calculate_cases :
    (p : PricingConfig) (t : UsageType) (q : ℕ)
    → (calculate p t q ≡ ok (cost_of p t q)) ⊎ ((e : Exn) × (calculate p t q ≡ err e))
calculate_cases p t q = elim (Result-cases (calculate_cost_microunits (pos q) (price_of p t))) [
  | inl (c, h) ↦ inl (calculate_lem p t q ∙ h ∙ ap (λ r. ok (value_or_zero r)) (sym h))
  | inr (e, h) ↦ inr (e, calculate_lem p t q ∙ h)
]

-- The three costs of the breakdown are those of the input, the cached input, and the sum of output and
-- reasoning tokens at the output price.
pub calculate_token_breakdown-ok :
    (p : PricingConfig) (i c o r : ℕ)
    → IsPriced p input_tokens i
    → IsPriced p cached_input_tokens c
    → IsPriced p output_tokens (o + r)
    → calculate_token_breakdown p i c o r
      ≡ ok (record {
        input_tokens = rounded_cost p input_tokens i;
        cached_input_tokens = rounded_cost p cached_input_tokens c;
        output_tokens = rounded_cost p output_tokens (o + r);
      })
unfolding calculate_token_breakdown
calculate_token_breakdown-ok p i c o r hi hc ho =
    rw
      (
        calculate-ok p input_tokens i hi,
        calculate-ok p cached_input_tokens c hc,
        calculate-ok p output_tokens (o + r) ho,
      )
      refl
