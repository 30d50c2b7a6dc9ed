-- ===== src/UsageApi.antt =====
-- src/api/v1/usage.py: GET /usage of an authenticated tenant. `month_text` is `strftime("%Y-%m")` and
-- `uuid_text` is `str` of a UUID; the ISO texts of the period are kept as datetimes.
pub mod Laws
pub mod Orders
use Prim.Native.String.{◌++◌}
use flyrank_capstone_meterin.Prelude.{ℕ, ◌+◌, String, Option, none, some, List}
use flyrank_capstone_meterin.Exec.{pure, raise, lift, gets, ◌>>=◌, ◌>>◌}
use flyrank_capstone_meterin.Errors.{http, text}
use flyrank_capstone_meterin.Clock.{DateTime, start_of_month, period_end}
use flyrank_capstone_meterin.Models.{
  UsageType, api_call, input_tokens, cached_input_tokens, output_tokens, reasoning_tokens,
}
use flyrank_capstone_meterin.Money.{microunits_to_cents}
use flyrank_capstone_meterin.Cost.{PricingConfig, TokenCosts, calculate, calculate_token_breakdown}
use flyrank_capstone_meterin.Payloads.{UsageResponse, Cached, usage}
use flyrank_capstone_meterin.World.{World, App, Moment, cached_get, cached_set, get_db}
use flyrank_capstone_meterin.Usage.{get_monthly_cost, get_monthly_usage_breakdown}
use flyrank_capstone_meterin.Quota.{Quotas, AllQuotas, error, quotas, get_or_zero, get_all_quotas}

abbrev pub usage_cache_ttl : ℕ
usage_cache_ttl = 30

-- f"usage:{tenant.id}:{month}"
unfoldable pub usage_key : (ℕ → String) → (DateTime → String) → Moment → ℕ → String
usage_key uuid_text month_text m tenant_id =
    "usage:" ++ (uuid_text tenant_id ++ (":" ++ month_text m.now))

unfoldable pub quotas_or_404 : AllQuotas → App Quotas
quotas_or_404 (error message) = raise (http 404 (text message))
quotas_or_404 (quotas q) = pure q

-- The `UsageResponse(...)` from the month's start, the quotas, the breakdown, the cost of the API
-- calls, the costs of the tokens and the month's cost.
unfoldable pub usage_response :
    DateTime → Quotas → List (UsageType × ℕ) → ℕ → TokenCosts → ℕ → UsageResponse
usage_response start q usage_breakdown api_cost token_breakdown total = record {
  period_start = start;
  period_end = period_end start;
  plan = q.plan;
  api_calls = record {
    used = q.api_calls_used;
    limit = q.api_calls_limit;
    remaining = q.api_calls_remaining;
    cost_cents = microunits_to_cents api_cost;
    breakdown = none;
  };
  ai_tokens = record {
    used = q.ai_tokens_used;
    limit = q.ai_tokens_limit;
    remaining = q.ai_tokens_remaining;
    cost_cents = microunits_to_cents (
        token_breakdown.input_tokens + token_breakdown.cached_input_tokens
        + token_breakdown.output_tokens);
    breakdown = some (record {
      input_tokens = get_or_zero input_tokens usage_breakdown;
      cached_input_tokens = get_or_zero cached_input_tokens usage_breakdown;
      output_tokens =
          get_or_zero output_tokens usage_breakdown + get_or_zero reasoning_tokens usage_breakdown;
      reasoning_tokens = get_or_zero reasoning_tokens usage_breakdown;
      input_cost_cents = microunits_to_cents token_breakdown.input_tokens;
      cached_input_cost_cents = microunits_to_cents token_breakdown.cached_input_tokens;
      output_cost_cents = microunits_to_cents token_breakdown.output_tokens;
    });
  };
  total_cost_cents = microunits_to_cents total;
}

-- The handler when nothing is cached, up to the response.
unfoldable pub compute_usage : PricingConfig → Moment → ℕ → App UsageResponse
unfolding quotas_or_404
compute_usage pricing m tenant_id = do
  all ← get_all_quotas m tenant_id
  q ← quotas_or_404 all
  let start = start_of_month m.now
  total ← gets (get_monthly_cost tenant_id start)
  usage_breakdown ← gets (get_monthly_usage_breakdown tenant_id start)
  let combined_output =
      get_or_zero output_tokens usage_breakdown + get_or_zero reasoning_tokens usage_breakdown
  token_breakdown ← lift (
      calculate_token_breakdown pricing (get_or_zero input_tokens usage_breakdown)
        (get_or_zero cached_input_tokens usage_breakdown) combined_output 0)
  api_cost ← lift (calculate pricing api_call q.api_calls_used)
  pure (usage_response start q usage_breakdown api_cost token_breakdown total)

unfoldable pub usage_from :
    PricingConfig → (ℕ → String) → (DateTime → String) → Moment → ℕ → Option Cached → App Cached
usage_from pricing uuid_text month_text m tenant_id (some cached) = pure cached
usage_from pricing uuid_text month_text m tenant_id none = do
  response ← compute_usage pricing m tenant_id
  cached_set m (usage_key uuid_text month_text m tenant_id) (usage response) usage_cache_ttl
  pure (usage response)

-- `get_usage`, with the JSON that it sends.
unfoldable pub get_usage :
    PricingConfig → (ℕ → String) → (DateTime → String) → Moment → ℕ → App Cached
unfolding usage_from
get_usage pricing uuid_text month_text m tenant_id = do
  cached ← cached_get m (usage_key uuid_text month_text m tenant_id)
  usage_from pricing uuid_text month_text m tenant_id cached
