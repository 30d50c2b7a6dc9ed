-- ===== src/Examples/Reports.antt =====
-- GET /usage in the small installation.
use flyrank_capstone_meterin.Prelude.{
  ◌+◌, ◌-◌, [], ◌∷◌, ◌≡◌, String, arith, refl, none, select, exists, sum_where,
}
use flyrank_capstone_meterin.Result.{ok}
use flyrank_capstone_meterin.Clock.{DateTime, start_of_month, is_before, is_at_most}
use flyrank_capstone_meterin.Models.{
  UsageType, api_call, input_tokens, cached_input_tokens, output_tokens, reasoning_tokens,
  same_tier, same_type,
}
use flyrank_capstone_meterin.Money.{microunits_to_cents}
use flyrank_capstone_meterin.Cost.{default_pricing}
use flyrank_capstone_meterin.Payloads.{UsageResponse, usage}
use flyrank_capstone_meterin.Cache.{cache_get, get_redis, find_live}
use flyrank_capstone_meterin.Subscriptions.{is_metered}
use flyrank_capstone_meterin.Usage.{
  get_monthly_usage, in_month, group_by_type, get_monthly_usage_breakdown,
}
use flyrank_capstone_meterin.Quota.{get_or_zero}
use flyrank_capstone_meterin.Quota.Laws.{Entitled, month_sum, month_cost}
use flyrank_capstone_meterin.World.{Moment, cached_set}
use flyrank_capstone_meterin.UsageApi.{usage_key, compute_usage, usage_from, get_usage}
use flyrank_capstone_meterin.UsageApi.Laws.{
  ArePriced, compute_usage_exact, compute_usage_on, response_on, get_usage_miss,
}
use flyrank_capstone_meterin.Examples.{
  noon, june, old_event, free_plan, first_subscription, installation, one_text,
}

entitled : Entitled 1 installation first_subscription free_plan
unfolding select is_metered same_tier
entitled = record { subscription = refl; metered = refl; plan = refl }

abbrev in_december : Moment
in_december = record noon { now = record june { month = 12 } }

priced_december :
    ArePriced default_pricing (λ u.
      month_sum 1 u (record { year = 2025; month = 12; day = 1; micros = 0 }) (old_event ∷ []))
unfolding month_sum is_before same_type
priced_december = (omega arith, omega arith, omega arith, omega arith)

priced_june :
    ArePriced default_pricing
      (λ u. get_or_zero u (get_monthly_usage_breakdown 1 (start_of_month noon.now) installation))
unfolding get_or_zero get_monthly_usage_breakdown group_by_type exists get_monthly_usage sum_where
    in_month is_at_most is_before same_type start_of_month
priced_june = (omega arith, omega arith, omega arith, omega arith)

compute_usage_exact_example :
    let used = λ (u : UsageType).
      month_sum 1 u (record { year = 2025; month = 12; day = 1; micros = 0 }) (old_event ∷ []) in
    (r : UsageResponse) × (compute_usage default_pricing in_december 1 installation
      ≡ (ok r, installation))
    × (r.plan ≡ "Free")
    × (r.api_calls.used ≡ used api_call)
    × (r.api_calls.limit ≡ 1000)
    × (r.api_calls.remaining ≡ 1000 - used api_call)
    × (r.ai_tokens.used
        ≡ used input_tokens + used cached_input_tokens + used output_tokens + used reasoning_tokens)
    × (r.ai_tokens.limit ≡ 500000)
    × (r.ai_tokens.remaining ≡ 500000 - r.ai_tokens.used)
    × (r.total_cost_cents
        ≡ microunits_to_cents (
            month_cost 1
              (record { year = 2025; month = 12; day = 1; micros = 0 })
              (old_event ∷ [])))
    × (r.period_start ≡ record { year = 2025; month = 12; day = 1; micros = 0 })
    × (r.period_end ≡ record { year = 2026; month = 1; day = 1; micros = 0 })
compute_usage_exact_example =
    compute_usage_exact default_pricing in_december 1 installation entitled (omega arith)
      priced_december

abbrev june_text : DateTime → String
june_text d = "2025-06"

miss : (cache_get noon.ticks (usage_key one_text june_text noon 1) installation.redis).0 ≡ none
unfolding cache_get get_redis find_live
miss = refl

reported :
    (get_usage default_pricing one_text june_text noon 1 installation).0
    ≡ ok (usage (response_on default_pricing noon 1 installation free_plan))
unfolding usage_from cached_set cache_get get_redis find_live
reported =
    rw
      (
        get_usage_miss default_pricing one_text june_text noon 1 installation miss,
        compute_usage_on default_pricing noon 1 installation entitled priced_june,
      )
      refl
