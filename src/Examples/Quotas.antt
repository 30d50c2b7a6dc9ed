-- ===== src/Examples/Quotas.antt =====
-- The quota service in the small installation.
use flyrank_capstone_meterin.Prelude.{
  ◌+◌, ◌≤◌, ◌≡◌, refl, true, false, [], ◌∷◌, arith, select, sum_where,
}
use flyrank_capstone_meterin.Result.{ok}
use flyrank_capstone_meterin.Clock.{start_of_month, is_before, is_at_most}
use flyrank_capstone_meterin.Models.{
  api_call, input_tokens, cached_input_tokens, output_tokens, reasoning_tokens, same_tier,
  same_type, type_value,
}
use flyrank_capstone_meterin.World.{World}
use flyrank_capstone_meterin.Usage.{get_monthly_usage, in_month}
use flyrank_capstone_meterin.Subscriptions.{is_metered}
use flyrank_capstone_meterin.Quota.{Quotas, quotas, check_quota, get_all_quotas}
use flyrank_capstone_meterin.Quota.Laws.{Entitled, month_info, month_sum, check_quota_decides}
use flyrank_capstone_meterin.Quota.Overview.{check_quota_ignores_other_types}
use flyrank_capstone_meterin.Examples.{
  june_start, noon, free_plan, first_subscription, old_event, tables, installation,
}

-- The installation after half a million output tokens.
abbrev busy : World
busy = record installation {
  db = record tables {
    usage_events =
        old_event ∷ record old_event { usage_type = output_tokens; quantity = 500000 } ∷ [];
  };
}

entitled : Entitled 1 installation first_subscription free_plan
unfolding select is_metered same_tier
entitled = record { subscription = refl; metered = refl; plan = refl }

busy-Entitled : Entitled 1 busy first_subscription free_plan
unfolding select is_metered same_tier
busy-Entitled = record { subscription = refl; metered = refl; plan = refl }

check_quota_decides_example : check_quota noon 1 api_call 997 installation ≡ (
  ok (
    true,
    record {
      usage_type = "api_call";
      used = 3;
      limit = 1000;
      requested = 997;
      remaining = 997;
      will_exceed = false;
    },
  ),
  installation,
)
unfolding month_sum is_before same_type type_value
check_quota_decides_example = check_quota_decides noon 1 api_call 997 installation entitled

fits : get_monthly_usage 1 input_tokens june_start busy + 7 ≤ 500000
unfolding get_monthly_usage sum_where in_month is_at_most same_type
fits = omega arith

full :
    500000
    ≤ get_monthly_usage 1 input_tokens june_start busy
      + get_monthly_usage 1 cached_input_tokens june_start busy
      + get_monthly_usage 1 output_tokens june_start busy
      + get_monthly_usage 1 reasoning_tokens june_start busy
unfolding get_monthly_usage sum_where in_month is_at_most same_type
full = omega arith

check_quota_ignores_other_types_example :
    (ov : Quotas) × ((get_all_quotas noon 1 busy).0 ≡ ok (quotas ov))
    × (ov.ai_tokens_remaining ≡ 0)
    × ((check_quota noon 1 input_tokens 7 busy).0
        ≡ ok (true, month_info noon 1 input_tokens 7 busy free_plan))
unfolding same_type start_of_month
check_quota_ignores_other_types_example =
    check_quota_ignores_other_types noon 1 input_tokens 7 busy busy-Entitled refl fits full
