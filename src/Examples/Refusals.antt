-- ===== src/Examples/Refusals.antt =====
-- A call over the quota, through the whole application in the small installation.
use flyrank_capstone_meterin.Prelude.{◌≡◌, refl, true, none, some, arith, select, sum_where}
use flyrank_capstone_meterin.Result.{Result, ok}
use flyrank_capstone_meterin.Errors.{Exn, quota}
use flyrank_capstone_meterin.Money.{pos}
use flyrank_capstone_meterin.Models.{api_call, same_type, same_tier, type_value}
use flyrank_capstone_meterin.Clock.{is_at_most, start_of_month}
use flyrank_capstone_meterin.Cache.{cache_get, cache_set, get_redis, find_live, put_entry}
use flyrank_capstone_meterin.World.{World, rollback, cached_get, cached_set, scalar_one_or_none}
use flyrank_capstone_meterin.Usage.{get_monthly_usage, in_month}
use flyrank_capstone_meterin.Subscriptions.{is_metered}
use flyrank_capstone_meterin.Tenants.{get_tenant}
use flyrank_capstone_meterin.Quota.{limit_of}
use flyrank_capstone_meterin.Quota.Laws.{Entitled}
use flyrank_capstone_meterin.Handlers.Checkout.{truthy}
use flyrank_capstone_meterin.RateLimit.{default_limiter, zset_scores, zadd, decide, is_allowed}
use flyrank_capstone_meterin.Auth.{
  Loaded, tenant_from, parsed_or_401, tenant_or_401, check_key, tenant_key, get_current_tenant,
}
use flyrank_capstone_meterin.MeterApi.{idem_key}
use flyrank_capstone_meterin.MeterRequest.{MeterBody, MeterHeaders, meter_request}
use flyrank_capstone_meterin.Http.{HttpRequest, detail}
use flyrank_capstone_meterin.Http.Middleware.{rate_key}
use flyrank_capstone_meterin.Http.Router.{Service, fields, serve}
use flyrank_capstone_meterin.Http.Metering.{Posted, limited, call, looked_up, serve_over_quota}
use flyrank_capstone_meterin.Examples.{
  first_tenant, first_subscription, free_plan, connected, noon, june_start, one_text, installation,
}
use flyrank_capstone_meterin.Examples.Accounts.{auth_env}
use flyrank_capstone_meterin.Examples.Serving.{service, meter_post}

-- Three calls of the month's thousand are used.
abbrev many_calls : MeterBody
many_calls = record { usage_type = "api_call"; qty = pos 998 }

abbrev busy : Service
busy = record service { parse_meter = λ payload. fields many_calls }

abbrev over : HttpRequest
over = meter_post (some "t1")

abbrev over_headers : MeterHeaders
over_headers = record {
  x_tenant_id = "t1";
  x_api_key = none;
  idempotency_key = "t1";
  client_host = none;
  user_agent = none;
}

let_through : (is_allowed default_limiter noon.ticks (rate_key over) connected).0 ≡ (true, 0)
unfolding is_allowed get_redis decide select zset_scores zadd
let_through = refl

posted : Posted busy over installation many_calls over_headers
posted = record {
  method = refl;
  path = refl;
  tenant = refl;
  api_key = refl;
  key = refl;
  key_text = refl;
  key_uuid = refl;
  client = refl;
  agent = refl;
  parsed = refl;
  allowed = let_through;
}

abbrev start : World
start = limited busy over installation many_calls over_headers posted

abbrev loaded : Loaded
loaded = record { row = first_tenant; persistent = true }

abbrev found : Result Exn Loaded × World
found = get_current_tenant auth_env noon "t1" none (rollback start)

let_in : found ≡ (ok loaded, found.1)
unfolding get_current_tenant parsed_or_401 cached_get cached_set tenant_from tenant_or_401
    get_tenant scalar_one_or_none select check_key truthy cache_get cache_set get_redis find_live
    put_entry rollback is_allowed decide zset_scores zadd
let_in = refl

valid : meter_request many_calls ≡ ok (api_call, 998)
unfolding meter_request
valid = refl

abbrev after : World
after = looked_up busy over installation many_calls over_headers posted loaded api_call 998 found.1

miss :
    (cache_get noon.ticks
      (idem_key one_text
        (call busy over installation many_calls over_headers posted loaded api_call 998 found.1))
      found.1.redis).0
    ≡ none
unfolding get_current_tenant parsed_or_401 cached_get cached_set tenant_from tenant_or_401
    get_tenant scalar_one_or_none select check_key truthy cache_get cache_set get_redis find_live
    put_entry rollback is_allowed decide zset_scores zadd idem_key type_value tenant_key
miss = refl

entitled : Entitled 1 after first_subscription free_plan
unfolding get_current_tenant parsed_or_401 cached_get cached_set tenant_from tenant_or_401
    get_tenant scalar_one_or_none select check_key truthy cache_get cache_set get_redis find_live
    put_entry rollback is_allowed decide zset_scores zadd is_metered same_tier
entitled = record { subscription = refl; metered = refl; plan = refl }

three : get_monthly_usage 1 api_call june_start after ≡ 3
unfolding get_current_tenant parsed_or_401 cached_get cached_set tenant_from tenant_or_401
    get_tenant scalar_one_or_none select check_key truthy cache_get cache_set get_redis find_live
    put_entry rollback is_allowed decide zset_scores zadd get_monthly_usage sum_where in_month
    is_at_most same_type
three = refl

serve_over_quota_example : (serve busy over installation).0 ≡ record {
  status = 429;
  content = detail (quota "Quota exceeded" "api_call" 3 1000 998 86400);
  retry_after = some 86400;
  x_request_id = some "r7";
}
unfolding get_current_tenant parsed_or_401 cached_get cached_set tenant_from tenant_or_401
    get_tenant scalar_one_or_none select check_key truthy cache_get cache_set get_redis find_live
    put_entry rollback is_allowed decide zset_scores zadd get_monthly_usage sum_where in_month
    is_at_most same_type limit_of start_of_month type_value
serve_over_quota_example =
    serve_over_quota busy over installation many_calls over_headers posted loaded api_call 998
      found.1 {sub = first_subscription} {p = free_plan} let_in valid miss entitled (omega arith)
