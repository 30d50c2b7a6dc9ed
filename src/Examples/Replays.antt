-- ===== src/Examples/Replays.antt =====
-- A usage event posted twice, through the whole application in the small installation.
use flyrank_capstone_meterin.Prelude.{
  ◌≡◌, refl, ap, ◌∙◌, true, false, none, some, arith, exists, select, sum_where,
}
use flyrank_capstone_meterin.Result.{Result, ok}
use flyrank_capstone_meterin.Errors.{Exn}
use flyrank_capstone_meterin.Money.{pos}
use flyrank_capstone_meterin.Models.{api_call, same_type, same_tier, type_value}
use flyrank_capstone_meterin.Clock.{is_at_most, start_of_month}
use flyrank_capstone_meterin.Payloads.{MeterResponse, response}
use flyrank_capstone_meterin.Cache.{
  cache_get, cache_set, get_redis, find_live, put_entry, idempotency_ttl_seconds,
}
use flyrank_capstone_meterin.World.{
  World, get_db, rollback, cached_get, cached_set, scalar_one_or_none,
}
use flyrank_capstone_meterin.Usage.{get_monthly_usage, has_key, in_month}
use flyrank_capstone_meterin.Subscriptions.{is_metered}
use flyrank_capstone_meterin.Tenants.{get_tenant}
use flyrank_capstone_meterin.Quota.{limit_of}
use flyrank_capstone_meterin.Quota.Laws.{Entitled}
use flyrank_capstone_meterin.Handlers.Checkout.{truthy}
use flyrank_capstone_meterin.RateLimit.{
  default_limiter, zset_scores, zadd, put_zset, decide, is_allowed,
}
use flyrank_capstone_meterin.Auth.{
  Loaded, of_cached, tenant_from, parsed_or_401, tenant_or_401, check_key, tenant_key,
  get_current_tenant,
}
use flyrank_capstone_meterin.Meter.Laws.{record_event_new}
use flyrank_capstone_meterin.MeterApi.{
  idem_key, model_dump, record_and_store, try_record, make_response,
}
use flyrank_capstone_meterin.MeterApi.Laws.{handle_meter_miss}
use flyrank_capstone_meterin.MeterRequest.{
  MeterBody, MeterHeaders, meter_request, meter_body, request_meter, call_of,
}
use flyrank_capstone_meterin.Http.{HttpRequest}
use flyrank_capstone_meterin.Http.Middleware.{rate_key}
use flyrank_capstone_meterin.Http.Router.{Service, fields, serve}
use flyrank_capstone_meterin.Http.Metering.{Posted, limited, looked_up}
use flyrank_capstone_meterin.Http.Replay.{
  recorded_response, serve_returned, first_stores, serve_replay,
}
use flyrank_capstone_meterin.Examples.{
  first_tenant, first_subscription, free_plan, connected, noon, soon, one_text, default_env,
  installation,
}
use flyrank_capstone_meterin.Examples.Accounts.{auth_env}
use flyrank_capstone_meterin.Examples.Serving.{service, five_calls, meter_post}

abbrev post : HttpRequest
post = meter_post (some "t1")

abbrev sent : MeterHeaders
sent = record {
  x_tenant_id = "t1";
  x_api_key = none;
  idempotency_key = "t1";
  client_host = none;
  user_agent = none;
}

let_through : (is_allowed default_limiter noon.ticks (rate_key post) connected).0 ≡ (true, 0)
unfolding is_allowed get_redis decide select zset_scores zadd
let_through = refl

posted : Posted service post installation five_calls sent
posted = record {
  method = refl;
  path = refl;
  tenant = refl;
  api_key = refl;
  key = refl;
  key_text = refl;
  key_uuid = refl;
  client = refl;
  agent = refl;
  parsed = refl;
  allowed = let_through;
}

abbrev start : World
start = limited service post installation five_calls sent posted

abbrev loaded : Loaded
loaded = record { row = first_tenant; persistent = true }

abbrev found : Result Exn Loaded × World
found = get_current_tenant auth_env noon "t1" none (rollback start)

let_in : found ≡ (ok loaded, found.1)
unfolding get_current_tenant parsed_or_401 cached_get cached_set tenant_from tenant_or_401
    get_tenant scalar_one_or_none select check_key truthy cache_get cache_set get_redis find_live
    put_entry rollback is_allowed decide zset_scores zadd
let_in = refl

valid : meter_request five_calls ≡ ok (api_call, 5)
unfolding meter_request
valid = refl

abbrev after : World
after = looked_up service post installation five_calls sent posted loaded api_call 5 found.1

miss :
    (cache_get noon.ticks (idem_key one_text (call_of sent loaded (api_call, 5))) found.1.redis).0
    ≡ none
unfolding get_current_tenant parsed_or_401 cached_get cached_set tenant_from tenant_or_401
    get_tenant scalar_one_or_none select check_key truthy cache_get cache_set get_redis find_live
    put_entry rollback is_allowed decide zset_scores zadd idem_key type_value tenant_key
miss = refl

entitled : Entitled 1 after first_subscription free_plan
unfolding get_current_tenant parsed_or_401 cached_get cached_set tenant_from tenant_or_401
    get_tenant scalar_one_or_none select check_key truthy cache_get cache_set get_redis find_live
    put_entry rollback is_allowed decide zset_scores zadd is_metered same_tier
entitled = record { subscription = refl; metered = refl; plan = refl }

abbrev first_answer : MeterResponse
first_answer = record {
  recorded = true;
  usage_event_id = 32;
  usage_type = api_call;
  quantity = 5;
  cost_microunits = 5000;
  remaining_quota = record { api_calls = 992; ai_tokens = 0 };
}

returned : (request_meter default_env auth_env noon 32 sent five_calls start).0 ≡ ok first_answer
unfolding request_meter meter_body get_db exists has_key same_type limit_of get_monthly_usage
    sum_where in_month is_at_most start_of_month make_response type_value get_current_tenant
    parsed_or_401 cached_get cached_set tenant_from tenant_or_401 get_tenant scalar_one_or_none
    select check_key truthy cache_get cache_set get_redis find_live put_entry rollback is_allowed
    decide zset_scores zadd idem_key tenant_key meter_request
returned =
    let run =
      record_event_new default_env noon 32 (call_of sent loaded (api_call, 5)) after entitled
        (omega arith) refl refl (omega arith) in
    rw
      (handle_meter_miss default_env one_text noon 32 (call_of sent loaded (api_call, 5)) found.1
        miss)
      (unfold record_and_store try_record in rw run refl)

-- The second request, with another quantity.
abbrev ninety_calls : MeterBody
ninety_calls = record { usage_type = "api_call"; qty = pos 90 }

abbrev service_later : Service
service_later = record service {
  parse_meter = λ payload. fields ninety_calls;
  moment = soon;
  new_event_id = 33;
  new_request_id = "r1";
}

abbrev post_again : HttpRequest
post_again = record post { x_request_id = none }

abbrev served : World
served = (serve service post installation).1

stored :
    served.redis
    ≡ cache_set noon.ticks
        (idem_key one_text (call_of sent loaded (api_call, 5)))
        (response (model_dump first_answer))
        idempotency_ttl_seconds
        found.1.redis
stored =
    ap (λ r. r.1.redis)
      (serve_returned service post installation five_calls sent posted first_answer returned)
    ∙ first_stores service post installation five_calls sent posted loaded api_call 5 found.1 let_in
        valid first_answer (refl, refl) miss returned

through_again :
    (is_allowed default_limiter soon.ticks (rate_key post_again) served.redis).0 ≡ (true, 0)
unfolding is_allowed get_redis decide select zset_scores put_zset zadd cache_set get_current_tenant
    parsed_or_401 cached_get cached_set tenant_from tenant_or_401 get_tenant scalar_one_or_none
    check_key truthy cache_get find_live put_entry rollback
through_again = rw stored refl

posted_again : Posted service_later post_again served ninety_calls sent
posted_again = record {
  method = refl;
  path = refl;
  tenant = refl;
  api_key = refl;
  key = refl;
  key_text = refl;
  key_uuid = refl;
  client = refl;
  agent = refl;
  parsed = refl;
  allowed = through_again;
}

-- This time the tenant comes from the cache.
abbrev from_cache : Loaded
from_cache = record { row = first_tenant; persistent = false }

abbrev found_again : Result Exn Loaded × World
found_again =
    get_current_tenant auth_env soon "t1" none
      (rollback (limited service_later post_again served ninety_calls sent posted_again))

let_in_again : found_again.0 ≡ ok from_cache
unfolding is_allowed get_redis decide select zset_scores put_zset zadd cache_set get_current_tenant
    parsed_or_401 cached_get cached_set tenant_from tenant_or_401 get_tenant scalar_one_or_none
    check_key truthy cache_get find_live put_entry rollback of_cached tenant_key idem_key type_value
let_in_again = rw stored refl

valid_again : meter_request ninety_calls ≡ ok (api_call, 90)
unfolding meter_request
valid_again = refl

serve_replay_example :
    let (first, w') = serve service post installation in
    let (second, w'') = serve service_later post_again w' in
    (first ≡ recorded_response service post first_answer)
    × (second ≡ recorded_response service_later post_again first_answer)
    × (w''.committed.usage_events ≡ w'.committed.usage_events)
serve_replay_example =
    serve_replay service service_later post post_again installation five_calls ninety_calls sent
      sent posted posted_again loaded from_cache api_call 5 90 found.1 found_again.1 first_answer
      let_in valid (refl, refl) miss returned (ap (λ r. (r, found_again.1)) let_in_again)
      valid_again refl refl refl (omega arith)
