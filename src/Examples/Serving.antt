-- ===== src/Examples/Serving.antt =====
-- The whole application in the small installation.
use flyrank_capstone_meterin.Prelude.{
  ◌≡◌, ◌⊎◌, refl, inr, false, Option, none, some, String, exists, select,
}
use flyrank_capstone_meterin.Result.{ok}
use flyrank_capstone_meterin.Exec.{pure}
use flyrank_capstone_meterin.Errors.{text}
use flyrank_capstone_meterin.Models.{Subscription, same_tier}
use flyrank_capstone_meterin.Money.{pos}
use flyrank_capstone_meterin.World.{World}
use flyrank_capstone_meterin.Subscriptions.{
  has_tenant, has_plan, get_active_by_tenant, get_by_stripe_id,
}
use flyrank_capstone_meterin.Handlers.Checkout.{truthy}
use flyrank_capstone_meterin.RateLimit.{default_limiter, zset_scores, zadd, decide, is_allowed}
use flyrank_capstone_meterin.Cache.{get_redis}
use flyrank_capstone_meterin.MeterRequest.{MeterBody, MeterHeaders, request_meter}
use flyrank_capstone_meterin.MeterRequest.Records.{IsGrown, request_meter_grows}
use flyrank_capstone_meterin.Http.{HttpRequest, detail, error, json_response}
use flyrank_capstone_meterin.Http.Middleware.{Stack, rate_limited, rate_key, create_app}
use flyrank_capstone_meterin.Http.Router.{Service, fields, misfit, router, serve, stack_of}
use flyrank_capstone_meterin.Http.Laws.{rate_refused, response_id}
use flyrank_capstone_meterin.Invariant.{Sound}
use flyrank_capstone_meterin.Invariant.Writes.{IsFresh}
use flyrank_capstone_meterin.Invariant.Reach.{
  IsSound, Reaches, here, next, request, Reaches-IsSound, reached_lookups,
}
use flyrank_capstone_meterin.Examples.{noon, tables, installation, default_env, stripe_env}
use flyrank_capstone_meterin.Examples.Accounts.{account_env, auth_env}

abbrev pub five_calls : MeterBody
five_calls = record { usage_type = "api_call"; qty = pos 5 }

abbrev pub service : Service
service = record {
  limiter = default_limiter;
  meter = default_env;
  auth = auth_env;
  account = account_env;
  stripe = stripe_env;
  month_text = λ d. "2025-06";
  parse_meter = λ payload. fields five_calls;
  parse_checkout = λ payload. misfit;
  parse_tenant = λ payload. misfit;
  elsewhere = λ q. pure (json_response 404 (detail (text "Not Found")));
  select_one = ok tt;
  moment = noon;
  new_request_id = "r0";
  new_event_id = 32;
}

abbrev pub meter_post : Option String → HttpRequest
meter_post key = record {
  method = "POST";
  path = "/api/v1/meter";
  x_tenant_id = some "t1";
  x_api_key = none;
  idempotency_key = key;
  x_request_id = some "r7";
  stripe_signature = none;
  user_agent = none;
  client_host = none;
  payload = "{}";
}

abbrev closed : Stack
closed = record (stack_of service) { limiter = record { max_requests = 0; window_seconds = 60 } }

refused :
    (is_allowed closed.limiter closed.ticks
      (rate_key (meter_post (some "t1")))
      installation.redis).0
    ≡ (false, 61)
unfolding is_allowed get_redis decide select zset_scores zadd
refused = refl

rate_refused_example : create_app closed (router service) (meter_post (some "t1")) installation ≡ (
  record (rate_limited 61) { x_request_id = some "r7" },
  record installation {
    redis =
        (is_allowed closed.limiter closed.ticks
          (rate_key (meter_post (some "t1")))
          installation.redis).1;
  },
)
unfolding truthy
rate_refused_example =
    rate_refused closed (router service) (meter_post (some "t1")) installation 61
      (inr ("t1", refl, refl)) refused

response_id_example :
    let r =
      (create_app (stack_of service) (router service) (meter_post (some "t1")) installation).0 in
    (r.x_request_id ≡ some "r7")
    ⊎ (r ≡ json_response 500 (error "internal_error" "An unexpected error occurred"))
response_id_example =
    response_id (stack_of service) (router service) (meter_post (some "t1")) installation

abbrev headers : MeterHeaders
headers = record {
  x_tenant_id = "t1";
  x_api_key = none;
  idempotency_key = "k";
  client_host = none;
  user_agent = none;
}

request_meter_grows_example :
    IsGrown tables.usage_events
      (request_meter default_env auth_env noon 32 headers five_calls
        installation).1.committed.usage_events
request_meter_grows_example =
    request_meter_grows default_env auth_env noon 32 headers five_calls installation

tables-Sound : Sound tables
unfolding exists has_tenant has_plan same_tier
tables-Sound = record {
  usage_keyed = (refl, tt);
  usage_tenants = (refl, tt);
  distinct = (refl, tt);
  tenants = (refl, tt);
  plans = (refl, tt);
}

fresh : IsFresh 42 tables
unfolding exists
fresh = refl

abbrev served : World
served = (serve service (meter_post (some "t1")) installation).1

one_request : Reaches installation served
one_request =
    next here (request service (meter_post (some "t1")) installation (λ q w. (refl, refl)) fresh)

Reaches-IsSound_example : IsSound served
Reaches-IsSound_example = Reaches-IsSound (tables-Sound, tables-Sound) one_request

reached_lookups_example :
    ((a : Option Subscription) × (get_active_by_tenant 1 served ≡ (ok a, served)))
    × ((b : Option Subscription) × (get_by_stripe_id (some "sub_1") served ≡ (ok b, served)))
reached_lookups_example = reached_lookups 1 "sub_1" (tables-Sound, tables-Sound) one_request
