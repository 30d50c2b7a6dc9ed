-- ===== src/Http/Metering.antt =====
-- POST /api/v1/meter through the whole application (src/main.py, src/api/v1/meter.py).
use flyrank_capstone_meterin.Prelude.{
  ℕ, ◌+◌, ◌<◌, ◌≡◌, refl, ap, inr, true, false, none, some, is_some, str_eq,
}
use flyrank_capstone_meterin.Result.{ok, err}
use flyrank_capstone_meterin.Errors.{Detail, quota_exceeded, http, quota}
use flyrank_capstone_meterin.Clock.{start_of_month}
use flyrank_capstone_meterin.Models.{Plan, Subscription, UsageType, type_value}
use flyrank_capstone_meterin.Cache.{cache_get}
use flyrank_capstone_meterin.World.{World, get_db, rollback}
use flyrank_capstone_meterin.Usage.{get_monthly_usage}
use flyrank_capstone_meterin.Quota.{limit_of}
use flyrank_capstone_meterin.Quota.Laws.{Entitled}
use flyrank_capstone_meterin.Handlers.Checkout.{truthy}
use flyrank_capstone_meterin.RateLimit.{is_allowed}
use flyrank_capstone_meterin.Auth.{Loaded, get_current_tenant}
use flyrank_capstone_meterin.Meter.{MeterCall}
use flyrank_capstone_meterin.Meter.Laws.{record_event_exceeded}
use flyrank_capstone_meterin.MeterApi.{idem_key, http_error}
use flyrank_capstone_meterin.MeterApi.Laws.{handle_meter_miss}
use flyrank_capstone_meterin.MeterApi.Status.{record_and_store_err}
use flyrank_capstone_meterin.MeterRequest.{
  MeterBody, MeterHeaders, meter_request, call_of, meter_body, request_meter,
}
use flyrank_capstone_meterin.Http.{HttpRequest, detail, header_or}
use flyrank_capstone_meterin.Http.Exceptions.{
  header_of, or_handled, with_handlers, or_internal_error,
}
use flyrank_capstone_meterin.Http.Middleware.{rate_key, limit_rate, with_request_id, create_app}
use flyrank_capstone_meterin.Http.Router.{
  recorded, Service, fields, answered, meter_endpoint, run_endpoint, run_or_elsewhere, router,
  find_route, stack_of, serve,
}
use flyrank_capstone_meterin.Http.Laws.{middleware_keyed}

-- A request to record usage, with its tenant, its key and a body that is JSON with the two fields,
-- which the rate limiter lets through.
pub record Posted (s : Service) (q : HttpRequest) (w : World) (body : MeterBody) (h : MeterHeaders)
    : Type 0 where
  pub method : q.method ≡ "POST"
  pub path : q.path ≡ "/api/v1/meter"
  pub tenant : q.x_tenant_id ≡ some h.x_tenant_id
  pub api_key : q.x_api_key ≡ h.x_api_key
  pub key : q.idempotency_key ≡ some h.idempotency_key
  pub key_text : str_eq h.idempotency_key "" ≡ false
  pub key_uuid : is_some (s.auth.parse_uuid h.idempotency_key) ≡ true
  pub client : q.client_host ≡ h.client_host
  pub agent : q.user_agent ≡ h.user_agent
  pub parsed : s.parse_meter q.payload ≡ fields body
  pub allowed : (is_allowed s.limiter s.moment.ticks (rate_key q) w.redis).0 ≡ (true, 0)

module _ (s : Service) (q : HttpRequest) (w : World) (body : MeterBody) (h : MeterHeaders)
    (posted : Posted s q w body h) where
  -- The world after the rate limiter.
  abbrev pub limited : World
  limited = record w { redis = (is_allowed s.limiter s.moment.ticks (rate_key q) w.redis).1 }

  pub route_lem :
      (v : World)
      → router s q v
        ≡ answered recorded (request_meter s.meter s.auth s.moment s.new_event_id h body) v
  unfolding router find_route run_or_elsewhere run_endpoint meter_endpoint
  route_lem v =
      rw
        (
          posted.method, posted.path, posted.parsed, posted.tenant, posted.key, posted.api_key,
          posted.client, posted.agent,
        )
        refl

  pub key_lem : truthy q.idempotency_key ≡ some h.idempotency_key
  unfolding truthy
  key_lem = rw (posted.key, posted.key_text) refl

  -- An HTTPException of the endpoint is answered with its status and detail, the request's id, and
  -- Retry-After where its detail is that of an exceeded quota.
  pub serve_raised :
      (status : ℕ) (d : Detail)
      → (request_meter s.meter s.auth s.moment s.new_event_id h body limited).0
        ≡ err (http status d)
      → serve s q w ≡ (
        record {
          status = status;
          content = detail d;
          retry_after = header_of d;
          x_request_id = some (header_or s.new_request_id q.x_request_id);
        },
        (request_meter s.meter s.auth s.moment s.new_event_id h body limited).1,
      )
  unfolding serve create_app with_request_id limit_rate with_handlers or_handled or_internal_error
      answered
  serve_raised status d raised =
      rw
        (
          middleware_keyed (stack_of s) (router s) q w
              (inr (h.idempotency_key, key_lem, posted.key_uuid)),
          posted.allowed,
          route_lem limited,
          raised,
        )
        refl

  module _ (l : Loaded) (u : UsageType) (n : ℕ) (v : World) where
    -- The call for a tenant and a valid body, and the world after its key has been looked up.
    abbrev pub call : MeterCall
    call = call_of h l (u, n)

    abbrev pub looked_up : World
    looked_up = record v {
      redis = (cache_get s.moment.ticks (idem_key s.auth.uuid_text call) v.redis).1;
    }

    abbrev pub used : ℕ
    used = get_monthly_usage l.row.id u (start_of_month s.moment.now) looked_up

    -- A POST of /meter with a UUID as its key, a valid body and no stored answer, which the rate
    -- limiter lets through, for a tenant that is found: where the tenant is entitled and its usage and
    -- the quantity together exceed the limit, the response is 429 with the month's numbers, a day to
    -- wait and the request's id.
    pub serve_over_quota :
        {sub : Subscription} {p : Plan}
        → get_current_tenant s.auth s.moment h.x_tenant_id h.x_api_key (rollback limited)
          ≡ (ok l, v)
        → meter_request body ≡ ok (u, n)
        → (cache_get s.moment.ticks (idem_key s.auth.uuid_text call) v.redis).0 ≡ none
        → Entitled l.row.id looked_up sub p
        → limit_of u p < used + n
        → (serve s q w).0 ≡ record {
          status = 429;
          content = detail (
              quota
                (s.meter.describe (quota_exceeded u used (limit_of u p) n))
                (type_value u)
                used
                (limit_of u p)
                n
                86400);
          retry_after = some 86400;
          x_request_id = some (header_or s.new_request_id q.x_request_id);
        }
    unfolding request_meter meter_body get_db http_error header_of
    serve_over_quota found valid miss entitled over =
        let refused =
          record_and_store_err s.meter s.auth.uuid_text s.moment s.new_event_id call looked_up _ (
            ap (λ x. x.0)
              (record_event_exceeded s.meter s.moment s.new_event_id call looked_up entitled
                over)) in
        ap (λ x. x.0)
          (serve_raised 429 _ (
            rw
              (
                found,
                valid,
                handle_meter_miss s.meter s.auth.uuid_text s.moment s.new_event_id call v miss,
                refused,
              )
              refl))
