-- ===== src/Http/Router.antt =====
-- The endpoints behind the middleware: the routers of src/api/v1/ and src/api/health.py as src/main.py
-- includes them, under API_V1_PREFIX.
use flyrank_capstone_meterin.Prelude.{
  ℕ, String, ◌&&◌, Option, none, some, List, [], ◌∷◌, str_eq, if◌then◌else◌,
}
use flyrank_capstone_meterin.Result.{Result, ok, err}
use flyrank_capstone_meterin.Exec.{pure, raise, ◌>>=◌, ◌>>◌}
use flyrank_capstone_meterin.Errors.{Exn, request_validation_error}
use flyrank_capstone_meterin.Clock.{DateTime}
use flyrank_capstone_meterin.Payloads.{MeterResponse, Cached}
use flyrank_capstone_meterin.World.{World, App, Moment, get_db}
use flyrank_capstone_meterin.Meter.{Env}
use flyrank_capstone_meterin.Auth.{AuthEnv, Loaded, get_current_tenant}
use flyrank_capstone_meterin.UsageApi.{get_usage}
use flyrank_capstone_meterin.Stripe.{StripeEnv}
use flyrank_capstone_meterin.Webhook.{Reply, stripe_webhook}
use flyrank_capstone_meterin.Account.{
  AccountEnv, Cancellation, StripeSession, TenantResponse, create_portal_session,
  cancel_subscription, post_tenant, post_checkout, get_me,
}
use flyrank_capstone_meterin.Health.{HealthStatus, Readiness, health_check, readiness_check}
use flyrank_capstone_meterin.MeterRequest.{MeterBody, request_meter}
use flyrank_capstone_meterin.RateLimit.{RateLimiter}
use flyrank_capstone_meterin.Http.{HttpRequest, Response, answer, json_response}
use flyrank_capstone_meterin.Http.Middleware.{Stack, create_app}

-- What an endpoint answers with.
pub data Answer : Type 0 where
  recorded : MeterResponse → Answer
  usage : Cached → Answer
  tenant_info : TenantResponse → Answer
  checkout_session : StripeSession → Answer
  tenant_name : String → Answer
  portal_url : String → Answer
  cancellation : Cancellation → Answer
  webhook : Reply → Answer
  health : HealthStatus → Answer
  readiness : Readiness → Answer

-- A payload that FastAPI reads: no JSON, JSON without the fields, or with them.
pub data Parsed (A : Type 0) : Type 0 where
  not_json misfit : Parsed A
  fields : A → Parsed A

-- The libraries, the settings and the clocks of a request. `elsewhere` is what Starlette and FastAPI
-- answer for the methods and paths of no router.
pub record Service : Type 0 where
  pub limiter : RateLimiter
  pub meter : Env
  pub auth : AuthEnv
  pub account : AccountEnv
  pub stripe : StripeEnv
  pub month_text : DateTime → String
  pub parse_meter : String → Parsed MeterBody
  pub parse_checkout : String → Parsed String
  pub parse_tenant : String → Parsed String
  pub elsewhere : HttpRequest → App (Response Answer)
  pub select_one : Result Exn (Unit {0})
  pub moment : Moment
  pub new_request_id : String
  pub new_event_id : ℕ

pub data Endpoint : Type 0 where
  stripe_route meter_route usage_route create_tenant_route me_route : Endpoint
  portal_route checkout_route cancel_route health_route ready_route : Endpoint

-- In the order of `include_router`.
abbrev pub routes : List (String × String × Endpoint)
routes =
    ("POST", "/api/v1/webhooks/stripe", stripe_route)
    ∷ ("POST", "/api/v1/meter", meter_route)
    ∷ ("GET", "/api/v1/usage", usage_route)
    ∷ ("POST", "/api/v1/tenants", create_tenant_route)
    ∷ ("GET", "/api/v1/tenants/me", me_route)
    ∷ ("POST", "/api/v1/billing/portal", portal_route)
    ∷ ("POST", "/api/v1/checkout/session", checkout_route)
    ∷ ("POST", "/api/v1/subscriptions/cancel", cancel_route)
    ∷ ("GET", "/health", health_route)
    ∷ ("GET", "/ready", ready_route)
    ∷ []

unfoldable pub find_route : String → String → List (String × String × Endpoint) → Option Endpoint
find_route method path [] = none
find_route method path ((m, p, e) ∷ rest) =
    let others = find_route method path rest in
    if str_eq m method && str_eq p path then some e else others

-- A header that an endpoint requires.
unfoldable pub required : Option String → Result Exn String
required none = err (request_validation_error "header")
required (some value) = ok value

unfoldable pub answered : {A : Type 0} → (A → Answer) → App A → App (Response Answer)
answered f m = do a ← m; pure (json_response 200 (answer (f a)))

-- POST /meter: no JSON is refused before the tenant is looked up, other fields after that.
unfoldable pub meter_endpoint :
    Service → HttpRequest → Parsed MeterBody → Option String → Option String → App MeterResponse
meter_endpoint s q (fields body) (some tenant) (some key) =
    request_meter s.meter s.auth s.moment s.new_event_id
      (record {
        x_tenant_id = tenant;
        x_api_key = q.x_api_key;
        idempotency_key = key;
        client_host = q.client_host;
        user_agent = q.user_agent;
      })
      body
meter_endpoint s q not_json tenant key = raise (request_validation_error "body")
meter_endpoint s q parsed none key = raise (request_validation_error "header")
meter_endpoint s q parsed (some tenant) key = get_db (
    get_current_tenant s.auth s.moment tenant q.x_api_key
    >> raise (request_validation_error "body"))

unfoldable pub checkout_endpoint :
    Service → HttpRequest → Parsed String → Option String → App StripeSession
checkout_endpoint s q (fields plan) (some tenant) =
    post_checkout s.account s.auth s.moment tenant q.x_api_key plan
checkout_endpoint s q not_json tenant = raise (request_validation_error "body")
checkout_endpoint s q parsed none = raise (request_validation_error "header")
checkout_endpoint s q misfit (some tenant) = get_db (
    get_current_tenant s.auth s.moment tenant q.x_api_key
    >> raise (request_validation_error "body"))

-- An endpoint whose only parameters are the tenant and the session.
unfoldable pub for_tenant :
    {A : Type 0} → Service → HttpRequest → (Loaded → App A) → Option String → App A
for_tenant s q handler none = raise (request_validation_error "header")
for_tenant s q handler (some tenant) =
    get_db (get_current_tenant s.auth s.moment tenant q.x_api_key >>= handler)

unfoldable pub me_endpoint : Service → HttpRequest → Option String → App TenantResponse
me_endpoint s q none = raise (request_validation_error "header")
me_endpoint s q (some tenant) = get_me s.account s.auth s.moment tenant q.x_api_key

unfoldable pub tenant_endpoint : Parsed String → App String
tenant_endpoint (fields name) = get_db (post_tenant name)
tenant_endpoint parsed = raise (request_validation_error "body")

unfoldable pub run_endpoint : Service → HttpRequest → Endpoint → App (Response Answer)
unfolding answered for_tenant
run_endpoint s q stripe_route =
    answered webhook (stripe_webhook s.stripe s.moment q.payload q.stripe_signature)
run_endpoint s q meter_route =
    answered recorded (meter_endpoint s q (s.parse_meter q.payload) q.x_tenant_id q.idempotency_key)
run_endpoint s q usage_route = answered usage (
    for_tenant s q (λ l. get_usage s.meter.pricing s.auth.uuid_text s.month_text s.moment l.row.id)
      q.x_tenant_id)
run_endpoint s q create_tenant_route =
    answered tenant_name (tenant_endpoint (s.parse_tenant q.payload))
run_endpoint s q me_route = answered tenant_info (me_endpoint s q q.x_tenant_id)
run_endpoint s q portal_route =
    answered portal_url (for_tenant s q (create_portal_session s.account) q.x_tenant_id)
run_endpoint s q checkout_route =
    answered checkout_session (checkout_endpoint s q (s.parse_checkout q.payload) q.x_tenant_id)
run_endpoint s q cancel_route =
    answered cancellation (for_tenant s q cancel_subscription q.x_tenant_id)
run_endpoint s q health_route = answered health (health_check s.select_one)
run_endpoint s q ready_route = answered readiness (readiness_check s.stripe s.select_one)

unfoldable pub run_or_elsewhere : Service → HttpRequest → Option Endpoint → App (Response Answer)
run_or_elsewhere s q none = s.elsewhere q
run_or_elsewhere s q (some e) = run_endpoint s q e

unfoldable pub router : Service → HttpRequest → App (Response Answer)
router s q = run_or_elsewhere s q (find_route q.method q.path routes)

abbrev pub stack_of : Service → Stack
stack_of s = record {
  limiter = s.limiter;
  parse_uuid = s.auth.parse_uuid;
  describe = s.meter.describe;
  ticks = s.moment.ticks;
  new_request_id = s.new_request_id;
}

-- The application on one request.
unfoldable pub serve : Service → HttpRequest → World → Response Answer × World
serve s q w = create_app (stack_of s) (router s) q w
