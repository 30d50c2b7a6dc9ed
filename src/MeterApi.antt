-- ===== src/MeterApi.antt =====
-- src/api/v1/meter.py, with the idempotency keys of src/config/cache.py and the session of
-- src/api/deps.py: the handler of POST /meter after the tenant has been authenticated.
pub mod Laws
pub mod Replay
pub mod Status
use Prim.Native.String.{◌++◌}
use flyrank_capstone_meterin.Prelude.{
  ℕ, String, Bool, true, false, Option, none, some, if◌then◌else◌,
}
use flyrank_capstone_meterin.Result.{Result, ok, err}
use flyrank_capstone_meterin.Exec.{pure, raise, lift, ◌>>=◌, ◌>>◌}
use flyrank_capstone_meterin.Errors.{
  Exn, quota_exceeded, payment_required, value_error, validation_error, http, quota, payment,
}
use flyrank_capstone_meterin.Models.{
  UsageEvent, UsageType, api_call, same_type, type_value, type_of_value,
}
use flyrank_capstone_meterin.Payloads.{
  MeterResponse, RemainingQuota, CachedResponse, Cached, response,
}
use flyrank_capstone_meterin.Cache.{idempotency_ttl_seconds}
use flyrank_capstone_meterin.World.{World, App, Moment, cached_get, cached_set, get_db}
use flyrank_capstone_meterin.Meter.{Env, MeterCall, UpdatedQuota, record_event}

-- f"idem:{tenant_id}:{key}:{usage_type}"; `uuid_text` is `str` of a UUID.
unfoldable pub idem_key : (ℕ → String) → MeterCall → String
unfolding type_value
idem_key uuid_text call =
    "idem:"
    ++ (uuid_text call.tenant_id
        ++ (":" ++ (call.idempotency_key ++ (":" ++ type_value call.usage_type))))

-- `response.model_dump(mode="json")`
unfoldable pub model_dump : MeterResponse → CachedResponse
model_dump r = record {
  recorded = r.recorded;
  usage_event_id = r.usage_event_id;
  usage_type = type_value r.usage_type;
  quantity = r.quantity;
  cost_microunits = r.cost_microunits;
  remaining_quota = r.remaining_quota;
}

pub with_type : CachedResponse → Option UsageType → Result Exn MeterResponse
with_type c none = err (value_error "is not a valid UsageType")
with_type c (some t) = ok (record {
  recorded = c.recorded;
  usage_event_id = c.usage_event_id;
  usage_type = t;
  quantity = c.quantity;
  cost_microunits = c.cost_microunits;
  remaining_quota = c.remaining_quota;
})

-- `_cached_to_response`; a value of another shape does not validate.
unfoldable pub cached_to_response : Cached → Result Exn MeterResponse
unfolding with_type
cached_to_response (response c) = with_type c (type_of_value c.usage_type)
cached_to_response _ = err (validation_error "MeterResponse")

-- The two `except` clauses; other exceptions pass.
unfoldable pub http_error : Env → Exn → Exn
http_error env (quota_exceeded usage_type used limit requested) = http 429 (
    quota (env.describe (quota_exceeded usage_type used limit requested)) (type_value usage_type)
      used limit requested 86400)
http_error env (payment_required message) =
    http 402 (payment (env.describe (payment_required message)))
http_error env e = e

unfoldable pub or_http : {A : Type 0} → Env → Result Exn A → Result Exn A
or_http env (ok a) = ok a
or_http env (err e) = err (http_error env e)

unfoldable pub try_record : Env → Moment → ℕ → MeterCall → App (UsageEvent × UpdatedQuota)
unfolding or_http
try_record env m id call w = let (r, w') = record_event env m id call w in (or_http env r, w')

unfoldable pub make_response : MeterCall → UsageEvent → UpdatedQuota → MeterResponse
make_response call event quota_info = record {
  recorded = true;
  usage_event_id = event.id;
  usage_type = event.usage_type;
  quantity = event.quantity;
  cost_microunits = event.cost_microunits;
  remaining_quota = record {
    api_calls = if same_type call.usage_type api_call then quota_info.remaining else 0;
    ai_tokens = if same_type call.usage_type api_call then 0 else quota_info.remaining;
  };
}

-- The handler when nothing is cached.
unfoldable pub record_and_store : Env → (ℕ → String) → Moment → ℕ → MeterCall → App MeterResponse
record_and_store env uuid_text m id call = do
  recorded ← try_record env m id call
  let answer = make_response call recorded.0 recorded.1
  cached_set m (idem_key uuid_text call) (response (model_dump answer)) idempotency_ttl_seconds
  pure answer

unfoldable pub answer_from :
    Env → (ℕ → String) → Moment → ℕ → MeterCall → Option Cached → App MeterResponse
answer_from env uuid_text m id call (some cached) = lift (cached_to_response cached)
answer_from env uuid_text m id call none = record_and_store env uuid_text m id call

-- `record_usage` of the handler's module.
unfoldable pub handle_meter : Env → (ℕ → String) → Moment → ℕ → MeterCall → App MeterResponse
unfolding answer_from
handle_meter env uuid_text m id call = do
  cached ← cached_get m (idem_key uuid_text call)
  answer_from env uuid_text m id call cached

-- The request with its session.
unfoldable pub post_meter : Env → (ℕ → String) → Moment → ℕ → MeterCall → App MeterResponse
post_meter env uuid_text m id call = get_db (handle_meter env uuid_text m id call)
