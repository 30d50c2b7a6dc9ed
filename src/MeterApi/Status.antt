-- ===== src/MeterApi/Status.antt =====
-- The HTTP statuses of refused requests to POST /meter (src/api/v1/meter.py).
use flyrank_capstone_meterin.Prelude.{ℕ, ◌+◌, ◌<◌, String, ◌≡◌, ap, false, ◌&&◌, none, ◌==◌, exists}
use flyrank_capstone_meterin.Result.{err}
use flyrank_capstone_meterin.Errors.{Exn, quota_exceeded, payment_required, http, quota, payment}
use flyrank_capstone_meterin.Clock.{start_of_month}
use flyrank_capstone_meterin.Models.{Plan, Subscription, type_value}
use flyrank_capstone_meterin.Cache.{cache_get}
use flyrank_capstone_meterin.World.{World, Moment, get_db, rollback}
use flyrank_capstone_meterin.Usage.{get_monthly_usage}
use flyrank_capstone_meterin.Subscriptions.{is_metered}
use flyrank_capstone_meterin.Quota.{limit_of}
use flyrank_capstone_meterin.Quota.Laws.{Entitled, check_quota_refuses}
use flyrank_capstone_meterin.Meter.{Env, MeterCall, record_event, record_once}
use flyrank_capstone_meterin.Meter.Laws.{record_event_exceeded, record_event-record_once}
use flyrank_capstone_meterin.MeterApi.{
  idem_key, http_error, try_record, record_and_store, post_meter,
}
use flyrank_capstone_meterin.MeterApi.Laws.{handle_meter_miss}

-- An exception of the service reaches the client as the handler maps it.
pub record_and_store_err :
    (env : Env) (uuid_text : ℕ → String) (m : Moment) (id : ℕ) (call : MeterCall) (w : World)
    (e : Exn)
    → (record_event env m id call w).0 ≡ err e
    → (record_and_store env uuid_text m id call w).0 ≡ err (http_error env e)
unfolding record_and_store try_record
record_and_store_err env uuid_text m id call w e h = rw h

module _ (env : Env) (uuid_text : ℕ → String) (m : Moment) (id : ℕ) (call : MeterCall) (w : World)
    (miss : (cache_get m.ticks (idem_key uuid_text call) w.redis).0 ≡ none) where
  -- The world in which the service runs: the committed database, and Redis after the lookup.
  abbrev service_world : World
  service_world = record w {
    db = w.committed;
    redis = (cache_get m.ticks (idem_key uuid_text call) w.redis).1;
  }

  post_meter_err :
      (e : Exn)
      → (record_event env m id call service_world).0 ≡ err e
      → (post_meter env uuid_text m id call w).0 ≡ err (http_error env e)
  unfolding post_meter get_db
  post_meter_err e h = rw (
    handle_meter_miss env uuid_text m id call (rollback w) miss,
    record_and_store_err env uuid_text m id call service_world e h,
  )

  -- A request that is not in the cache, of an entitled tenant whose usage and quantity together
  -- exceed the limit, is answered with 429, the month's numbers, and a day to wait.
  pub post_meter_429 :
      {s : Subscription} {p : Plan}
      → Entitled call.tenant_id service_world s p
      → limit_of call.usage_type p
        < get_monthly_usage call.tenant_id call.usage_type (start_of_month m.now) service_world
          + call.qty
      → let used =
          get_monthly_usage call.tenant_id call.usage_type (start_of_month m.now) service_world in
        let limit = limit_of call.usage_type p in
        (post_meter env uuid_text m id call w).0
        ≡ err (
            http 429 (
              quota
                (env.describe (quota_exceeded call.usage_type used limit call.qty))
                (type_value call.usage_type)
                used
                limit
                call.qty
                86400))
  unfolding http_error
  post_meter_429 entitled over =
      post_meter_err _
        (ap (λ x. x.0) (record_event_exceeded env m id call service_world entitled over))

  -- A request that is not in the cache, of a tenant with no subscription that is active, trialing or
  -- incomplete, is answered with 402.
  pub post_meter_402 :
      exists
          (λ (a : Subscription). a.tenant_id == call.tenant_id && is_metered a.status)
          w.committed.subscriptions
        ≡ false
      → (post_meter env uuid_text m id call w).0
        ≡ err (http 402 (payment (env.describe (payment_required "No active subscription found"))))
  unfolding http_error
  post_meter_402 none_metered = post_meter_err _ refused
    where
      refused :
          (record_event env m id call service_world).0
          ≡ err (payment_required "No active subscription found")
      refused = rw (record_event-record_once env m id call service_world) (
          unfold record_once in
          rw (
            check_quota_refuses m call.tenant_id call.usage_type call.qty service_world
              none_metered))
