-- ===== src/MeterApi/Laws.antt =====
-- Replayed and refused requests (src/api/v1/meter.py).
use flyrank_capstone_meterin.Prelude.{ℕ, String, ◌≡◌, refl, inl, inr, none, some}
use flyrank_capstone_meterin.Result.{ok, Result-cases}
use flyrank_capstone_meterin.Models.{type_of_value-type_value}
use flyrank_capstone_meterin.Payloads.{MeterResponse, Cached, response}
use flyrank_capstone_meterin.Cache.{cache_get, cache_set, idempotency_ttl_seconds}
use flyrank_capstone_meterin.World.{World, Moment, get_db, cached_get, cached_set, rollback}
use flyrank_capstone_meterin.Meter.{Env, MeterCall, record_event}
use flyrank_capstone_meterin.Meter.Laws.{priced_event, record_usage_or}
use flyrank_capstone_meterin.Meter.Safety.{record_event_or}
use flyrank_capstone_meterin.MeterApi.{
  idem_key, model_dump, cached_to_response, try_record, record_and_store, answer_from, handle_meter,
  post_meter,
}

-- A response that goes into the cache comes out as it was.
pub cached_to_response-model_dump :
    (r : MeterResponse) → cached_to_response (response (model_dump r)) ≡ ok r
unfolding cached_to_response model_dump
cached_to_response-model_dump r = rw type_of_value-type_value

-- Recording touches neither Redis nor what is committed.
record_event_scope :
    (env : Env) (m : Moment) (id : ℕ) (call : MeterCall) (w : World)
    → let w' = (record_event env m id call w).1 in
      (w'.redis ≡ w.redis) × (w'.committed ≡ w.committed)
record_event_scope env m id call w = elim (record_event_or env m id call w) [
  | inl same ↦ rw same (refl, refl)
  | inr stored ↦ elim (record_usage_or (priced_event env m id call) w) [
    | inl same ↦ rw (stored, same) (refl, refl)
    | inr inserted ↦ rw (stored, inserted) (refl, refl)
  ]
]

-- What the handler leaves when nothing was cached: the response is stored if there is one.
pub record_and_store_ends :
    (env : Env) (uuid_text : ℕ → String) (m : Moment) (id : ℕ) (call : MeterCall) (w : World)
    → let (r, w') = record_and_store env uuid_text m id call w in
      (w'.committed ≡ w.committed)
      × ((answer : MeterResponse)
          → r ≡ ok answer
          → w'.redis
            ≡ cache_set m.ticks
                (idem_key uuid_text call)
                (response (model_dump answer))
                idempotency_ttl_seconds
                w.redis)
record_and_store_ends env uuid_text m id call w =
    let (same_redis, same_committed) = record_event_scope env m id call w in
    elim (Result-cases (record_event env m id call w).0) [
      | inl (recorded, p) ↦
          unfold record_and_store try_record cached_set in rw p (same_committed, λ answer h. cc)
      | inr (e, p) ↦
          unfold record_and_store try_record cached_set in rw p (same_committed, λ answer h. cc)
    ]

pub handle_meter_hit :
    (env : Env) (uuid_text : ℕ → String) (m : Moment) (id : ℕ) (call : MeterCall) (w : World)
    (c : Cached)
    → (cache_get m.ticks (idem_key uuid_text call) w.redis).0 ≡ some c
    → handle_meter env uuid_text m id call w ≡ (
      cached_to_response c,
      record w { redis = (cache_get m.ticks (idem_key uuid_text call) w.redis).1 },
    )
unfolding handle_meter cached_get
handle_meter_hit env uuid_text m id call w c h = rw (h, answer_from)

pub handle_meter_miss :
    (env : Env) (uuid_text : ℕ → String) (m : Moment) (id : ℕ) (call : MeterCall) (w : World)
    → (cache_get m.ticks (idem_key uuid_text call) w.redis).0 ≡ none
    → handle_meter env uuid_text m id call w
      ≡ record_and_store env uuid_text m id call
          (record w { redis = (cache_get m.ticks (idem_key uuid_text call) w.redis).1 })
unfolding handle_meter cached_get
handle_meter_miss env uuid_text m id call w h = rw (h, answer_from)

-- A request that is answered from the cache: the result is the cached one, and the session ends with
-- the database as it was committed.
pub post_meter_hit :
    (env : Env) (uuid_text : ℕ → String) (m : Moment) (id : ℕ) (call : MeterCall) (w : World)
    (r : MeterResponse)
    → (cache_get m.ticks (idem_key uuid_text call) w.redis).0 ≡ some (response (model_dump r))
    → let (answer, w') = post_meter env uuid_text m id call w in
      (answer ≡ ok r) × (w'.db ≡ w.committed) × (w'.committed ≡ w.committed)
unfolding post_meter get_db
post_meter_hit env uuid_text m id call w r h =
    rw (handle_meter_hit env uuid_text m id call (rollback w) (response (model_dump r)) h)
      (rw cached_to_response-model_dump (refl, refl, refl))
