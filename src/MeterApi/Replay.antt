-- ===== src/MeterApi/Replay.antt =====
-- Replays and failures of POST /meter (src/api/v1/meter.py, src/api/deps.py).
use flyrank_capstone_meterin.Prelude.{
  ℕ, ◌+◌, ◌<◌, String, ◌≡◌, ap, ◌∙◌, Option-cases, inl, inr, none, eq_refl, lt→ltb,
}
use flyrank_capstone_meterin.Result.{ok, err}
use flyrank_capstone_meterin.Errors.{Exn}
use flyrank_capstone_meterin.Payloads.{MeterResponse, response}
use flyrank_capstone_meterin.Cache.{cache_get, cache_set, idempotency_ttl_seconds}
use flyrank_capstone_meterin.Cache.Laws.{IsConnected, cache_get-cache_set, redis-cache_get}
use flyrank_capstone_meterin.World.{World, Moment, rollback, commit}
use flyrank_capstone_meterin.World.Session.{get_db_ok, get_db_err}
use flyrank_capstone_meterin.Meter.{Env, MeterCall}
use flyrank_capstone_meterin.MeterApi.{idem_key, model_dump, handle_meter, post_meter}
use flyrank_capstone_meterin.MeterApi.Laws.{
  record_and_store_ends, handle_meter_miss, handle_meter_hit, post_meter_hit,
}

-- Two calls under one tenant, idempotency key and usage type.
abbrev pub SameKey : MeterCall → MeterCall → Type 0
SameKey a b =
    (a.tenant_id ≡ b.tenant_id)
    × (a.idempotency_key ≡ b.idempotency_key)
    × (a.usage_type ≡ b.usage_type)

pub idem_key_same :
    (uuid_text : ℕ → String) (a b : MeterCall)
    → SameKey a b
    → idem_key uuid_text a ≡ idem_key uuid_text b
unfolding idem_key
idem_key_same uuid_text a b (t, k, u) = rw (t, k, u)

pub handle_meter_stores :
    (env : Env) (uuid_text : ℕ → String) (m : Moment) (id : ℕ) (call : MeterCall) (w : World)
    (r : MeterResponse)
    → IsConnected w.redis
    → (cache_get m.ticks (idem_key uuid_text call) w.redis).0 ≡ none
    → (handle_meter env uuid_text m id call w).0 ≡ ok r
    → (handle_meter env uuid_text m id call w).1.redis
      ≡ cache_set m.ticks
          (idem_key uuid_text call)
          (response (model_dump r))
          idempotency_ttl_seconds
          w.redis
handle_meter_stores env uuid_text m id call w r c miss h =
    let key = idem_key uuid_text call in
    let step = handle_meter_miss env uuid_text m id call w miss in
    let w0 = record w { redis = (cache_get m.ticks key w.redis).1 } in
    rw step (
      (record_and_store_ends env uuid_text m id call w0).1 r (rw step at h)
      ∙ ap (cache_set m.ticks key (response (model_dump r)) idempotency_ttl_seconds)
          (redis-cache_get m.ticks key w.redis c))

-- With Redis connected: after a request that was not answered from the cache and that returned `r`,
-- every request with the same tenant, key and usage type within 24 hours, whatever its quantity,
-- returns `r` too, and the database is as the first request committed it.
pub post_meter_replay :
    (env : Env) (uuid_text : ℕ → String) (m m' : Moment) (id id' : ℕ) (call again : MeterCall)
    (w : World) (r : MeterResponse)
    → IsConnected w.redis
    → (cache_get m.ticks (idem_key uuid_text call) w.redis).0 ≡ none
    → (post_meter env uuid_text m id call w).0 ≡ ok r
    → SameKey again call
    → m'.ticks.seconds < m.ticks.seconds + idempotency_ttl_seconds
    → let (_, w') = post_meter env uuid_text m id call w in
      let (answer, w'') = post_meter env uuid_text m' id' again w' in
      (answer ≡ ok r) × (w''.db ≡ w'.committed) × (w''.committed ≡ w'.committed)
unfolding rollback commit
post_meter_replay env uuid_text m m' id id' call again w r c miss h same soon =
    post_meter_hit env uuid_text m' id' again (post_meter env uuid_text m id call w).1 r (
      rw (idem_key_same uuid_text again call same, stored)
        (cache_get-cache_set m.ticks m'.ticks key key (response (model_dump r))
            idempotency_ttl_seconds w.redis c
          ∙ rw (eq_refl key, lt→ltb _ _ soon)))
  where
    key : String
    key = idem_key uuid_text call

    stored :
        (post_meter env uuid_text m id call w).1.redis
        ≡ cache_set m.ticks
            (idem_key uuid_text call)
            (response (model_dump r))
            idempotency_ttl_seconds
            w.redis
    stored =
        unfold post_meter in
        let (result, final) = get_db_ok (handle_meter env uuid_text m id call) w r h in
        ap (λ x. x.redis) final
        ∙ handle_meter_stores env uuid_text m id call (rollback w) r c miss result

handle_meter-committed :
    (env : Env) (uuid_text : ℕ → String) (m : Moment) (id : ℕ) (call : MeterCall) (w : World)
    → (handle_meter env uuid_text m id call w).1.committed ≡ w.committed
handle_meter-committed env uuid_text m id call w =
    let key = idem_key uuid_text call in
    elim (Option-cases (cache_get m.ticks key w.redis).0) [
      | inl miss ↦
          rw (handle_meter_miss env uuid_text m id call w miss)
            (record_and_store_ends env uuid_text m id call
              (record w { redis = (cache_get m.ticks key w.redis).1 })).0
      | inr (c, hit) ↦ rw (handle_meter_hit env uuid_text m id call w c hit)
    ]

-- A request that ends in an exception changes nothing in the database, neither in what is committed
-- nor in what the session leaves.
pub post_meter_failed :
    (env : Env) (uuid_text : ℕ → String) (m : Moment) (id : ℕ) (call : MeterCall) (w : World)
    (e : Exn)
    → (post_meter env uuid_text m id call w).0 ≡ err e
    → let w' = (post_meter env uuid_text m id call w).1 in
      (w'.db ≡ w.committed) × (w'.committed ≡ w.committed)
unfolding rollback
post_meter_failed env uuid_text m id call w e h =
    unfold post_meter in
    let (result, final) = get_db_err (handle_meter env uuid_text m id call) w e h in
    let kept = handle_meter-committed env uuid_text m id call (rollback w) in
    (ap (λ x. x.db) final ∙ kept, ap (λ x. x.committed) final ∙ kept)
