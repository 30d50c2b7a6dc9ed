-- ===== src/Http/Replay.antt =====
-- A repeated POST /api/v1/meter through the whole application (src/main.py, src/api/v1/meter.py).
use flyrank_capstone_meterin.Prelude.{
  ℕ, ◌<◌, ◌+◌, String, ◌≡◌, refl, ap, sym, ◌∙◌, inr, none, some, eq_refl, lt→ltb,
}
use flyrank_capstone_meterin.Result.{ok}
use flyrank_capstone_meterin.Models.{UsageType}
use flyrank_capstone_meterin.Payloads.{MeterResponse, response}
use flyrank_capstone_meterin.Cache.{cache_get, cache_set, idempotency_ttl_seconds}
use flyrank_capstone_meterin.Cache.Laws.{IsConnected, cache_get-cache_set}
use flyrank_capstone_meterin.World.Spares.{Kept}
use flyrank_capstone_meterin.Auth.Spares.{get_current_tenant-Spares}
use flyrank_capstone_meterin.World.{World, get_db, rollback, commit}
use flyrank_capstone_meterin.Auth.{Loaded, get_current_tenant}
use flyrank_capstone_meterin.Meter.{MeterCall}
use flyrank_capstone_meterin.MeterApi.{idem_key, model_dump, handle_meter}
use flyrank_capstone_meterin.MeterApi.Replay.{idem_key_same, handle_meter_stores}
use flyrank_capstone_meterin.World.Session.{get_db_ok}
use flyrank_capstone_meterin.Auth.Scope.{get_current_tenant-Keeps}
use flyrank_capstone_meterin.MeterApi.Laws.{handle_meter_hit, cached_to_response-model_dump}
use flyrank_capstone_meterin.MeterRequest.{
  MeterBody, MeterHeaders, meter_request, call_of, meter_body, request_meter,
}
use flyrank_capstone_meterin.Http.{HttpRequest, Response, answer, header_or}
use flyrank_capstone_meterin.Http.Exceptions.{or_handled, with_handlers, or_internal_error}
use flyrank_capstone_meterin.Http.Middleware.{rate_key, limit_rate, with_request_id, create_app}
use flyrank_capstone_meterin.Http.Router.{
  Answer, recorded, Service, answered, router, stack_of, serve,
}
use flyrank_capstone_meterin.Http.Laws.{middleware_keyed}
use flyrank_capstone_meterin.Http.CacheKeys.{limited-Kept, keys_apart, read_live, set_connected}
use flyrank_capstone_meterin.Http.Metering.{Posted, limited, route_lem, key_lem, call}

-- The response of a recorded usage, new or replayed.
abbrev pub recorded_response : Service → HttpRequest → MeterResponse → Response Answer
recorded_response s q r = record {
  status = 200;
  content = answer (recorded r);
  retry_after = none;
  x_request_id = some (header_or s.new_request_id q.x_request_id);
}

module _ (s : Service) (q : HttpRequest) (w : World) (body : MeterBody) (h : MeterHeaders)
    (posted : Posted s q w body h) where
  -- An answer of the endpoint is sent with 200 and the request's id.
  pub serve_returned :
      (r : MeterResponse)
      → (request_meter s.meter s.auth s.moment s.new_event_id h body
          (limited s q w body h posted)).0
        ≡ ok r
      → serve s q w ≡ (
        recorded_response s q r,
        (request_meter s.meter s.auth s.moment s.new_event_id h body
            (limited s q w body h posted)).1,
      )
  unfolding serve create_app with_request_id limit_rate with_handlers or_handled or_internal_error
      answered
  serve_returned r returned =
      rw
        (
          middleware_keyed (stack_of s) (router s) q w
              (inr (h.idempotency_key, key_lem s q w body h posted, posted.key_uuid)),
          posted.allowed,
          route_lem s q w body h posted (limited s q w body h posted),
          returned,
        )
        refl

  module _ (l : Loaded) (u : UsageType) (n : ℕ) (v : World)
      (found : get_current_tenant s.auth s.moment h.x_tenant_id h.x_api_key
          (rollback (limited s q w body h posted))
        ≡ (ok l, v))
      (valid : meter_request body ≡ ok (u, n)) where
    abbrev own_key : String
    own_key = idem_key s.auth.uuid_text (call s q w body h posted l u n v)

    body_lem :
        meter_body s.meter s.auth s.moment s.new_event_id h body
          (rollback (limited s q w body h posted))
        ≡ handle_meter s.meter s.auth.uuid_text s.moment s.new_event_id
            (call s q w body h posted l u n v)
            v
    unfolding meter_body
    body_lem = rw (found, valid) refl

    -- Up to the handler, what is stored under an idempotency key is left alone.
    before_handler :
        (k : MeterCall) → IsConnected w.redis → Kept (idem_key s.auth.uuid_text k) w.redis v.redis
    unfolding rollback
    before_handler k c =
        let first =
          limited-Kept (idem_key s.auth.uuid_text k) s.limiter s.moment.ticks (rate_key q) w.redis
            c in
        let next =
          (get_current_tenant-Spares s.auth s.moment (idem_key s.auth.uuid_text k)
              (keys_apart s.auth k) h.x_tenant_id h.x_api_key).at
            (rollback (limited s q w body h posted)) first.connected in
        let end = ap (λ x. x.1.redis) found in
        rw (← end)
          (record { connected = next.connected; live = λ now. next.live now ∙ first.live now })

    request_ends :
        (r : MeterResponse)
        → (request_meter s.meter s.auth s.moment s.new_event_id h body
            (limited s q w body h posted)).0
          ≡ ok r
        → let final =
            meter_body s.meter s.auth s.moment s.new_event_id h body
              (rollback (limited s q w body h posted)) in
          (final.0 ≡ ok r)
          × ((request_meter s.meter s.auth s.moment s.new_event_id h body
                (limited s q w body h posted)).1
              ≡ commit final.1)
    unfolding request_meter
    request_ends r returned =
        get_db_ok (meter_body s.meter s.auth s.moment s.new_event_id h body)
          (limited s q w body h posted) r returned

    pub first_stores :
        (r : MeterResponse)
        → IsConnected w.redis
        → (cache_get s.moment.ticks own_key v.redis).0 ≡ none
        → (request_meter s.meter s.auth s.moment s.new_event_id h body
            (limited s q w body h posted)).0
          ≡ ok r
        → (request_meter s.meter s.auth s.moment s.new_event_id h body
            (limited s q w body h posted)).1.redis
          ≡ cache_set s.moment.ticks own_key
              (response (model_dump r))
              idempotency_ttl_seconds
              v.redis
    unfolding commit
    first_stores r c miss returned =
        let kept = before_handler (call s q w body h posted l u n v) c in
        let (result, final) = request_ends r returned in
        ap (λ x. x.redis) final
        ∙ rw body_lem (
            handle_meter_stores s.meter s.auth.uuid_text s.moment s.new_event_id
              (call s q w body h posted l u n v) v r kept.connected miss (rw body_lem at result))

    stored_run :
        (r : MeterResponse)
        → (cache_get s.moment.ticks own_key v.redis).0 ≡ some (response (model_dump r))
        → let run =
            request_meter s.meter s.auth s.moment s.new_event_id h body
              (limited s q w body h posted) in
          (run.0 ≡ ok r) × (run.1.committed ≡ v.db)
    unfolding request_meter get_db commit
    stored_run r hit =
        rw
          (
            body_lem,
            handle_meter_hit s.meter s.auth.uuid_text s.moment s.new_event_id
                (call s q w body h posted l u n v) v (response (model_dump r)) hit,
            cached_to_response-model_dump r,
          )
          (refl, refl)

    -- With a stored response, the request is answered with it, and the usage events are as before.
    serve_stored :
        (r : MeterResponse)
        → (cache_get s.moment.ticks own_key v.redis).0 ≡ some (response (model_dump r))
        → ((serve s q w).0 ≡ recorded_response s q r)
          × ((serve s q w).1.committed.usage_events ≡ w.committed.usage_events)
    unfolding rollback
    serve_stored r hit =
        let (returned, kept) = stored_run r hit in
        let served = serve_returned r returned in
        let same =
          ((get_current_tenant-Keeps s.auth s.moment h.x_tenant_id h.x_api_key).at
            (rollback (limited s q w body h posted))).usage_events in
        (
          ap (λ x. x.0) served,
          ap (λ x. x.1.committed.usage_events) served
              ∙ ap (λ d. d.usage_events) kept
              ∙ ap (λ x. x.1.db.usage_events) (sym found)
              ∙ same,
        )

-- Two requests, the second of them after the first.
module _ (s s' : Service) (q q' : HttpRequest) (w : World) (body body' : MeterBody)
    (h h' : MeterHeaders) (posted : Posted s q w body h)
    (posted' : Posted s' q' (serve s q w).1 body' h') (l l' : Loaded) (u : UsageType) (n n' : ℕ)
    (v v' : World) where
  -- A POST of /meter with a UUID as its key, which the rate limiter lets through, for a tenant that
  -- is found, with Redis connected and no answer stored under the tenant, the key and the usage type,
  -- and to which the endpoint returns `r`: it is answered with 200 and `r`. Another such POST of that
  -- tenant, key and usage type within 24 hours, by the same texts of ids, whatever its quantity, is
  -- answered with 200 and `r` too, under its own request id, and adds no usage event.
  pub serve_replay :
      (r : MeterResponse)
      → get_current_tenant s.auth s.moment h.x_tenant_id h.x_api_key
          (rollback (limited s q w body h posted))
        ≡ (ok l, v)
      → meter_request body ≡ ok (u, n)
      → IsConnected w.redis
      → (cache_get s.moment.ticks (idem_key s.auth.uuid_text (call_of h l (u, n))) v.redis).0 ≡ none
      → (request_meter s.meter s.auth s.moment s.new_event_id h body
          (limited s q w body h posted)).0
        ≡ ok r
      → get_current_tenant s'.auth s'.moment h'.x_tenant_id h'.x_api_key
          (rollback (limited s' q' (serve s q w).1 body' h' posted'))
        ≡ (ok l', v')
      → meter_request body' ≡ ok (u, n')
      → l'.row.id ≡ l.row.id
      → h'.idempotency_key ≡ h.idempotency_key
      → s'.auth.uuid_text ≡ s.auth.uuid_text
      → s'.moment.ticks.seconds < s.moment.ticks.seconds + idempotency_ttl_seconds
      → let (first, w') = serve s q w in
        let (second, w'') = serve s' q' w' in
        (first ≡ recorded_response s q r)
        × (second ≡ recorded_response s' q' r)
        × (w''.committed.usage_events ≡ w'.committed.usage_events)
  serve_replay r found valid c miss returned found' valid' same_tenant same_key same_text soon =
      let key = idem_key s.auth.uuid_text (call_of h l (u, n)) in
      let key' = idem_key s'.auth.uuid_text (call_of h' l' (u, n')) in
      let served = serve_returned s q w body h posted r returned in
      let kept = before_handler s q w body h posted l u n v found valid (call_of h l (u, n)) c in
      let stored : (serve s q w).1.redis
          ≡ cache_set s.moment.ticks key (response (model_dump r)) idempotency_ttl_seconds v.redis =
        ap (λ x. x.1.redis) served
        ∙ first_stores s q w body h posted l u n v found valid r c miss returned in
      let held : IsConnected (serve s q w).1.redis =
        rw stored
          (set_connected s.moment.ticks key _ idempotency_ttl_seconds v.redis kept.connected) in
      let kept' =
        before_handler s' q' (serve s q w).1 body' h' posted' l' u n' v' found' valid'
          (call_of h' l' (u, n')) held in
      let same : key' ≡ key = rw same_text (
        idem_key_same s.auth.uuid_text (call_of h' l' (u, n')) (call_of h l (u, n))
          (same_tenant, same_key, refl)) in
      let hit : (cache_get s'.moment.ticks key (serve s q w).1.redis).0
          ≡ some (response (model_dump r)) =
        rw stored (
          cache_get-cache_set s.moment.ticks s'.moment.ticks key key (response (model_dump r))
            idempotency_ttl_seconds v.redis kept.connected
          ∙ rw (eq_refl key, lt→ltb _ _ soon) refl) in
      let again : (cache_get s'.moment.ticks key' v'.redis).0 ≡ some (response (model_dump r)) =
        read_live s'.moment.ticks key' v'.redis kept'.connected
        ∙ kept'.live s'.moment.ticks.seconds
        ∙ sym (read_live s'.moment.ticks key' (serve s q w).1.redis held)
        ∙ rw same hit in
      let (answered, unchanged) =
        serve_stored s' q' (serve s q w).1 body' h' posted' l' u n' v' found' valid' r again in
      (ap (λ x. x.0) served, answered, unchanged)
