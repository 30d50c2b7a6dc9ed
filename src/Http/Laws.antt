-- ===== src/Http/Laws.antt =====
-- Which response a request gets from the middleware, and what it leaves alone (src/main.py,
-- src/api/middleware/).
use flyrank_capstone_meterin.Prelude.{
  ℕ, String, ◌≡◌, refl, ◌⊎◌, inl, inr, true, false, Option, none, some, is_some, Bool-cases,
  Option-cases,
}
use flyrank_capstone_meterin.Result.{err, Result-cases}
use flyrank_capstone_meterin.Errors.{Exn}
use flyrank_capstone_meterin.World.{World, App}
use flyrank_capstone_meterin.Handlers.Checkout.{truthy}
use flyrank_capstone_meterin.RateLimit.{is_allowed}
use flyrank_capstone_meterin.Http.{HttpRequest, Response, error, json_response, header_or}
use flyrank_capstone_meterin.Http.Exceptions.{handled, or_handled, with_handlers, or_internal_error}
use flyrank_capstone_meterin.Http.Middleware.{
  Stack, needs_key, require_key, rate_key, rate_limited, limit_rate, with_request_id, middleware,
  create_app,
}

module _ {A : Type 0} (s : Stack) (router : HttpRequest → App (Response A)) (q : HttpRequest)
    (w : World) where
  -- The request's own id, or the new one.
  abbrev pub id_of : Option String
  id_of = some (header_or s.new_request_id q.x_request_id)

  -- A write to /api/v1/meter whose Idempotency-Key is missing, empty or no UUID is answered with 400
  -- and the request's id, whatever the router, and changes nothing: not even the rate limiter counts it.
  pub key_refused :
      needs_key q ≡ true
      → ((key : String) → truthy q.idempotency_key ≡ some key → is_some (s.parse_uuid key) ≡ false)
      → let (r, w') = create_app s router q w in
        (r.status ≡ 400) × (r.x_request_id ≡ id_of) × (w' ≡ w)
  unfolding create_app middleware with_request_id require_key or_internal_error
  key_refused needed bad = elim (Option-cases (truthy q.idempotency_key)) [
    | inl missing ↦ rw (needed, missing) (refl, refl, refl)
    | inr (key, given) ↦ rw (needed, given, bad key given) (refl, refl, refl)
  ]

  -- The condition under which the request gets to the rate limiter.
  abbrev pub Keyed : Type 0
  Keyed =
      (needs_key q ≡ false)
      ⊎ (key : String) × (truthy q.idempotency_key ≡ some key) × (is_some (s.parse_uuid key) ≡ true)

  pub middleware_keyed :
      Keyed
      → middleware s router q
        ≡ with_request_id s.new_request_id q
            (limit_rate s.limiter s.ticks q (with_handlers s.describe (router q)))
  unfolding middleware require_key
  middleware_keyed (inl free) = rw free refl
  middleware_keyed (inr (key, given, good)) = elim (Bool-cases (needs_key q)) [
    | inl needed ↦ rw (needed, given, good) refl
    | inr free ↦ rw free refl
  ]

  -- A request that the limiter refuses, and that is not refused for its key, is answered with 429, the
  -- limiter's seconds in Retry-After and the request's id; the router does not run, and the tables,
  -- committed or not, are left alone.
  pub rate_refused :
      (wait : ℕ)
      → Keyed
      → (is_allowed s.limiter s.ticks (rate_key q) w.redis).0 ≡ (false, wait)
      → create_app s router q w ≡ (
        record (rate_limited wait) { x_request_id = id_of },
        record w { redis = (is_allowed s.limiter s.ticks (rate_key q) w.redis).1 },
      )
  unfolding create_app with_request_id limit_rate or_internal_error
  rate_refused wait keyed refused = rw (middleware_keyed keyed, refused) refl

  -- An exception that no handler takes ends as one and the same response: status 500 with a fixed
  -- text, which tells nothing of the exception, and without the request's id.
  pub unhandled_response :
      (wait : ℕ) (e : Exn)
      → Keyed
      → (is_allowed s.limiter s.ticks (rate_key q) w.redis).0 ≡ (true, wait)
      → (router q (record w { redis = (is_allowed s.limiter s.ticks (rate_key q) w.redis).1 })).0
        ≡ err e
      → handled {A = A} s.describe e ≡ none
      → (create_app s router q w).0
        ≡ json_response 500 (error "internal_error" "An unexpected error occurred")
  unfolding create_app with_request_id limit_rate or_internal_error with_handlers
  unhandled_response wait e keyed allowed raised none_takes =
      rw (middleware_keyed keyed, allowed, raised, or_handled, none_takes) refl

  -- Every response has the request's id, but for the 500 of an exception that no handler takes.
  pub response_id :
      let r = (create_app s router q w).0 in
      (r.x_request_id ≡ id_of)
      ⊎ (r ≡ json_response 500 (error "internal_error" "An unexpected error occurred"))
  unfolding create_app middleware with_request_id or_internal_error
  response_id =
      elim (Result-cases
        (require_key s.parse_uuid q
          (limit_rate s.limiter s.ticks q (with_handlers s.describe (router q))) w).0) [
            | inl (r, p) ↦ inl (rw p refl)
            | inr (e, p) ↦ inr (rw p refl)
          ]
