-- ===== src/Http/Middleware.antt =====
-- src/main.py, and rate_limit.py, idempotency.py and request_id.py of src/api/middleware/: what happens
-- to a request around its endpoint. The middleware that is added last is the outermost.
use Prim.Native.String.{◌++◌}
use flyrank_capstone_meterin.Prelude.{
  ℕ, String, Bool, ◌&&◌, ◌||◌, is_some, Option, none, some, str_eq, if◌then◌else◌,
}
use flyrank_capstone_meterin.Result.{ok}
use flyrank_capstone_meterin.Exec.{pure, ◌>>=◌}
use flyrank_capstone_meterin.Errors.{Exn, text}
use flyrank_capstone_meterin.Cache.{Ticks}
use flyrank_capstone_meterin.World.{World, App}
use flyrank_capstone_meterin.Handlers.Checkout.{truthy}
use flyrank_capstone_meterin.RateLimit.{RateLimiter, is_allowed}
use flyrank_capstone_meterin.Http.{HttpRequest, Response, detail, error, json_response, header_or}
use flyrank_capstone_meterin.Http.Exceptions.{with_handlers, or_internal_error}

-- RateLimitMiddleware
abbrev pub rate_key : HttpRequest → String
rate_key q =
    "rate:" ++ (header_or "anonymous" q.x_tenant_id ++ (":" ++ header_or "unknown" q.client_host))

-- IDEMPOTENCY_PATHS and IDEMPOTENCY_METHODS
abbrev pub needs_key : HttpRequest → Bool
needs_key q =
    str_eq q.path "/api/v1/meter"
    && (str_eq q.method "POST" || (str_eq q.method "PUT" || str_eq q.method "PATCH"))

-- What the application reads beside a request.
pub record Stack : Type 0 where
  pub limiter : RateLimiter
  pub parse_uuid : String → Option ℕ
  pub describe : Exn → String
  pub ticks : Ticks
  pub new_request_id : String

module _ {A : Type 0} where
  abbrev pub rate_limited : ℕ → Response A
  rate_limited wait = record {
    status = 429;
    content = error "rate_limited" "Too many requests";
    retry_after = some wait;
    x_request_id = none;
  }

  unfoldable pub limit_rate :
      RateLimiter → Ticks → HttpRequest → App (Response A) → App (Response A)
  limit_rate l t q call_next w =
      let ((allowed, wait), r) = is_allowed l t (rate_key q) w.redis in
      let w' = record w { redis = r } in
      if allowed then call_next w' else (ok (rate_limited wait), w')

  unfoldable pub check_idempotency_key :
      (String → Option ℕ) → Option String → App (Response A) → App (Response A)
  check_idempotency_key parse_uuid none call_next =
      pure (json_response 400 (detail (text "Idempotency-Key header is required")))
  check_idempotency_key parse_uuid (some key) call_next =
      if is_some (parse_uuid key)
      then call_next
      else pure (json_response 400 (detail (text "Idempotency-Key must be a valid UUID v4")))

  -- IdempotencyMiddleware; `parse_uuid` is `uuid.UUID(key, version=4)`, which sets the version's bits
  -- and raises ValueError for the same texts as without a version.
  unfoldable pub require_key :
      (String → Option ℕ) → HttpRequest → App (Response A) → App (Response A)
  unfolding check_idempotency_key truthy
  require_key parse_uuid q call_next =
      if needs_key q
      then check_idempotency_key parse_uuid (truthy q.idempotency_key) call_next
      else call_next

  -- RequestIDMiddleware; `fresh` is `str(uuid.uuid4())`.
  unfoldable pub with_request_id : String → HttpRequest → App (Response A) → App (Response A)
  with_request_id fresh q call_next = do
    response ← call_next
    pure (record response { x_request_id = some (header_or fresh q.x_request_id) })

  -- `create_app`, inside the handler of `Exception`.
  unfoldable pub middleware :
      Stack → (HttpRequest → App (Response A)) → HttpRequest → App (Response A)
  middleware s router q = with_request_id s.new_request_id q (
      require_key s.parse_uuid q
        (limit_rate s.limiter s.ticks q (with_handlers s.describe (router q))))

  unfoldable pub create_app :
      Stack → (HttpRequest → App (Response A)) → HttpRequest → World → Response A × World
  unfolding or_internal_error
  create_app s router q w = let (r, w') = middleware s router q w in (or_internal_error r, w')
