-- ===== src/Http/Exceptions.antt =====
-- src/api/middleware/error_handling.py: exceptions as responses. Starlette puts the handler of
-- `Exception` outside all middleware, and the other handlers inside.
use flyrank_capstone_meterin.Prelude.{ℕ, String, Option, none, some}
use flyrank_capstone_meterin.Result.{Result, ok, err}
use flyrank_capstone_meterin.Errors.{
  Exn, quota_exceeded, payment_required, validation_error, request_validation_error, stripe_error,
  signature_verification_error, http, Detail, quota,
}
use flyrank_capstone_meterin.Models.{type_value}
use flyrank_capstone_meterin.World.{App}
use flyrank_capstone_meterin.Redact.{redact}
use flyrank_capstone_meterin.Http.{
  Response, detail, error, over_quota, billing_error, errors, json_response,
}

-- The only HTTPException with a header is the one of an exceeded quota.
unfoldable pub header_of : Detail → Option ℕ
header_of (quota message usage_type used limit requested wait) = some wait
header_of _ = none

module _ {A : Type 0} where
  -- The exception handlers but the last; `describe` is `str` of an exception. HTTPException and
  -- RequestValidationError have FastAPI's own.
  unfoldable pub handled : (Exn → String) → Exn → Option (Response A)
  unfolding type_value redact header_of
  handled describe (quota_exceeded usage_type used limit requested) = some (record {
    status = 429;
    content = over_quota (type_value usage_type) used limit requested 86400;
    retry_after = some 86400;
    x_request_id = none;
  })
  handled describe (payment_required message) =
      some (
        json_response 402 (error "payment_required" (redact (describe (payment_required message)))))
  handled describe (validation_error message) = some (json_response 400 (errors message))
  handled describe (stripe_error message) =
      some (json_response 400 (billing_error "Payment processing failed"))
  handled describe signature_verification_error =
      some (json_response 400 (billing_error "Payment processing failed"))
  handled describe (http status d) = some (record {
    status = status;
    content = detail d;
    retry_after = header_of d;
    x_request_id = none;
  })
  handled describe (request_validation_error message) = some (json_response 422 (errors message))
  handled describe _ = none

  unfoldable pub or_raise : Exn → Option (Response A) → Result Exn (Response A)
  or_raise e none = err e
  or_raise e (some r) = ok r

  unfoldable pub or_handled : (Exn → String) → Result Exn (Response A) → Result Exn (Response A)
  unfolding handled or_raise
  or_handled describe (ok r) = ok r
  or_handled describe (err e) = or_raise e (handled describe e)

  unfoldable pub with_handlers : (Exn → String) → App (Response A) → App (Response A)
  unfolding or_handled
  with_handlers describe app w = let (r, w') = app w in (or_handled describe r, w')

  -- `generic_exception_handler`
  unfoldable pub or_internal_error : Result Exn (Response A) → Response A
  or_internal_error (ok r) = r
  or_internal_error (err e) =
      json_response 500 (error "internal_error" "An unexpected error occurred")
