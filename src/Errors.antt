-- ===== src/Errors.antt =====
-- The exceptions that the program raises or meets: src/schemas/meter.py, FastAPI's HTTPException,
-- and those of SQLAlchemy and of the Stripe client.
use flyrank_capstone_meterin.Prelude.{ℕ, String}
use flyrank_capstone_meterin.Models.{UsageType}

-- The constraints of the tables that a write can break.
pub data Constraint : Type 0 where
  unique_subscription_tenant unique_stripe_subscription unique_stripe_customer : Constraint
  tenant_exists plan_exists : Constraint
  tenant_not_null email_not_null : Constraint

-- The `detail` of an HTTPException: a text, one of the two dicts of src/api/v1/meter.py, or the checks
-- of src/api/health.py (database, stripe, rate_limiter). The quota's says the message, the type, used,
-- limit, requested and the seconds of Retry-After.
pub data Detail : Type 0 where
  text : String → Detail
  quota : String → String → ℕ → ℕ → ℕ → ℕ → Detail
  payment : String → Detail
  checks : String → String → String → Detail

pub data Exn : Type 0 where
  quota_exceeded : UsageType → ℕ → ℕ → ℕ → Exn
  payment_required : String → Exn
  value_error : String → Exn
  type_error : String → Exn
  http : ℕ → Detail → Exn
  integrity_error : Constraint → Exn
  multiple_results no_result : Exn
  -- pydantic's, FastAPI's for a request, and Stripe's
  validation_error request_validation_error stripe_error : String → Exn
  signature_verification_error : Exn
  -- raised by a library or by the network, with its message
  external : String → Exn
