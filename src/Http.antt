-- ===== src/Http.antt =====
-- The requests and responses of the application in src/main.py, as its middleware and its endpoints
-- see them.
pub mod Exceptions
pub mod Middleware
pub mod Router
pub mod Laws
pub mod Metering
pub mod CacheKeys
pub mod Replay
use flyrank_capstone_meterin.Prelude.{ℕ, String, Option, none, some}
use flyrank_capstone_meterin.Errors.{Detail}

-- The header names are those of the fields, in any letter case.
pub record HttpRequest : Type 0 where
  pub method : String
  pub path : String
  pub x_tenant_id : Option String
  pub x_api_key : Option String
  pub idempotency_key : Option String
  pub x_request_id : Option String
  pub stripe_signature : Option String
  pub user_agent : Option String
  pub client_host : Option String
  pub payload : String

-- The JSON of a response: an endpoint's answer, {"detail": …}, {"error": …, "detail": …}, the numbers of
-- an exceeded quota, {"error": "billing_error", "message": …}, or the errors of a validation.
pub data Content (A : Type 0) : Type 0 where
  answer : A → Content A
  detail : Detail → Content A
  error : String → String → Content A
  over_quota : String → ℕ → ℕ → ℕ → ℕ → Content A
  billing_error : String → Content A
  errors : String → Content A

pub record Response (A : Type 0) : Type 0 where
  pub status : ℕ
  pub content : Content A
  pub retry_after : Option ℕ
  pub x_request_id : Option String

abbrev pub json_response : {A : Type 0} → ℕ → Content A → Response A
json_response status content = record {
  status = status;
  content = content;
  retry_after = none;
  x_request_id = none;
}

abbrev pub header_or : String → Option String → String
header_or default none = default
header_or default (some value) = value
