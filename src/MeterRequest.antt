-- ===== src/MeterRequest.antt =====
-- The request of POST /meter: `MeterRequest` of src/schemas/meter.py, the headers, and the handler with
-- its tenant and session.
pub mod Laws
pub mod Records
use flyrank_capstone_meterin.Prelude.{
  ℕ, String, Bool, true, false, ◌&&◌, Option, none, some, List, [], ◌∷◌, leb, ltb, ◌==◌,
  if◌then◌else◌,
}
use flyrank_capstone_meterin.Result.{Result, ok, err}
use flyrank_capstone_meterin.Exec.{raise, lift, ◌>>=◌}
use flyrank_capstone_meterin.Errors.{Exn, request_validation_error}
use flyrank_capstone_meterin.Money.{ℤ, pos, negsuc}
use flyrank_capstone_meterin.Models.{UsageType, type_value}
use flyrank_capstone_meterin.Payloads.{MeterResponse}
use flyrank_capstone_meterin.World.{World, App, Moment, get_db}
use flyrank_capstone_meterin.Retry.{codes, lower}
use flyrank_capstone_meterin.Usage.{all_types}
use flyrank_capstone_meterin.Meter.{Env, MeterCall}
use flyrank_capstone_meterin.MeterApi.{handle_meter}
use flyrank_capstone_meterin.Auth.{AuthEnv, Loaded, get_current_tenant}

-- The JSON body; a field of another type does not validate.
pub record MeterBody : Type 0 where
  pub usage_type : String
  pub qty : ℤ

abbrev pub max_quantity : ℕ
max_quantity = 10000000

unfoldable pub same_codes : List ℕ → List ℕ → Bool
same_codes [] [] = true
same_codes (a ∷ as_) (b ∷ bs) = a == b && same_codes as_ bs
same_codes _ _ = false

find_type : List ℕ → List UsageType → Option UsageType
unfolding same_codes
find_type text [] = none
find_type text (u ∷ rest) =
    let others = find_type text rest in
    if same_codes text (codes (type_value u)) then some u else others

-- `UsageType(value.lower())`
unfoldable pub validate_usage_type : String → Option UsageType
unfolding find_type type_value lower
validate_usage_type value = find_type (lower (codes value)) all_types

-- `gt=0, le=10_000_000`
unfoldable pub validate_quantity : ℤ → Option ℕ
validate_quantity (negsuc n) = none
validate_quantity (pos n) = if ltb 0 n && leb n max_quantity then some n else none

unfoldable pub validate_body : Option UsageType → Option ℕ → Result Exn (UsageType × ℕ)
validate_body (some usage_type) (some qty) = ok (usage_type, qty)
validate_body _ _ = err (request_validation_error "body")

unfoldable pub meter_request : MeterBody → Result Exn (UsageType × ℕ)
unfolding validate_usage_type validate_quantity validate_body
meter_request body =
    validate_body (validate_usage_type body.usage_type) (validate_quantity body.qty)

-- What a request carries besides its body.
pub record MeterHeaders : Type 0 where
  pub x_tenant_id : String
  pub x_api_key : Option String
  pub idempotency_key : String
  pub client_host : Option String
  pub user_agent : Option String

abbrev pub call_of : MeterHeaders → Loaded → UsageType × ℕ → MeterCall
call_of h l (usage_type, qty) = record {
  tenant_id = l.row.id;
  usage_type = usage_type;
  qty = qty;
  idempotency_key = h.idempotency_key;
  req_ip = h.client_host;
  user_agent = h.user_agent;
}

-- The request in its session: first the tenant, then the body, then the handler.
unfoldable pub meter_body :
    Env → AuthEnv → Moment → ℕ → MeterHeaders → MeterBody → App MeterResponse
meter_body env auth m id h body = do
  l ← get_current_tenant auth m h.x_tenant_id h.x_api_key
  valid ← lift (meter_request body)
  handle_meter env auth.uuid_text m id (call_of h l valid)

unfoldable pub request_meter :
    Env → AuthEnv → Moment → ℕ → MeterHeaders → MeterBody → App MeterResponse
request_meter env auth m id h body = get_db (meter_body env auth m id h body)
