-- ===== src/Meter.antt =====
-- src/services/meter_service.py: a usage event is checked against the quota, priced and recorded,
-- under the retry of src/config/database.py.
pub mod Laws
pub mod Safety
pub mod Race
use flyrank_capstone_meterin.Prelude.{
  ℕ, ◌+◌, ◌-◌, String, Bool, true, false, Option, none, some, if◌then◌else◌,
}
use flyrank_capstone_meterin.Result.{Result, ok, err}
use flyrank_capstone_meterin.Exec.{pure, raise, lift, ◌>>=◌}
use flyrank_capstone_meterin.Errors.{Exn, quota_exceeded, type_error}
use flyrank_capstone_meterin.Cost.{PricingConfig, calculate}
use flyrank_capstone_meterin.Models.{UsageEvent, UsageType, type_value}
use flyrank_capstone_meterin.World.{World, App, Moment}
use flyrank_capstone_meterin.Retry.{RetryPolicy, Outcome, with_db_retry, is_transient_error}
use flyrank_capstone_meterin.Usage.{record_usage}
use flyrank_capstone_meterin.Quota.{QuotaInfo, check_quota}

-- What the service takes from outside: the configured prices, and `str(exc)` of an exception.
pub record Env : Type 0 where
  pub pricing : PricingConfig
  pub describe : Exn → String

-- The arguments of `record`.
pub record MeterCall : Type 0 where
  pub tenant_id : ℕ
  pub usage_type : UsageType
  pub qty : ℕ
  pub idempotency_key : String
  pub req_ip : Option String
  pub user_agent : Option String

-- `updated_quota_info`
pub record UpdatedQuota : Type 0 where
  pub usage_type : String
  pub used : ℕ
  pub limit : ℕ
  pub remaining : ℕ

-- The row that a call inserts: `id` is the fresh UUID.
abbrev pub new_event : Moment → ℕ → MeterCall → ℕ → UsageEvent
new_event m id call cost_microunits = record {
  id = id;
  tenant_id = call.tenant_id;
  idempotency_key = call.idempotency_key;
  usage_type = call.usage_type;
  quantity = call.qty;
  cost_microunits = cost_microunits;
  request_ip = call.req_ip;
  user_agent = call.user_agent;
  created_at = m.db_now;
}

-- The QuotaExceededError of both `raise`s.
abbrev pub exceeded : MeterCall → QuotaInfo → Exn
exceeded call info = quota_exceeded call.usage_type info.used info.limit call.qty

abbrev pub updated_quota : MeterCall → QuotaInfo → UpdatedQuota
updated_quota call info = record {
  usage_type = type_value call.usage_type;
  used = info.used + call.qty;
  limit = info.limit;
  remaining = info.limit - (info.used + call.qty);
}

pub report : MeterCall → QuotaInfo → Option UsageEvent → App (UsageEvent × UpdatedQuota)
report call info none = raise (exceeded call info)
report call info (some event) = pure (event, updated_quota call info)

-- The part after the quota check.
pub store_event : Env → Moment → ℕ → MeterCall → Bool × QuotaInfo → App (UsageEvent × UpdatedQuota)
unfolding report
store_event env m id call (false, info) = raise (exceeded call info)
store_event env m id call (true, info) = do
  cost_microunits ← lift (calculate env.pricing call.usage_type call.qty)
  event ← record_usage (new_event m id call cost_microunits)
  report call info event

-- The body of `record`.
unfoldable pub record_once : Env → Moment → ℕ → MeterCall → App (UsageEvent × UpdatedQuota)
unfolding store_event
record_once env m id call = do
  answer ← check_quota m call.tenant_id call.usage_type call.qty
  store_event env m id call answer

-- `@with_db_retry(max_retries=3, base_delay=0.05, max_delay=0.5)`
abbrev pub record_policy : RetryPolicy
record_policy = record { max_retries = 3; base_delay = 50; max_delay = 500 }

-- `record` of the source; the word is the language's own here.
unfoldable pub record_event : Env → Moment → ℕ → MeterCall → App (UsageEvent × UpdatedQuota)
record_event env m id call w =
    let o =
      with_db_retry record_policy (λ e. is_transient_error (env.describe e))
        (type_error "exceptions must derive from BaseException") (record_once env m id call) w in
    (o.result, o.state)
