-- ===== src/Payloads.antt =====
-- The values that cross an interface: the responses of src/schemas/meter.py and
-- src/schemas/usage.py, and the JSON objects that the program keeps in Redis.
use flyrank_capstone_meterin.Prelude.{ℕ, String, Bool, Option}
use flyrank_capstone_meterin.Clock.{DateTime}
use flyrank_capstone_meterin.Models.{UsageType}

-- `remaining_quota` is a dict with two fixed keys.
pub record RemainingQuota : Type 0 where
  pub api_calls : ℕ
  pub ai_tokens : ℕ

pub record MeterResponse : Type 0 where
  pub recorded : Bool
  pub usage_event_id : ℕ
  pub usage_type : UsageType
  pub quantity : ℕ
  pub cost_microunits : ℕ
  pub remaining_quota : RemainingQuota

-- `response.model_dump(mode="json")`: the enum is its text.
pub record CachedResponse : Type 0 where
  pub recorded : Bool
  pub usage_event_id : ℕ
  pub usage_type : String
  pub quantity : ℕ
  pub cost_microunits : ℕ
  pub remaining_quota : RemainingQuota

-- `cache_data` of `get_current_tenant`.
pub record CachedTenant : Type 0 where
  pub id : ℕ
  pub name : String
  pub email : String
  pub api_key_hash : Option String
  pub stripe_customer_id : Option String

pub record TokenBreakdown : Type 0 where
  pub input_tokens : ℕ
  pub cached_input_tokens : ℕ
  pub output_tokens : ℕ
  pub reasoning_tokens : ℕ
  pub input_cost_cents : ℕ
  pub cached_input_cost_cents : ℕ
  pub output_cost_cents : ℕ

pub record UsageDetail : Type 0 where
  pub used : ℕ
  pub limit : ℕ
  pub remaining : ℕ
  pub cost_cents : ℕ
  pub breakdown : Option TokenBreakdown

pub record UsageResponse : Type 0 where
  pub period_start : DateTime
  pub period_end : DateTime
  pub plan : String
  pub api_calls : UsageDetail
  pub ai_tokens : UsageDetail
  pub total_cost_cents : ℕ

-- What a Redis key can hold.
pub data Cached : Type 0 where
  response : CachedResponse → Cached
  tenant : CachedTenant → Cached
  usage : UsageResponse → Cached
