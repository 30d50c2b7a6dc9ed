-- ===== src/Models.antt =====
-- src/models/: the tables' rows and their enums, and src/schemas/meter.py's exceptions. UUIDs are
-- numbers, since they are only compared. `updated_at`, and `created_at` where nothing reads it, are left
-- out.
pub mod Enums
pub use Enums.*
unfoldable pub use Enums.{
  same_type, same_status, same_tier, type_value, type_of_value, status_of_value, tier_value,
}
use flyrank_capstone_meterin.Prelude.{ℕ, String, Bool, Option}
use flyrank_capstone_meterin.Clock.{DateTime}

-- models/tenant.py
pub record Tenant : Type 0 where
  pub id : ℕ
  pub name : String
  pub email : String
  pub stripe_customer_id : Option String
  pub api_key_hash : Option String
  pub created_at : Option DateTime

-- models/plan.py
pub record Plan : Type 0 where
  pub id : PlanTier
  pub name : String
  pub api_call_quota : ℕ
  pub ai_token_quota : ℕ
  pub price_cents : ℕ
  pub stripe_price_id : Option String
  pub is_active : Bool

-- models/subscription.py
pub record Subscription : Type 0 where
  pub id : ℕ
  pub tenant_id : ℕ
  pub plan_id : PlanTier
  pub stripe_subscription_id : Option String
  pub status : SubscriptionStatus
  pub current_period_start : Option DateTime
  pub current_period_end : Option DateTime
  pub cancel_at_period_end : Bool
  pub canceled_at : Option DateTime

-- models/usage_event.py
pub record UsageEvent : Type 0 where
  pub id : ℕ
  pub tenant_id : ℕ
  pub idempotency_key : String
  pub usage_type : UsageType
  pub quantity : ℕ
  pub cost_microunits : ℕ
  pub request_ip : Option String
  pub user_agent : Option String
  pub created_at : DateTime

-- models/stripe_event.py, less the payload, which is only stored
pub record ProcessedStripeEvent : Type 0 where
  pub event_id : String
  pub event_type : String
