-- ===== src/Stripe.antt =====
-- The Stripe objects that src/api/v1/webhook.py reads, and what it takes from outside the
-- repository: the Stripe client, UUID parsing and the configured price.
use flyrank_capstone_meterin.Prelude.{ℕ, String, Bool, Option, List}
use flyrank_capstone_meterin.Result.{Result}
use flyrank_capstone_meterin.Errors.{Exn}

-- A Checkout session. `display_items` may be missing; of an item only `plan.price.id` is read, and
-- `none` is an item without it.
pub record CheckoutSession : Type 0 where
  pub tenant_id : Option String
  pub requested_plan_tier : Option String
  pub customer : Option String
  pub subscription : Option String
  pub display_items : Option (List (Option String))

pub record Invoice : Type 0 where
  pub subscription : Option String

-- A subscription at Stripe, with the price ids of its items; timestamps are seconds.
pub record StripeSubscription : Type 0 where
  pub id : String
  pub status : String
  pub tenant_id : Option String
  pub price_ids : List String
  pub current_period_start : ℕ
  pub current_period_end : ℕ
  pub cancel_at_period_end : Bool
  pub canceled_at : Option ℕ

pub data EventObject : Type 0 where
  checkout : CheckoutSession → EventObject
  invoice : Invoice → EventObject
  subscription : StripeSubscription → EventObject
  other : EventObject

pub record Event : Type 0 where
  pub id : String
  pub type : String
  pub object : EventObject

pub record Customer : Type 0 where
  pub id : String
  pub email : Option String

-- `verify_webhook_signature` reads the clock, in seconds: a signature is good for some time only.
-- `uuid_text` is `str` of a UUID; `new_tenant_id` and `new_subscription_id` are the fresh UUIDs of a
-- request, and `new_key_hash` the hash of its fresh API key.
pub record StripeEnv : Type 0 where
  pub verify_webhook_signature : ℕ → String → String → String → Result Exn Event
  pub get_customer : Option String → Result Exn Customer
  pub parse_uuid : String → Option ℕ
  pub uuid_text : ℕ → String
  pub webhook_secret : String
  pub price_id_pro : String
  pub new_tenant_id : ℕ
  pub new_subscription_id : ℕ
  pub new_key_hash : String
