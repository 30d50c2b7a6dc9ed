-- ===== src/Examples.antt =====
-- A small installation at which the theorems are applied: two tenants, the two plans, a subscription
-- of the first tenant, one recorded event, and Redis connected.
mod Metering
mod Requests
mod Quotas
mod Billing
mod Parts
mod Reports
mod Access
mod Limits
mod Accounts
mod Serving
mod Refusals
mod Keys
mod Client
mod Replays
mod Seeding
mod Reordered
mod Scanning
mod Migrating
use flyrank_capstone_meterin.Prelude.{
  ℕ, String, true, false, Option, none, some, List, [], ◌∷◌, ◌&&◌, ◌||◌, ltb, str_eq, if◌then◌else◌,
}
use flyrank_capstone_meterin.Result.{Result, ok, err}
use flyrank_capstone_meterin.Errors.{Exn, signature_verification_error, external}
use flyrank_capstone_meterin.Clock.{DateTime}
use flyrank_capstone_meterin.Models.{
  Tenant, Plan, Subscription, UsageEvent, api_call, output_tokens, free, pro, active,
}
use flyrank_capstone_meterin.Cache.{Redis, Ticks}
use flyrank_capstone_meterin.World.{Db, World, Moment}
use flyrank_capstone_meterin.Cost.{default_pricing}
use flyrank_capstone_meterin.Meter.{Env, MeterCall}
use flyrank_capstone_meterin.Stripe.{Event, invoice, StripeEnv}

abbrev pub june : DateTime
june = record { year = 2025; month = 6; day = 15; micros = 7 }

abbrev pub june_start : DateTime
june_start = record { year = 2025; month = 6; day = 1; micros = 0 }

abbrev pub noon : Moment
noon = record {
  now = june;
  db_now = june;
  ticks = record { monotonic = 9000000; time = 1000000000; seconds = 1000 };
}

abbrev pub later : Moment
later = record {
  now = june;
  db_now = june;
  ticks = record { monotonic = 9900000; time = 2000000000; seconds = 2000 };
}

abbrev pub soon : Moment
soon = record {
  now = june;
  db_now = june;
  ticks = record { monotonic = 9900000; time = 1020000000; seconds = 1020 };
}

abbrev tenant_of : ℕ → String → Tenant
tenant_of id email = record {
  id = id;
  name = "acme";
  email = email;
  stripe_customer_id = none;
  api_key_hash = none;
  created_at = none;
}

abbrev pub first_tenant : Tenant
first_tenant = tenant_of 1 "a@acme.test"

abbrev pub free_plan : Plan
free_plan = record {
  id = free;
  name = "Free";
  api_call_quota = 1000;
  ai_token_quota = 500000;
  price_cents = 0;
  stripe_price_id = none;
  is_active = true;
}

abbrev pub pro_plan : Plan
pro_plan = record free_plan { id = pro; api_call_quota = 100000 }

abbrev pub first_subscription : Subscription
first_subscription = record {
  id = 21;
  tenant_id = 1;
  plan_id = free;
  stripe_subscription_id = some "sub_1";
  status = active;
  current_period_start = none;
  current_period_end = none;
  cancel_at_period_end = false;
  canceled_at = none;
}

abbrev pub old_event : UsageEvent
old_event = record {
  id = 31;
  tenant_id = 1;
  idempotency_key = "old";
  usage_type = api_call;
  quantity = 3;
  cost_microunits = 3000;
  request_ip = none;
  user_agent = none;
  created_at = june;
}

abbrev pub tables : Db
tables = record {
  tenants = first_tenant ∷ tenant_of 2 "b@acme.test" ∷ [];
  plans = free_plan ∷ pro_plan ∷ [];
  subscriptions = first_subscription ∷ [];
  usage_events = old_event ∷ [];
  stripe_events = [];
}

abbrev pub connected : Redis
connected = record {
  pool = true;
  last_connection_attempt = 0;
  reachable = true;
  entries = [];
  zsets = [];
}

abbrev pub unreachable : Redis
unreachable = record {
  pool = false;
  last_connection_attempt = 0;
  reachable = false;
  entries = [];
  zsets = [];
}

abbrev pub installation : World
installation = record { db = tables; committed = tables; redis = connected }

abbrev pub default_env : Env
default_env = record { pricing = default_pricing; describe = λ e. "Quota exceeded" }

abbrev pub one_text : ℕ → String
one_text id = "00000000-0000-4000-8000-000000000001"

abbrev pub call_of : ℕ → String → ℕ → MeterCall
call_of tenant_id key qty = record {
  tenant_id = tenant_id;
  usage_type = api_call;
  qty = qty;
  idempotency_key = key;
  req_ip = none;
  user_agent = none;
}

abbrev pub failed_payment : Event
failed_payment = record {
  id = "evt_1";
  type = "invoice.payment_failed";
  object = invoice (record { subscription = some "sub_1" });
}

abbrev pub stripe_env : StripeEnv
stripe_env = record {
  verify_webhook_signature = λ clock payload sig secret.
      if str_eq sig "good" && ltb clock 1300 || str_eq sig "anew" && ltb 1700 clock
      then ok failed_payment
      else err signature_verification_error;
  get_customer = λ customer. err (external "No such customer");
  parse_uuid = λ text. none;
  uuid_text = one_text;
  webhook_secret = "whsec";
  price_id_pro = "price_pro";
  new_tenant_id = 41;
  new_subscription_id = 42;
  new_key_hash = "hash";
}
