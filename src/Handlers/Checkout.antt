-- ===== src/Handlers/Checkout.antt =====
-- `_handle_checkout_completed` of src/api/v1/webhook.py and what it calls.
use Prim.Native.Char.{code}
use Prim.Native.String.{◌++◌ as cat}
use flyrank_capstone_meterin.Prelude.{
  ℕ, String, false, Option, none, some, List, [], ◌∷◌, ◌==◌, str_eq, if◌then◌else◌,
}
use flyrank_capstone_meterin.Exec.{pure, lift, ◌>>=◌, ◌>>◌}
use flyrank_capstone_meterin.Clock.{add_days}
use flyrank_capstone_meterin.Models.{Tenant, Subscription, PlanTier, free, pro, active}
use flyrank_capstone_meterin.World.{App, Moment, cached_delete}
use flyrank_capstone_meterin.Tenants.{get_tenant, create_tenant}
use flyrank_capstone_meterin.Subscriptions.{get_by_stripe_id, upsert_from_stripe}
use flyrank_capstone_meterin.Stripe.{CheckoutSession, StripeEnv}

-- `x or None` on a text: an empty text is false.
unfoldable pub truthy : Option String → Option String
truthy none = none
truthy (some s) = if str_eq s "" then none else some s

-- `email.split("@")[0]`
unfoldable pub before_at : String → String
before_at String.[] = String.[]
before_at (String.◌∷◌ c s) =
    let rest = before_at s in if code c == b'@' then String.[] else String.◌∷◌ c rest

unfoldable pub name_of : Option String → String
unfolding before_at
name_of none = "New Tenant"
name_of (some email) = before_at email

-- `_invalidate_subscription_cache`
unfoldable pub invalidate_subscription_cache : StripeEnv → Moment → ℕ → App (Unit {0})
invalidate_subscription_cache env m tenant_id =
    cached_delete m (cat "sub:" (env.uuid_text tenant_id))

-- `_create_new_tenant_from_checkout`
unfoldable pub create_new_tenant_from_checkout : StripeEnv → Moment → CheckoutSession → App Tenant
unfolding name_of
create_new_tenant_from_checkout env m session = do
  customer ← lift (env.get_customer session.customer)
  create_tenant env.new_tenant_id m.db_now (name_of (truthy customer.email)) customer.email
      env.new_key_hash (some customer.id)

unfoldable pub tier_of_price : StripeEnv → Option String → PlanTier
tier_of_price env none = free
tier_of_price env (some price_id) = if str_eq price_id env.price_id_pro then pro else free

-- The plan of `_create_or_update_subscription`: that of the first display item, if there is one.
unfoldable pub tier_of_items : StripeEnv → Option (List (Option String)) → PlanTier
unfolding tier_of_price
tier_of_items env none = free
tier_of_items env (some []) = free
tier_of_items env (some (item ∷ rest)) = tier_of_price env item

-- The arguments of `upsert_from_stripe`.
abbrev pub checkout_row : StripeEnv → Moment → ℕ → Option String → CheckoutSession → Subscription
checkout_row env m tenant_id subscription_id session = record {
  id = env.new_subscription_id;
  tenant_id = tenant_id;
  plan_id = tier_of_items env session.display_items;
  stripe_subscription_id = subscription_id;
  status = active;
  current_period_start = some m.now;
  current_period_end = some (add_days 30 m.now);
  cancel_at_period_end = false;
  canceled_at = none;
}

-- `_create_or_update_subscription`
unfoldable pub create_or_update_subscription :
    StripeEnv → Moment → ℕ → Option String → CheckoutSession → App (Unit {0})
create_or_update_subscription env m tenant_id subscription_id session = do
  existing_sub ← get_by_stripe_id subscription_id
  upsert_from_stripe (checkout_row env m tenant_id subscription_id session)
  pure tt

-- The end of `_handle_checkout_completed`, for the tenant that it has found or created.
unfoldable pub finish_checkout : StripeEnv → Moment → CheckoutSession → ℕ → App (Unit {0})
finish_checkout env m session tenant_id = do
  create_or_update_subscription env m tenant_id session.subscription session
  invalidate_subscription_cache env m tenant_id

unfoldable pub finish_if_found :
    StripeEnv → Moment → CheckoutSession → ℕ → Option Tenant → App (Unit {0})
finish_if_found env m session tenant_id none = pure tt
finish_if_found env m session tenant_id (some tenant) = finish_checkout env m session tenant_id

unfoldable pub for_parsed : StripeEnv → Moment → CheckoutSession → Option ℕ → App (Unit {0})
for_parsed env m session none = pure tt
for_parsed env m session (some tenant_id) = do
  tenant ← get_tenant tenant_id
  finish_if_found env m session tenant_id tenant

unfoldable pub by_metadata : StripeEnv → Moment → CheckoutSession → Option String → App (Unit {0})
by_metadata env m session (some tenant_id_str) =
    for_parsed env m session (env.parse_uuid tenant_id_str)
by_metadata env m session none = do
  tenant ← create_new_tenant_from_checkout env m session
  finish_checkout env m session tenant.id

-- `_handle_checkout_completed`
unfoldable pub handle_checkout_completed : StripeEnv → Moment → CheckoutSession → App (Unit {0})
unfolding truthy
handle_checkout_completed env m session = by_metadata env m session (truthy session.tenant_id)
