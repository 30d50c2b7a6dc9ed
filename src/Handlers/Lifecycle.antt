-- ===== src/Handlers/Lifecycle.antt =====
-- `_handle_subscription_created`, `_updated`, `_deleted` and `_trial_will_end`, and
-- `_handle_invoice_upcoming`, of src/api/v1/webhook.py.
use flyrank_capstone_meterin.Prelude.{
  ℕ, zero, String, not, Option, none, some, [], ◌∷◌, str_eq, if◌then◌else◌,
}
use flyrank_capstone_meterin.Result.{Result, ok, err}
use flyrank_capstone_meterin.Exec.{pure, lift, ◌>>=◌, ◌>>◌}
use flyrank_capstone_meterin.Errors.{Exn, value_error}
use flyrank_capstone_meterin.Clock.{DateTime, from_timestamp}
use flyrank_capstone_meterin.Models.{
  Subscription, SubscriptionStatus, canceled, PlanTier, status_of_value, tier_value,
}
use flyrank_capstone_meterin.World.{App, Moment}
use flyrank_capstone_meterin.Subscriptions.{get_by_stripe_id, create, update}
use flyrank_capstone_meterin.Stripe.{StripeSubscription, StripeEnv}
use flyrank_capstone_meterin.Handlers.Checkout.{
  truthy, tier_of_price, invalidate_subscription_cache,
}

unfoldable pub or_value_error : {A : Type 0} → Option A → Result Exn A
or_value_error none = err (value_error "invalid value")
or_value_error (some a) = ok a

-- `SubscriptionStatus(subscription.status)`
unfoldable pub status_of : StripeSubscription → Result Exn SubscriptionStatus
unfolding or_value_error
status_of sub = or_value_error (status_of_value sub.status)

-- `subscription.items.data[0].price.id`, if there are items
unfoldable pub first_price : StripeSubscription → Option String
first_price sub = elim sub.price_ids [ [] ↦ none | price ∷ rest ↦ some price ]

-- A timestamp of 0 is false.
unfoldable pub time_if_set : Option ℕ → Option DateTime
time_if_set none = none
time_if_set (some zero) = none
time_if_set (some ts) = some (from_timestamp ts)

unfoldable pub optional_uuid : StripeEnv → Option String → Result Exn (Option ℕ)
optional_uuid env none = ok none
optional_uuid env (some text) = elim (env.parse_uuid text) [
  | none ↦ err (value_error "badly formed hexadecimal UUID string")
  | some id ↦ ok (some id)
]

-- The row of a subscription that Stripe reports and the database does not have.
abbrev pub reported_row : StripeEnv → StripeSubscription → SubscriptionStatus → ℕ → Subscription
reported_row env sub status tenant_id = record {
  id = env.new_subscription_id;
  tenant_id = tenant_id;
  plan_id = tier_of_price env (first_price sub);
  stripe_subscription_id = some sub.id;
  status = status;
  current_period_start = some (from_timestamp sub.current_period_start);
  current_period_end = some (from_timestamp sub.current_period_end);
  cancel_at_period_end = sub.cancel_at_period_end;
  canceled_at = time_if_set sub.canceled_at;
}

unfoldable pub create_reported : StripeEnv → Moment → StripeSubscription → App (Unit {0})
create_reported env m sub = do
  tenant_id ← lift (optional_uuid env (truthy sub.tenant_id))
  status ← lift (status_of sub)
  new_sub ← create tenant_id (reported_row env sub status)
  invalidate_subscription_cache env m new_sub.tenant_id

unfoldable pub write_reported_status :
    StripeEnv → Moment → StripeSubscription → Subscription → App (Unit {0})
write_reported_status env m sub s = do
  status ← lift (status_of sub)
  update (record s { status = status })
  invalidate_subscription_cache env m s.tenant_id

unfoldable pub created_for :
    StripeEnv → Moment → StripeSubscription → Option Subscription → App (Unit {0})
created_for env m sub none = create_reported env m sub
created_for env m sub (some s) = write_reported_status env m sub s

unfoldable pub handle_subscription_created :
    StripeEnv → Moment → StripeSubscription → App (Unit {0})
handle_subscription_created env m sub = do
  db_sub ← get_by_stripe_id (some sub.id)
  created_for env m sub db_sub

-- The plan changes where the first price is not the text of the plan that is stored.
unfoldable pub updated_tier : StripeEnv → PlanTier → Option String → PlanTier
unfolding tier_of_price
updated_tier env tier none = tier
updated_tier env tier (some new_price_id) =
    if not (str_eq new_price_id (tier_value tier))
    then tier_of_price env (some new_price_id)
    else tier

abbrev pub updated_row :
    StripeEnv → StripeSubscription → SubscriptionStatus → Subscription → Subscription
updated_row env sub status s = record s {
  status = status;
  current_period_start = some (from_timestamp sub.current_period_start);
  current_period_end = some (from_timestamp sub.current_period_end);
  cancel_at_period_end = sub.cancel_at_period_end;
  plan_id = updated_tier env s.plan_id (first_price sub);
}

unfoldable pub updated_for :
    StripeEnv → Moment → StripeSubscription → Option Subscription → App (Unit {0})
updated_for env m sub none = pure tt
updated_for env m sub (some s) = do
  status ← lift (status_of sub)
  update (updated_row env sub status s)
  invalidate_subscription_cache env m s.tenant_id

unfoldable pub handle_subscription_updated :
    StripeEnv → Moment → StripeSubscription → App (Unit {0})
handle_subscription_updated env m sub = do
  db_sub ← get_by_stripe_id (some sub.id)
  updated_for env m sub db_sub

unfoldable pub canceled_time : Moment → Option DateTime → Option DateTime
canceled_time m none = some m.now
canceled_time m (some t) = some t

abbrev pub deleted_row : Moment → StripeSubscription → Subscription → Subscription
deleted_row m sub s = record s {
  status = canceled;
  canceled_at = canceled_time m (time_if_set sub.canceled_at);
}

unfoldable pub deleted_for :
    StripeEnv → Moment → StripeSubscription → Option Subscription → App (Unit {0})
deleted_for env m sub none = pure tt
deleted_for env m sub (some s) = do
  update (deleted_row m sub s)
  invalidate_subscription_cache env m s.tenant_id

unfoldable pub handle_subscription_deleted :
    StripeEnv → Moment → StripeSubscription → App (Unit {0})
handle_subscription_deleted env m sub = do
  db_sub ← get_by_stripe_id (some sub.id)
  deleted_for env m sub db_sub

-- These two only log.
unfoldable pub handle_subscription_trial_will_end : StripeSubscription → App (Unit {0})
handle_subscription_trial_will_end sub = pure tt

unfoldable pub handle_invoice_upcoming : App (Unit {0})
handle_invoice_upcoming = pure tt
