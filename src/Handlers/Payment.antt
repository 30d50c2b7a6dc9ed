-- ===== src/Handlers/Payment.antt =====
-- `_handle_payment_succeeded` and `_handle_payment_failed` of src/api/v1/webhook.py.
use flyrank_capstone_meterin.Prelude.{String, Option, none, some}
use flyrank_capstone_meterin.Exec.{pure, ◌>>=◌, ◌>>◌}
use flyrank_capstone_meterin.Models.{Subscription, SubscriptionStatus, active, past_due}
use flyrank_capstone_meterin.World.{App, Moment}
use flyrank_capstone_meterin.Tenants.{get_tenant}
use flyrank_capstone_meterin.Subscriptions.{get_by_stripe_id, update}
use flyrank_capstone_meterin.Stripe.{Invoice, StripeEnv}
use flyrank_capstone_meterin.Handlers.Checkout.{truthy, invalidate_subscription_cache}

-- The subscription in a new status is written, and its cache entry deleted.
unfoldable pub write_status :
    StripeEnv → Moment → SubscriptionStatus → Option Subscription → App (Unit {0})
write_status env m status none = pure tt
write_status env m status (some s) = do
  update (record s { status = status })
  invalidate_subscription_cache env m s.tenant_id

-- After a payment the tenant is read once more, for the log.
unfoldable pub then_read_tenant : Option Subscription → App (Unit {0})
then_read_tenant none = pure tt
then_read_tenant (some s) = do get_tenant s.tenant_id; pure tt

unfoldable pub succeeded_for : StripeEnv → Moment → Option String → App (Unit {0})
succeeded_for env m none = pure tt
succeeded_for env m (some id) = do
  found ← get_by_stripe_id (some id)
  write_status env m active found
  then_read_tenant found

unfoldable pub failed_for : StripeEnv → Moment → Option String → App (Unit {0})
failed_for env m none = pure tt
failed_for env m (some id) = do
  found ← get_by_stripe_id (some id)
  write_status env m past_due found

unfoldable pub handle_payment_succeeded : StripeEnv → Moment → Invoice → App (Unit {0})
unfolding truthy
handle_payment_succeeded env m invoice = succeeded_for env m (truthy invoice.subscription)

unfoldable pub handle_payment_failed : StripeEnv → Moment → Invoice → App (Unit {0})
unfolding truthy
handle_payment_failed env m invoice = failed_for env m (truthy invoice.subscription)
