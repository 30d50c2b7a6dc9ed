-- ===== src/Webhook.antt =====
-- src/api/v1/webhook.py: the dispatch of Stripe events and POST /webhooks/stripe.
pub mod Laws
pub mod Delivery
use flyrank_capstone_meterin.Prelude.{
  ℕ, ◌/◌, String, Bool, true, false, Option, none, some, str_eq, if◌then◌else◌,
}
use flyrank_capstone_meterin.Result.{Result, ok, err}
use flyrank_capstone_meterin.Exec.{pure, raise, lift, ◌>>=◌, ◌>>◌}
use flyrank_capstone_meterin.Errors.{Exn, signature_verification_error, external, http, text}
use flyrank_capstone_meterin.World.{World, App, Moment, get_db}
use flyrank_capstone_meterin.Tenants.{is_processed, mark_processed}
use flyrank_capstone_meterin.Stripe.{
  CheckoutSession, Invoice, StripeSubscription, EventObject, checkout, invoice, subscription, other,
  Event, StripeEnv,
}
use flyrank_capstone_meterin.Handlers.Checkout.{truthy, handle_checkout_completed}
use flyrank_capstone_meterin.Handlers.Payment.{handle_payment_succeeded, handle_payment_failed}
use flyrank_capstone_meterin.Handlers.Lifecycle.{
  handle_subscription_created, handle_subscription_updated, handle_subscription_deleted,
  handle_subscription_trial_will_end, handle_invoice_upcoming,
}

-- The keys of `event_handlers`.
pub data Handler : Type 0 where
  checkout_completed payment_succeeded payment_failed : Handler
  subscription_created subscription_updated subscription_deleted : Handler
  subscription_trial_will_end invoice_upcoming : Handler

-- `event_handlers.get(event.type)`
unfoldable pub handler_of : String → Option Handler
handler_of event_type =
    if str_eq event_type "checkout.session.completed"
    then some checkout_completed
    else if str_eq event_type "invoice.payment_succeeded"
    then some payment_succeeded
    else if str_eq event_type "invoice.payment_failed"
    then some payment_failed
    else if str_eq event_type "customer.subscription.created"
    then some subscription_created
    else if str_eq event_type "customer.subscription.updated"
    then some subscription_updated
    else if str_eq event_type "customer.subscription.deleted"
    then some subscription_deleted
    else if str_eq event_type "customer.subscription.trial_will_end"
    then some subscription_trial_will_end
    else if str_eq event_type "invoice.upcoming"
    then some invoice_upcoming
    else none

-- An object of another kind than the handler expects lacks the attributes that it reads.
unfoldable pub run_handler : StripeEnv → Moment → Handler → EventObject → App (Unit {0})
run_handler env m checkout_completed (checkout s) = handle_checkout_completed env m s
run_handler env m payment_succeeded (invoice i) = handle_payment_succeeded env m i
run_handler env m payment_failed (invoice i) = handle_payment_failed env m i
run_handler env m subscription_created (subscription s) = handle_subscription_created env m s
run_handler env m subscription_updated (subscription s) = handle_subscription_updated env m s
run_handler env m subscription_deleted (subscription s) = handle_subscription_deleted env m s
run_handler env m subscription_trial_will_end (subscription s) =
    handle_subscription_trial_will_end s
run_handler env m invoice_upcoming (invoice i) = handle_invoice_upcoming
run_handler env m handler object = raise (external "AttributeError")

unfoldable pub dispatch : StripeEnv → Moment → Option Handler → EventObject → App (Unit {0})
dispatch env m none object = pure tt
dispatch env m (some handler) object = run_handler env m handler object

-- `_process_stripe_event`
unfoldable pub process_stripe_event : StripeEnv → Moment → Event → App (Unit {0})
process_stripe_event env m event = dispatch env m (handler_of event.type) event.object

pub data Reply : Type 0 where
  already_processed success : Reply

-- The body of the `try` in `stripe_webhook`.
unfoldable pub process_and_mark : StripeEnv → Moment → Event → App Reply
process_and_mark env m event = do
  process_stripe_event env m event
  mark_processed event.id event.type
  pure success

unfoldable pub or_failed : Result Exn Reply → Result Exn Reply
or_failed (ok r) = ok r
or_failed (err e) = err (http 500 (text "Webhook processing failed"))

unfoldable pub try_process : StripeEnv → Moment → Event → App Reply
try_process env m event w = let (r, w') = process_and_mark env m event w in (or_failed r, w')

-- `_verify_signature_or_raise`: only the signature's own error is turned into a 400.
unfoldable pub or_invalid_signature : Result Exn Event → Result Exn Event
or_invalid_signature (err signature_verification_error) = err (http 400 (text "Invalid signature"))
or_invalid_signature r = r

abbrev clock_seconds : Moment → ℕ
clock_seconds m = m.ticks.time / 1000000

unfoldable pub verify_signature_or_raise : StripeEnv → Moment → String → String → Result Exn Event
verify_signature_or_raise env m payload sig_header =
    or_invalid_signature
      (env.verify_webhook_signature (clock_seconds m) payload sig_header env.webhook_secret)

unfoldable pub unless_processed : StripeEnv → Moment → Event → Bool → App Reply
unless_processed env m event true = pure already_processed
unless_processed env m event false = try_process env m event

unfoldable pub handle_event : StripeEnv → Moment → Event → App Reply
handle_event env m event = do seen ← is_processed event.id; unless_processed env m event seen

unfoldable pub with_signature : StripeEnv → Moment → String → Option String → App Reply
with_signature env m payload none = raise (http 400 (text "Missing Stripe-Signature header"))
with_signature env m payload (some sig_header) = do
  event ← lift (verify_signature_or_raise env m payload sig_header)
  handle_event env m event

-- `stripe_webhook` on a payload and the Stripe-Signature header, with its session.
unfoldable pub stripe_webhook : StripeEnv → Moment → String → Option String → App Reply
stripe_webhook env m payload sig_header = get_db (with_signature env m payload (truthy sig_header))
