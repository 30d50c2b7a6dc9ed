-- ===== src/Webhook/Laws.antt =====
-- What the handlers of Stripe events may touch (src/api/v1/webhook.py).
use flyrank_capstone_meterin.Prelude.{Option, none, some}
use flyrank_capstone_meterin.World.{Moment}
use flyrank_capstone_meterin.World.Scope.{Keeps, keeps_rules}
use flyrank_capstone_meterin.Stripe.{EventObject, checkout, invoice, subscription, Event, StripeEnv}
use flyrank_capstone_meterin.Handlers.Checkout.{handle_checkout_completed}
use flyrank_capstone_meterin.Handlers.Payment.{handle_payment_succeeded, handle_payment_failed}
use flyrank_capstone_meterin.Handlers.Lifecycle.{
  handle_subscription_created, handle_subscription_updated, handle_subscription_deleted,
  handle_subscription_trial_will_end, handle_invoice_upcoming,
}
use flyrank_capstone_meterin.Handlers.Scope.{handler_rules}
use flyrank_capstone_meterin.Webhook.{
  Handler, checkout_completed, payment_succeeded, payment_failed, subscription_created,
  subscription_updated, subscription_deleted, subscription_trial_will_end, invoice_upcoming,
  handler_of, run_handler, dispatch, process_stripe_event,
}

module _ (env : StripeEnv) (m : Moment) where
  run_handler-Keeps : (h : Handler) (o : EventObject) → Keeps (run_handler env m h o)
  unfolding run_handler handle_checkout_completed handle_payment_succeeded handle_payment_failed
      handle_subscription_created handle_subscription_updated handle_subscription_deleted
      handle_subscription_trial_will_end handle_invoice_upcoming
  run_handler-Keeps checkout_completed (checkout s) = search handler_rules
  run_handler-Keeps payment_succeeded (invoice i) = search handler_rules
  run_handler-Keeps payment_failed (invoice i) = search handler_rules
  run_handler-Keeps subscription_created (subscription s) = search handler_rules
  run_handler-Keeps subscription_updated (subscription s) = search handler_rules
  run_handler-Keeps subscription_deleted (subscription s) = search handler_rules
  run_handler-Keeps subscription_trial_will_end (subscription s) = search handler_rules
  run_handler-Keeps invoice_upcoming (invoice i) = search handler_rules
  run_handler-Keeps handler object = search keeps_rules

  dispatch-Keeps : (h : Option Handler) (o : EventObject) → Keeps (dispatch env m h o)
  unfolding dispatch
  dispatch-Keeps none o = search keeps_rules
  dispatch-Keeps (some h) o = run_handler-Keeps h o

  -- Whatever the event, its handler commits nothing and leaves the usage events, the plans and the
  -- processed Stripe events as they are, whether it returns or raises.
  pub process_stripe_event-Keeps : (event : Event) → Keeps (process_stripe_event env m event)
  unfolding process_stripe_event
  process_stripe_event-Keeps event = dispatch-Keeps (handler_of event.type) event.object
