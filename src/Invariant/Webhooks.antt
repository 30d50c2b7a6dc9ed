-- ===== src/Invariant/Webhooks.antt =====
-- POST /webhooks/stripe on sound tables (src/api/v1/webhook.py).
use flyrank_capstone_meterin.Prelude.{String, Bool, true, false, Option, none, some}
use flyrank_capstone_meterin.World.{World, Moment}
use flyrank_capstone_meterin.Stripe.{EventObject, checkout, invoice, subscription, Event, StripeEnv}
use flyrank_capstone_meterin.Handlers.Checkout.{truthy, handle_checkout_completed}
use flyrank_capstone_meterin.Handlers.Payment.{handle_payment_succeeded, handle_payment_failed}
use flyrank_capstone_meterin.Handlers.Lifecycle.{
  handle_subscription_trial_will_end, handle_invoice_upcoming,
}
use flyrank_capstone_meterin.Webhook.{
  Handler, checkout_completed, payment_succeeded, payment_failed, subscription_created,
  subscription_updated, subscription_deleted, subscription_trial_will_end, invoice_upcoming,
  handler_of, run_handler, dispatch, process_stripe_event, process_and_mark, try_process,
  unless_processed, handle_event, with_signature, stripe_webhook,
}
use flyrank_capstone_meterin.Invariant.{Sound}
use flyrank_capstone_meterin.Invariant.Triple.{
  Triple, Triple-weaken, Triple-get_db, Triple-pure, Triple-raise, Triple-lift, triple_rules,
}
use flyrank_capstone_meterin.Invariant.Repos.{is_processed-Triple, mark_processed-Triple}
use flyrank_capstone_meterin.Invariant.Events.{
  Start, Sound-of, first-Triple, last-Triple, by_metadata-Triple, succeeded_for-Triple,
  failed_for-Triple, created-Triple, updated-Triple, deleted-Triple,
}

module _ (env : StripeEnv) (m : Moment) where
  run_handler-Triple :
      (h : Handler) (o : EventObject) → Triple (Start env m) Sound (run_handler env m h o)
  unfolding run_handler handle_checkout_completed handle_payment_succeeded handle_payment_failed
      handle_subscription_trial_will_end handle_invoice_upcoming
  run_handler-Triple checkout_completed (checkout s) =
      by_metadata-Triple env m s (truthy s.tenant_id)
  run_handler-Triple payment_succeeded (invoice i) =
      succeeded_for-Triple env m (truthy i.subscription)
  run_handler-Triple payment_failed (invoice i) = failed_for-Triple env m (truthy i.subscription)
  run_handler-Triple subscription_created (subscription s) = created-Triple env m s
  run_handler-Triple subscription_updated (subscription s) = updated-Triple env m s
  run_handler-Triple subscription_deleted (subscription s) = deleted-Triple env m s
  run_handler-Triple subscription_trial_will_end (subscription s) =
      Triple-weaken _ (Sound-of env m) (Triple-pure tt)
  run_handler-Triple invoice_upcoming (invoice i) =
      Triple-weaken _ (Sound-of env m) (Triple-pure tt)
  run_handler-Triple handler object = Triple-weaken _ (Sound-of env m) (Triple-raise _)

  dispatch-Triple :
      (h : Option Handler) (o : EventObject) → Triple (Start env m) Sound (dispatch env m h o)
  unfolding dispatch
  dispatch-Triple none o = Triple-weaken _ (Sound-of env m) (Triple-pure tt)
  dispatch-Triple (some h) o = run_handler-Triple h o

  try_process-Triple : (event : Event) → Triple (Start env m) Sound (try_process env m event)
  unfolding try_process process_and_mark process_stripe_event
  try_process-Triple event = record {
    at = λ w h hc.
        (last-Triple _ _ (dispatch-Triple (handler_of event.type) event.object)
            (λ v. search (triple_rules, mark_processed-Triple))).at
          w h hc;
  }

  unless_processed-Triple :
      (event : Event) (seen : Bool) → Triple (Start env m) Sound (unless_processed env m event seen)
  unfolding unless_processed
  unless_processed-Triple event true = Triple-weaken _ (Sound-of env m) (Triple-pure _)
  unless_processed-Triple event false = try_process-Triple event

  with_signature-Triple :
      (payload : String) (sig_header : Option String)
      → Triple (Start env m) Sound (with_signature env m payload sig_header)
  unfolding with_signature handle_event
  with_signature-Triple payload none = Triple-weaken _ (Sound-of env m) (Triple-raise _)
  with_signature-Triple payload (some sig_header) =
      first-Triple _ _ (Sound-of env m) (Triple-lift _) (λ event.
        first-Triple _ _ (Sound-of env m) (is_processed-Triple event.id)
          (unless_processed-Triple event))

  -- A request of Stripe on sound tables, with an id for a subscription that they do not have, leaves
  -- the committed tables sound, whether it returns or fails.
  pub stripe_webhook-Sound :
      (payload : String) (sig_header : Option String) (w : World)
      → Start env m w.committed
      → let w' = (stripe_webhook env m payload sig_header w).1 in Sound w'.db × Sound w'.committed
  unfolding stripe_webhook
  stripe_webhook-Sound payload sig_header w h =
      Triple-get_db _ w (with_signature-Triple payload (truthy sig_header)) h h.0
