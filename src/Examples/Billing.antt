-- ===== src/Examples/Billing.antt =====
-- Stripe events in the small installation.
use flyrank_capstone_meterin.Prelude.{
  ◌≡◌, refl, false, none, some, [], select, update_where, exists,
}
use flyrank_capstone_meterin.Result.{ok, err}
use flyrank_capstone_meterin.Errors.{
  http, text, payment_required, integrity_error, unique_subscription_tenant,
}
use flyrank_capstone_meterin.World.{get_db, rollback, commit, cached_delete}
use flyrank_capstone_meterin.Tenants.{is_processed, mark_processed}
use flyrank_capstone_meterin.Subscriptions.{
  get_by_stripe_id, update, has_plan, equals_text, matches_stripe_id,
}
use flyrank_capstone_meterin.Handlers.Checkout.{
  truthy, invalidate_subscription_cache, handle_checkout_completed,
}
use flyrank_capstone_meterin.Handlers.Payment.{
  write_status, failed_for, handle_payment_failed, handle_payment_succeeded,
}
use flyrank_capstone_meterin.Cache.{cache_delete, get_redis, drop_key}
use flyrank_capstone_meterin.Models.{same_tier, api_call, active}
use flyrank_capstone_meterin.World.{scalar_one_or_none}
use flyrank_capstone_meterin.Handlers.Lifecycle.{handle_subscription_deleted}
use flyrank_capstone_meterin.Handlers.Gate.{Owns, unpaid_refused, paid-Entitled}
use flyrank_capstone_meterin.Handlers.Conflict.{checkout_conflict}
use flyrank_capstone_meterin.Quota.{check_quota}
use flyrank_capstone_meterin.Quota.Laws.{Entitled}
use flyrank_capstone_meterin.Stripe.{CheckoutSession, StripeSubscription, StripeEnv}
use flyrank_capstone_meterin.Webhook.{
  already_processed, success, handler_of, run_handler, dispatch, process_stripe_event,
  process_and_mark, or_failed, try_process, verify_signature_or_raise, or_invalid_signature,
  unless_processed, handle_event, with_signature, stripe_webhook,
}
use flyrank_capstone_meterin.Webhook.Delivery.{webhook_redelivered, webhook_failed}
use flyrank_capstone_meterin.Examples.{
  noon, later, first_tenant, first_subscription, free_plan, installation, stripe_env,
  failed_payment,
}

verified : verify_signature_or_raise stripe_env noon "{}" "good" ≡ ok failed_payment
unfolding verify_signature_or_raise or_invalid_signature
verified = refl

signed : truthy (some "good") ≡ some "good"
unfolding truthy
signed = refl

-- The signature of the first delivery is too old by then; the second one has its own.
stale :
    verify_signature_or_raise stripe_env later "{}" "good"
    ≡ err (http 400 (text "Invalid signature"))
unfolding verify_signature_or_raise or_invalid_signature
stale = refl

verified_anew : verify_signature_or_raise stripe_env later "{}" "anew" ≡ ok failed_payment
unfolding verify_signature_or_raise or_invalid_signature
verified_anew = refl

signed_anew : truthy (some "anew") ≡ some "anew"
unfolding truthy
signed_anew = refl

accepted : (stripe_webhook stripe_env noon "{}" (some "good") installation).0 ≡ ok success
unfolding stripe_webhook get_db rollback with_signature verify_signature_or_raise
    or_invalid_signature truthy handle_event is_processed unless_processed try_process or_failed
    process_and_mark process_stripe_event dispatch handler_of run_handler handle_payment_failed
    failed_for get_by_stripe_id write_status update has_plan equals_text matches_stripe_id
    invalidate_subscription_cache cached_delete cache_delete get_redis drop_key mark_processed
    scalar_one_or_none select update_where exists same_tier commit
accepted = refl

webhook_redelivered_example :
    let (_, w') = stripe_webhook stripe_env noon "{}" (some "good") installation in
    let (answer, w'') = stripe_webhook stripe_env later "{}" (some "anew") w' in
    (answer ≡ ok already_processed)
    × (w''.db ≡ w'.db)
    × (w''.committed ≡ w'.committed)
    × (w''.redis ≡ w'.redis)
webhook_redelivered_example =
    webhook_redelivered stripe_env noon later "{}" "{}" "good" "anew" failed_payment failed_payment
      installation verified signed accepted verified_anew signed_anew refl

unsigned :
    (stripe_webhook stripe_env noon "{}" none installation).0
    ≡ err (http 400 (text "Missing Stripe-Signature header"))
unfolding stripe_webhook get_db with_signature truthy
unsigned = refl

webhook_failed_example :
    let w' = (stripe_webhook stripe_env noon "{}" none installation).1 in
    (w'.db ≡ installation.committed) × (w'.committed ≡ installation.committed)
webhook_failed_example =
    webhook_failed stripe_env noon "{}" none installation
      (http 400 (text "Missing Stripe-Signature header")) unsigned

owned : Owns 1 "sub_1" installation first_subscription free_plan
unfolding select equals_text same_tier
owned = record {
  of_tenant = refl;
  of_stripe = refl;
  of_id = refl;
  of_plan = refl;
  one_tenant = (first_tenant, refl);
}

abbrev ended : StripeSubscription
ended = record {
  id = "sub_1";
  status = "canceled";
  tenant_id = none;
  price_ids = [];
  current_period_start = 0;
  current_period_end = 0;
  cancel_at_period_end = false;
  canceled_at = none;
}

named : truthy (some "sub_1") ≡ some "sub_1"
unfolding truthy
named = refl

unpaid_refused_example :
    let (r, failed) =
      handle_payment_failed stripe_env noon (record { subscription = some "sub_1" }) installation in
    let (r', deleted) = handle_subscription_deleted stripe_env noon ended installation in
    (r ≡ ok tt)
    × (r' ≡ ok tt)
    × ((check_quota later 1 api_call 1 failed).0
        ≡ err (payment_required "No active subscription found"))
    × ((check_quota later 1 api_call 1 deleted).0
        ≡ err (payment_required "No active subscription found"))
unpaid_refused_example = unpaid_refused owned stripe_env noon later ended api_call 1 named refl

paid-Entitled_example :
    let (r, paid) =
      handle_payment_succeeded stripe_env noon
        (record { subscription = some "sub_1" })
        installation in
    (r ≡ ok tt) × Entitled 1 paid (record first_subscription { status = active }) free_plan
paid-Entitled_example = paid-Entitled owned stripe_env noon named

abbrev second_checkout : CheckoutSession
second_checkout = record {
  tenant_id = some "t1";
  requested_plan_tier = some "PRO";
  customer = none;
  subscription = some "sub_2";
  display_items = none;
}

abbrev parsing_env : StripeEnv
parsing_env = record stripe_env { parse_uuid = λ text. some 1 }

with_metadata : truthy (some "t1") ≡ some "t1"
unfolding truthy
with_metadata = refl

checkout_conflict_example :
    handle_checkout_completed parsing_env noon second_checkout installation
    ≡ (err (integrity_error unique_subscription_tenant), installation)
unfolding select exists equals_text
checkout_conflict_example =
    checkout_conflict parsing_env noon second_checkout installation "t1" "sub_2" 1 first_tenant
      with_metadata refl refl refl refl refl
