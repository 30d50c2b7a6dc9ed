-- ===== src/Handlers/Conflict.antt =====
-- A checkout of a tenant that has another subscription (src/api/v1/webhook.py,
-- src/repositories/subscription_repo.py).
use flyrank_capstone_meterin.Prelude.{
  ℕ, String, ◌≡◌, refl, true, false, some, [], ◌∷◌, ◌==◌, select, exists, select-none,
}
use flyrank_capstone_meterin.Result.{err}
use flyrank_capstone_meterin.Errors.{integrity_error, unique_subscription_tenant}
use flyrank_capstone_meterin.Models.{Tenant, Subscription}
use flyrank_capstone_meterin.World.{World, Moment, scalar_one_or_none}
use flyrank_capstone_meterin.Tenants.{get_tenant}
use flyrank_capstone_meterin.Subscriptions.{
  has_stripe_id, matches_stripe_id, get_by_stripe_id, insert_subscription, upsert_from_stripe,
}
use flyrank_capstone_meterin.Stripe.{CheckoutSession, StripeEnv}
use flyrank_capstone_meterin.Handlers.Checkout.{
  truthy, create_or_update_subscription, finish_checkout, finish_if_found, for_parsed, by_metadata,
  handle_checkout_completed,
}

-- A completed checkout for a known tenant that has a subscription, under a Stripe id that no
-- subscription has, does not replace that subscription: it fails on the unique tenant, and nothing
-- is changed.
pub checkout_conflict :
    (env : StripeEnv) (m : Moment) (session : CheckoutSession) (w : World) (uuid id : String)
    (t : ℕ) (tenant : Tenant)
    → truthy session.tenant_id ≡ some uuid
    → env.parse_uuid uuid ≡ some t
    → select (λ (a : Tenant). a.id == t) w.db.tenants ≡ tenant ∷ []
    → session.subscription ≡ some id
    → exists (λ (s : Subscription). s.tenant_id == t) w.db.subscriptions ≡ true
    → exists (has_stripe_id id) w.db.subscriptions ≡ false
    → handle_checkout_completed env m session w
      ≡ (err (integrity_error unique_subscription_tenant), w)
unfolding handle_checkout_completed by_metadata for_parsed get_tenant finish_if_found
    finish_checkout create_or_update_subscription get_by_stripe_id matches_stripe_id
    upsert_from_stripe insert_subscription scalar_one_or_none
checkout_conflict env m session w uuid id t tenant meta parsed found sub has fresh =
    rw
      (
        meta,
        parsed,
        found,
        sub,
        select-none (has_stripe_id id) w.db.subscriptions fresh,
        fresh,
        has,
      )
      refl
