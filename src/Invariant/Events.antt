-- ===== src/Invariant/Events.antt =====
-- The handlers of Stripe events on sound tables (src/api/v1/webhook.py).
use flyrank_capstone_meterin.Prelude.{ℕ, String, Option, none, some, [], ◌∷◌, ◌≡◌, refl, select}
use flyrank_capstone_meterin.Exec.{lift, ◌>>=◌}
use flyrank_capstone_meterin.Models.{Subscription, SubscriptionStatus, active, past_due, Tenant}
use flyrank_capstone_meterin.World.{Db, App, Moment}
use flyrank_capstone_meterin.Subscriptions.{matches_stripe_id, update}
use flyrank_capstone_meterin.Stripe.{CheckoutSession, StripeSubscription, StripeEnv}
use flyrank_capstone_meterin.Handlers.Checkout.{
  truthy, invalidate_subscription_cache, create_new_tenant_from_checkout, checkout_row,
  create_or_update_subscription, finish_checkout, finish_if_found, for_parsed, by_metadata,
}
use flyrank_capstone_meterin.Handlers.Payment.{
  write_status, then_read_tenant, succeeded_for, failed_for,
}
use flyrank_capstone_meterin.Handlers.Lifecycle.{
  status_of, optional_uuid, reported_row, create_reported, write_reported_status, created_for,
  updated_for, deleted_for, updated_row, deleted_row, handle_subscription_created,
  handle_subscription_updated, handle_subscription_deleted,
}
use flyrank_capstone_meterin.Invariant.{Sound, keys_of}
use flyrank_capstone_meterin.Invariant.Triple.{
  Triple, Triple-weaken, Triple-strengthen, Triple-pure, Triple-lift, Triple-cached_delete,
  Triple-bind, Triple-then, triple_rules,
}
use flyrank_capstone_meterin.Invariant.Repos.{
  Ready, get_tenant-Triple, get_by_stripe_id-Triple, create-Triple, upsert-Triple, update-Triple,
  read-Triple, create_tenant-Triple,
}

-- A write that leaves the tables sound, before or after something that keeps what it needs.
module _ {A B : Type 0} {P : Db → Type 0} (m : App A) (f : A → App B) where
  pub first-Triple :
      ((d : Db) → P d → Sound d)
      → Triple P P m
      → ((a : A) → Triple P Sound (f a))
      → Triple P Sound (m >>= f)
  first-Triple sound tm tf = Triple-bind m f sound tm tf

  pub last-Triple :
      Triple P Sound m → ((a : A) → Triple Sound Sound (f a)) → Triple P Sound (m >>= f)
  last-Triple tm tf = Triple-bind m f (λ d h. h) tm tf

module _ (env : StripeEnv) (m : Moment) where
  -- Sound tables that do not have the id for a new subscription.
  abbrev pub Start : Db → Type 0
  Start = Ready env.new_subscription_id

  pub Sound-of : (d : Db) → Start d → Sound d
  Sound-of d h = h.0

  invalidate-Triple : {P : Db → Type 0} (t : ℕ) → Triple P P (invalidate_subscription_cache env m t)
  unfolding invalidate_subscription_cache
  invalidate-Triple t = Triple-cached_delete m _

  finish_checkout-Triple :
      (s : CheckoutSession) (t : ℕ) → Triple Start Sound (finish_checkout env m s t)
  unfolding finish_checkout create_or_update_subscription
  finish_checkout-Triple s t =
      last-Triple _ _
        (first-Triple _ _ Sound-of (get_by_stripe_id-Triple s.subscription) (λ found.
          last-Triple _ _ (upsert-Triple (checkout_row env m t s.subscription s))
            (λ row. Triple-pure tt)))
        (λ v. invalidate-Triple t)

  finish_if_found-Triple :
      (s : CheckoutSession) (t : ℕ) (found : Option Tenant)
      → Triple Start Sound (finish_if_found env m s t found)
  unfolding finish_if_found
  finish_if_found-Triple s t none = Triple-weaken _ Sound-of (Triple-pure tt)
  finish_if_found-Triple s t (some tenant) = finish_checkout-Triple s t

  for_parsed-Triple :
      (s : CheckoutSession) (t : Option ℕ) → Triple Start Sound (for_parsed env m s t)
  unfolding for_parsed
  for_parsed-Triple s none = Triple-weaken _ Sound-of (Triple-pure tt)
  for_parsed-Triple s (some t) =
      first-Triple _ _ Sound-of (get_tenant-Triple t) (finish_if_found-Triple s t)

  pub by_metadata-Triple :
      (s : CheckoutSession) (t : Option String) → Triple Start Sound (by_metadata env m s t)
  unfolding by_metadata create_new_tenant_from_checkout
  by_metadata-Triple s (some text) = for_parsed-Triple s (env.parse_uuid text)
  by_metadata-Triple s none =
      first-Triple _ _ Sound-of
        (Triple-then _ _ (Triple-lift (env.get_customer s.customer)) (λ customer.
          create_tenant-Triple env.new_subscription_id env.new_tenant_id m.db_now _ customer.email
            env.new_key_hash (some customer.id)))
        (λ tenant. finish_checkout-Triple s tenant.id)

  -- A subscription that was read, and is written back with its keys.
  abbrev Read : Option String → Subscription → Db → Type 0
  Read id s d = Start d × (select (matches_stripe_id id) d.subscriptions ≡ s ∷ [])

  write-Triple :
      (id : Option String) (s row : Subscription)
      → keys_of row ≡ keys_of s
      → Triple
          (Read id s)
          Sound
          (update row >>= λ _. invalidate_subscription_cache env m s.tenant_id)
  write-Triple id s row same =
      last-Triple _ _
        (Triple-strengthen (update row) (λ d h. (h.0.0, h.1))
          (update-Triple (matches_stripe_id id) s row [] same))
        (λ v. invalidate-Triple s.tenant_id)

  status_then :
      (id : Option String) (s : Subscription) (sub : StripeSubscription)
      (f : SubscriptionStatus → App (Unit {0}))
      → ((status : SubscriptionStatus) → Triple (Read id s) Sound (f status))
      → Triple (Read id s) Sound (lift (status_of sub) >>= f)
  status_then id s sub f tf = first-Triple _ _ (λ d h. h.0.0) (Triple-lift (status_of sub)) tf

  pub succeeded_for-Triple : (id : Option String) → Triple Start Sound (succeeded_for env m id)
  unfolding succeeded_for write_status then_read_tenant
  succeeded_for-Triple none = Triple-weaken _ Sound-of (Triple-pure tt)
  succeeded_for-Triple (some id) =
      read-Triple (some id) _ Sound-of (Triple-weaken _ Sound-of (search triple_rules)) (λ s.
        last-Triple _ _ (write-Triple (some id) s (record s { status = active }) refl)
          (λ v. search (triple_rules, get_tenant-Triple)))

  pub failed_for-Triple : (id : Option String) → Triple Start Sound (failed_for env m id)
  unfolding failed_for write_status
  failed_for-Triple none = Triple-weaken _ Sound-of (Triple-pure tt)
  failed_for-Triple (some id) =
      read-Triple (some id) _ Sound-of (Triple-weaken _ Sound-of (Triple-pure tt))
        (λ s. write-Triple (some id) s (record s { status = past_due }) refl)

  pub created-Triple :
      (sub : StripeSubscription) → Triple Start Sound (handle_subscription_created env m sub)
  unfolding handle_subscription_created created_for create_reported write_reported_status
  created-Triple sub =
      read-Triple (some sub.id) _ Sound-of
        (first-Triple _ _ Sound-of (Triple-lift (optional_uuid env (truthy sub.tenant_id))) (λ t.
          first-Triple _ _ Sound-of (Triple-lift (status_of sub)) (λ status.
            last-Triple _ _
              (create-Triple env.new_subscription_id t (reported_row env sub status) (λ t. refl))
              (λ row. invalidate-Triple row.tenant_id))))
        (λ s.
          status_then (some sub.id) s sub _
            (λ status. write-Triple (some sub.id) s (record s { status = status }) refl))

  pub updated-Triple :
      (sub : StripeSubscription) → Triple Start Sound (handle_subscription_updated env m sub)
  unfolding handle_subscription_updated updated_for
  updated-Triple sub =
      read-Triple (some sub.id) _ Sound-of (Triple-weaken _ Sound-of (Triple-pure tt)) (λ s.
        status_then (some sub.id) s sub _
          (λ status. write-Triple (some sub.id) s (updated_row env sub status s) refl))

  pub deleted-Triple :
      (sub : StripeSubscription) → Triple Start Sound (handle_subscription_deleted env m sub)
  unfolding handle_subscription_deleted deleted_for
  deleted-Triple sub =
      read-Triple (some sub.id) _ Sound-of (Triple-weaken _ Sound-of (Triple-pure tt))
        (λ s. write-Triple (some sub.id) s (deleted_row m sub s) refl)
