-- ===== src/Handlers/Scope.antt =====
-- The event handlers of src/api/v1/webhook.py write subscriptions and tenants only.
use flyrank_capstone_meterin.Prelude.{ℕ, String, refl, Option, none, some, arith}
use flyrank_capstone_meterin.Clock.{DateTime}
use flyrank_capstone_meterin.Models.{Tenant, Subscription, SubscriptionStatus}
use flyrank_capstone_meterin.World.{Moment, cached_delete}
use flyrank_capstone_meterin.World.Scope.{Keeps, SameTables, SameTables-refl, keeps_rules}
use flyrank_capstone_meterin.Tenants.{get_tenant, create_tenant}
use flyrank_capstone_meterin.Subscriptions.{get_by_stripe_id, update, create, upsert_from_stripe}
use flyrank_capstone_meterin.Stripe.{CheckoutSession, StripeSubscription, StripeEnv}
use flyrank_capstone_meterin.Handlers.Checkout.{
  invalidate_subscription_cache, create_new_tenant_from_checkout, create_or_update_subscription,
  finish_checkout, finish_if_found, for_parsed, by_metadata,
}
use flyrank_capstone_meterin.Handlers.Payment.{
  write_status, then_read_tenant, succeeded_for, failed_for,
}
use flyrank_capstone_meterin.Handlers.Lifecycle.{
  create_reported, write_reported_status, created_for, updated_for, deleted_for,
}

pub get_by_stripe_id-Keeps : (id : Option String) → Keeps (get_by_stripe_id id)
unfolding get_by_stripe_id
get_by_stripe_id-Keeps id = record { at = SameTables-refl }

pub get_tenant-Keeps : (t : ℕ) → Keeps (get_tenant t)
unfolding get_tenant
get_tenant-Keeps t = record { at = SameTables-refl }

pub cached_delete-Keeps : (m : Moment) (key : String) → Keeps (cached_delete m key)
unfolding cached_delete
cached_delete-Keeps m key = record {
  at = λ w. record { committed = refl; usage_events = refl; plans = refl; stripe_events = refl };
}

pub update-Keeps : (row : Subscription) → Keeps (update row)
unfolding update
update-Keeps row = record { at = λ w. ground arith }

pub create-Keeps : (t : Option ℕ) (row : ℕ → Subscription) → Keeps (create t row)
unfolding create
create-Keeps none row = record { at = SameTables-refl }
create-Keeps (some t) row = record { at = λ w. ground arith }

pub upsert-Keeps : (row : Subscription) → Keeps (upsert_from_stripe row)
unfolding upsert_from_stripe
upsert-Keeps row = record { at = λ w. ground arith }

pub create_tenant-Keeps :
    (id : ℕ) (now : DateTime) (name : String) (email : Option String) (hash : String)
    (customer : Option String)
    → Keeps (create_tenant id now name email hash customer)
unfolding create_tenant
create_tenant-Keeps id now name none hash customer = record { at = SameTables-refl }
create_tenant-Keeps id now name (some email) hash customer = record { at = λ w. ground arith }

pub ruleset repo_rules = (
  keeps_rules, get_by_stripe_id-Keeps, get_tenant-Keeps, cached_delete-Keeps, update-Keeps,
  create-Keeps, upsert-Keeps, create_tenant-Keeps,
)

module _ (env : StripeEnv) (m : Moment) where
  pub invalidate-Keeps : (t : ℕ) → Keeps (invalidate_subscription_cache env m t)
  unfolding invalidate_subscription_cache
  invalidate-Keeps t = search repo_rules

  pub finish_checkout-Keeps : (s : CheckoutSession) (t : ℕ) → Keeps (finish_checkout env m s t)
  unfolding finish_checkout create_or_update_subscription
  finish_checkout-Keeps s t = search (repo_rules, invalidate-Keeps)

  pub finish_if_found-Keeps :
      (s : CheckoutSession) (t : ℕ) (found : Option Tenant)
      → Keeps (finish_if_found env m s t found)
  unfolding finish_if_found
  finish_if_found-Keeps s t none = search repo_rules
  finish_if_found-Keeps s t (some tenant) = finish_checkout-Keeps s t

  pub for_parsed-Keeps : (s : CheckoutSession) (t : Option ℕ) → Keeps (for_parsed env m s t)
  unfolding for_parsed
  for_parsed-Keeps s none = search repo_rules
  for_parsed-Keeps s (some t) = search (repo_rules, finish_if_found-Keeps)

  pub by_metadata-Keeps : (s : CheckoutSession) (t : Option String) → Keeps (by_metadata env m s t)
  unfolding by_metadata create_new_tenant_from_checkout
  by_metadata-Keeps s (some text) = for_parsed-Keeps s (env.parse_uuid text)
  by_metadata-Keeps s none = search (repo_rules, finish_checkout-Keeps)

  pub write_status-Keeps :
      (status : SubscriptionStatus) (found : Option Subscription)
      → Keeps (write_status env m status found)
  unfolding write_status
  write_status-Keeps status none = search repo_rules
  write_status-Keeps status (some s) = search (repo_rules, invalidate-Keeps)

  pub then_read_tenant-Keeps : (found : Option Subscription) → Keeps (then_read_tenant found)
  unfolding then_read_tenant
  then_read_tenant-Keeps none = search repo_rules
  then_read_tenant-Keeps (some s) = search repo_rules

  pub succeeded_for-Keeps : (id : Option String) → Keeps (succeeded_for env m id)
  unfolding succeeded_for
  succeeded_for-Keeps none = search repo_rules
  succeeded_for-Keeps (some id) = search (repo_rules, write_status-Keeps, then_read_tenant-Keeps)

  pub failed_for-Keeps : (id : Option String) → Keeps (failed_for env m id)
  unfolding failed_for
  failed_for-Keeps none = search repo_rules
  failed_for-Keeps (some id) = search (repo_rules, write_status-Keeps)

  pub created_for-Keeps :
      (sub : StripeSubscription) (found : Option Subscription) → Keeps (created_for env m sub found)
  unfolding created_for create_reported write_reported_status
  created_for-Keeps sub none = search (repo_rules, invalidate-Keeps)
  created_for-Keeps sub (some s) = search (repo_rules, invalidate-Keeps)

  pub updated_for-Keeps :
      (sub : StripeSubscription) (found : Option Subscription) → Keeps (updated_for env m sub found)
  unfolding updated_for
  updated_for-Keeps sub none = search repo_rules
  updated_for-Keeps sub (some s) = search (repo_rules, invalidate-Keeps)

  pub deleted_for-Keeps :
      (sub : StripeSubscription) (found : Option Subscription) → Keeps (deleted_for env m sub found)
  unfolding deleted_for
  deleted_for-Keeps sub none = search repo_rules
  deleted_for-Keeps sub (some s) = search (repo_rules, invalidate-Keeps)

  pub ruleset handler_rules = (
    repo_rules, by_metadata-Keeps, succeeded_for-Keeps, failed_for-Keeps, created_for-Keeps,
    updated_for-Keeps, deleted_for-Keeps,
  )
