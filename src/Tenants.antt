-- ===== src/Tenants.antt =====
-- src/repositories/tenant_repo.py and src/repositories/stripe_event_repo.py.
use flyrank_capstone_meterin.Prelude.{
  ℕ, String, Bool, false, Option, none, some, List, [], ◌∷◌, ◌++◌, ◌==◌, str_eq, is_some,
  if◌then◌else◌, select, exists,
}
use flyrank_capstone_meterin.Result.{Result, ok, err}
use flyrank_capstone_meterin.Errors.{Exn, integrity_error, email_not_null, unique_stripe_customer}
use flyrank_capstone_meterin.Clock.{DateTime}
use flyrank_capstone_meterin.Models.{Tenant, ProcessedStripeEvent}
use flyrank_capstone_meterin.Subscriptions.{equals_text}
use flyrank_capstone_meterin.World.{App, set_db, commit, scalar_one_or_none}

unfoldable pub get_tenant : ℕ → App (Option Tenant)
get_tenant tenant_id w =
    (scalar_one_or_none (select (λ (t : Tenant). t.id == tenant_id) w.db.tenants), w)

unfoldable pub customer_taken : Option String → List Tenant → Bool
customer_taken none rows = false
customer_taken (some id) rows = exists (λ (t : Tenant). equals_text t.stripe_customer_id id) rows

-- `create`: the email column does not allow NULL, and a Stripe customer belongs to one tenant.
unfoldable pub create_tenant :
    ℕ → DateTime → String → Option String → String → Option String → App Tenant
unfolding customer_taken
create_tenant id db_now name none api_key_hash stripe_customer_id w =
    (err (integrity_error email_not_null), w)
create_tenant id db_now name (some email) api_key_hash stripe_customer_id w =
    let tenant : Tenant = record {
      id = id;
      name = name;
      email = email;
      stripe_customer_id = stripe_customer_id;
      api_key_hash = some api_key_hash;
      created_at = some db_now;
    } in
    if customer_taken stripe_customer_id w.db.tenants
    then (err (integrity_error unique_stripe_customer), w)
    else (ok tenant, set_db (record w.db { tenants = w.db.tenants ++ tenant ∷ [] }) w)

unfoldable pub of_found : Result Exn (Option ProcessedStripeEvent) → Result Exn Bool
of_found (ok found) = ok (is_some found)
of_found (err e) = err e

unfoldable pub is_processed : String → App Bool
unfolding of_found
is_processed event_id w = (
  of_found (
      scalar_one_or_none
        (select (λ (e : ProcessedStripeEvent). str_eq e.event_id event_id) w.db.stripe_events)),
  w,
)

-- The row is added and the session committed. `event_id` is only a part of the table's primary key,
-- whose other part is a fresh UUID, so that the insert always succeeds.
unfoldable pub mark_processed : String → String → App (Unit {0})
mark_processed event_id event_type w = (
  ok tt,
  commit (
      set_db
        (record w.db {
          stripe_events =
              w.db.stripe_events ++ record { event_id = event_id; event_type = event_type } ∷ [];
        })
        w),
)
