-- ===== src/Invariant/Requests.antt =====
-- The application of src/main.py on sound tables: every endpoint, inside the middleware.
use flyrank_capstone_meterin.Prelude.{ℕ, String, Option, none, some, inl, inr}
use flyrank_capstone_meterin.Result.{Result-cases}
use flyrank_capstone_meterin.Exec.{pure, raise, ◌>>=◌, ◌>>◌}
use flyrank_capstone_meterin.Errors.{Exn}
use flyrank_capstone_meterin.World.{World, App, get_db}
use flyrank_capstone_meterin.Handlers.Checkout.{truthy}
use flyrank_capstone_meterin.Auth.{Loaded, get_current_tenant}
use flyrank_capstone_meterin.Account.{
  create_portal_session, cancel_subscription, post_tenant, get_current_tenant_info, get_me,
  post_checkout,
}
use flyrank_capstone_meterin.Health.{health_check, readiness_check}
use flyrank_capstone_meterin.MeterRequest.{MeterBody, request_meter}
use flyrank_capstone_meterin.Http.{HttpRequest}
use flyrank_capstone_meterin.Http.Router.{
  Parsed, not_json, misfit, fields, Service, Endpoint, stripe_route, meter_route, usage_route,
  create_tenant_route, me_route, portal_route, checkout_route, cancel_route, health_route,
  ready_route, answered, meter_endpoint, checkout_endpoint, for_tenant, me_endpoint,
  tenant_endpoint, run_endpoint,
}
use flyrank_capstone_meterin.Invariant.{Sound}
use flyrank_capstone_meterin.Invariant.Triple.{
  Triple, Triple-then, Triple-get_db, Triple-lift, Triple-raise, triple_rules,
}
use flyrank_capstone_meterin.Invariant.Repos.{Ready}
use flyrank_capstone_meterin.Invariant.Accounts.{
  session-Triple, portal_for-Triple, cancel_for-Triple,
}
use flyrank_capstone_meterin.Invariant.Webhooks.{stripe_webhook-Sound}
use flyrank_capstone_meterin.Invariant.Endpoints.{
  get_current_tenant-Triple, meter_body-Triple, get_usage-Triple,
}

-- What leaves the tables sound, when they are, and the committed ones lack a new subscription's id.
pub record Safe {A : Type 0} (n : ℕ) (m : App A) : Type 0 where
  pub at :
      (w : World) → Sound w.db → Ready n w.committed → Sound (m w).1.db × Sound (m w).1.committed

module _ {A : Type 0} (n : ℕ) where
  pub Triple-Safe : (m : App A) → Triple Sound Sound m → Safe n m
  Triple-Safe m t = record { at = λ w h hc. t.at w h hc.0 }

  get_db-Safe : (m : App A) → Triple Sound Sound m → Safe n (get_db m)
  get_db-Safe m t = record { at = λ w h hc. Triple-get_db m w t hc.0 hc.0 }

  pub then_pure-Safe :
      {B : Type 0} (m : App A) (f : A → B) → Safe n m → Safe n (m >>= λ a. pure (f a))
  then_pure-Safe m f t = record {
    at = λ w h hc.
        let after = t.at w h hc in
        elim (Result-cases (m w).0) [ inl (a, p) ↦ rw p after | inr (e, p) ↦ rw p after ];
  }

module _ (s : Service) (q : HttpRequest) where
  abbrev pub new_id : ℕ
  new_id = s.stripe.new_subscription_id

  for_tenant-Safe :
      {A : Type 0} (f : Loaded → App A) (tenant : Option String)
      → ((l : Loaded) → Triple Sound Sound (f l))
      → Safe new_id (for_tenant s q f tenant)
  unfolding for_tenant
  for_tenant-Safe f none tf = Triple-Safe new_id _ (Triple-raise _)
  for_tenant-Safe f (some tenant) tf =
      get_db-Safe new_id _
        (Triple-then _ _ (get_current_tenant-Triple s.auth s.moment tenant q.x_api_key) tf)

  refused-Safe :
      {A : Type 0} (e : Exn) (tenant : String)
      → Safe new_id
          (get_db (get_current_tenant s.auth s.moment tenant q.x_api_key >> raise {A = A} e))
  refused-Safe e tenant = get_db-Safe new_id _ (
      Triple-then _ _ (get_current_tenant-Triple s.auth s.moment tenant q.x_api_key)
        (λ l. Triple-raise e))

  meter_endpoint-Safe :
      (parsed : Parsed MeterBody) (tenant key : Option String)
      → Safe new_id (meter_endpoint s q parsed tenant key)
  unfolding meter_endpoint request_meter
  meter_endpoint-Safe (fields body) (some tenant) (some key) =
      get_db-Safe new_id _ (meter_body-Triple s.meter s.auth s.moment s.new_event_id _ body)
  meter_endpoint-Safe not_json tenant key = Triple-Safe new_id _ (Triple-raise _)
  meter_endpoint-Safe (fields body) none key = Triple-Safe new_id _ (Triple-raise _)
  meter_endpoint-Safe (fields body) (some tenant) none = refused-Safe _ tenant
  meter_endpoint-Safe misfit none key = Triple-Safe new_id _ (Triple-raise _)
  meter_endpoint-Safe misfit (some tenant) key = refused-Safe _ tenant

  checkout_endpoint-Safe :
      (parsed : Parsed String) (tenant : Option String)
      → Safe new_id (checkout_endpoint s q parsed tenant)
  unfolding checkout_endpoint post_checkout
  checkout_endpoint-Safe (fields plan) (some tenant) = get_db-Safe new_id _ (
      Triple-then _ _ (get_current_tenant-Triple s.auth s.moment tenant q.x_api_key)
        (λ l. Triple-then _ _ (Triple-lift _) (λ p. session-Triple s.account p l)))
  checkout_endpoint-Safe (fields plan) none = Triple-Safe new_id _ (Triple-raise _)
  checkout_endpoint-Safe not_json tenant = Triple-Safe new_id _ (Triple-raise _)
  checkout_endpoint-Safe misfit none = Triple-Safe new_id _ (Triple-raise _)
  checkout_endpoint-Safe misfit (some tenant) = refused-Safe _ tenant

  me_endpoint-Safe : (tenant : Option String) → Safe new_id (me_endpoint s q tenant)
  unfolding me_endpoint get_me get_current_tenant_info
  me_endpoint-Safe none = Triple-Safe new_id _ (Triple-raise _)
  me_endpoint-Safe (some tenant) = get_db-Safe new_id _ (
      Triple-then _ _ (get_current_tenant-Triple s.auth s.moment tenant q.x_api_key)
        (λ l. search triple_rules))

  tenant_endpoint-Safe : (parsed : Parsed String) → Safe new_id (tenant_endpoint parsed)
  unfolding tenant_endpoint post_tenant
  tenant_endpoint-Safe (fields name) = get_db-Safe new_id _ (Triple-raise _)
  tenant_endpoint-Safe _ = Triple-Safe new_id _ (Triple-raise _)

  pub run_endpoint-Safe : (e : Endpoint) → Safe new_id (run_endpoint s q e)
  unfolding run_endpoint answered create_portal_session cancel_subscription health_check
      readiness_check
  run_endpoint-Safe stripe_route = then_pure-Safe new_id _ _ (record {
    at = λ w h hc. stripe_webhook-Sound s.stripe s.moment q.payload q.stripe_signature w hc;
  })
  run_endpoint-Safe meter_route =
      then_pure-Safe new_id _ _
        (meter_endpoint-Safe (s.parse_meter q.payload) q.x_tenant_id q.idempotency_key)
  run_endpoint-Safe usage_route = then_pure-Safe new_id _ _ (
      for_tenant-Safe _ q.x_tenant_id
        (λ l. get_usage-Triple s.meter.pricing s.auth.uuid_text s.month_text s.moment l.row.id))
  run_endpoint-Safe create_tenant_route =
      then_pure-Safe new_id _ _ (tenant_endpoint-Safe (s.parse_tenant q.payload))
  run_endpoint-Safe me_route = then_pure-Safe new_id _ _ (me_endpoint-Safe q.x_tenant_id)
  run_endpoint-Safe portal_route = then_pure-Safe new_id _ _ (
      for_tenant-Safe _ q.x_tenant_id
        (λ l. portal_for-Triple s.account (truthy l.row.stripe_customer_id)))
  run_endpoint-Safe checkout_route =
      then_pure-Safe new_id _ _ (checkout_endpoint-Safe (s.parse_checkout q.payload) q.x_tenant_id)
  run_endpoint-Safe cancel_route =
      then_pure-Safe new_id _ _
        (for_tenant-Safe _ q.x_tenant_id (λ l. cancel_for-Triple (truthy l.row.stripe_customer_id)))
  run_endpoint-Safe health_route = then_pure-Safe new_id _ _ (get_db-Safe new_id _ (Triple-lift _))
  run_endpoint-Safe ready_route = then_pure-Safe new_id _ _ (get_db-Safe new_id _ (Triple-lift _))
