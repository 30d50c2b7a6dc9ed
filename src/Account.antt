-- ===== src/Account.antt =====
-- src/api/v1/checkout.py, src/api/v1/billing.py, src/api/v1/subscription.py and src/api/v1/auth.py:
-- the handlers of an account, for the tenant that src/api/middleware/auth.py has loaded.
pub mod Laws
use Prim.Native.String.{◌++◌}
use flyrank_capstone_meterin.Prelude.{
  ℕ, String, Bool, true, false, not, ◌&&◌, ◌||◌, Option, none, some, List, ◌==◌, str_eq,
  if◌then◌else◌, exists, update_where,
}
use flyrank_capstone_meterin.Result.{Result, ok, err}
use flyrank_capstone_meterin.Exec.{pure, raise, lift, ◌>>=◌, ◌>>◌}
use flyrank_capstone_meterin.Errors.{
  Exn, integrity_error, unique_stripe_customer, http, text, type_error, validation_error,
  request_validation_error, external,
}
use flyrank_capstone_meterin.Clock.{DateTime}
use flyrank_capstone_meterin.Models.{Tenant}
use flyrank_capstone_meterin.World.{World, App, Moment, get_db, set_db, commit, rollback}
use flyrank_capstone_meterin.Subscriptions.{equals_text}
use flyrank_capstone_meterin.Handlers.Checkout.{truthy}
use flyrank_capstone_meterin.Auth.{AuthEnv, Loaded, get_current_tenant}

pub record StripeSession : Type 0 where
  pub id : String
  pub url : Option String

-- The metadata that goes with a checkout session.
pub record SessionMetadata : Type 0 where
  pub tenant_id : String
  pub requested_plan_tier : String

-- The calls of StripeService that reach Stripe, with the settings, and `str` of a UUID.
pub record AccountEnv : Type 0 where
  pub create_customer : String → String → Result Exn String
  pub create_session :
      String → String → String → String → SessionMetadata → Result Exn StripeSession
  pub create_portal : String → String → Result Exn String
  pub uuid_text : ℕ → String
  pub price_id_pro : String
  pub price_id_free : String
  pub frontend_url : String

-- The UPDATE that a commit sends for a changed customer; the column is unique.
unfoldable pub write_customer : ℕ → String → App (Unit {0})
write_customer id customer w =
    if exists (λ (t : Tenant). not (t.id == id) && equals_text t.stripe_customer_id customer)
      w.db.tenants
    then (err (integrity_error unique_stripe_customer), rollback w)
    else (
      ok tt,
      set_db
          (record w.db {
            tenants =
                update_where (λ (t : Tenant). t.id == id)
                  (λ t. record t { stripe_customer_id = some customer }) w.db.tenants;
          })
          w,
    )

-- `db.commit()` then `db.refresh(tenant)`, which refuses an object that the session does not hold.
unfoldable pub commit_customer : Loaded → String → App (Unit {0})
unfolding write_customer
commit_customer l customer w =
    if l.persistent
    then (do write_customer l.row.id customer; λ v. (ok tt, commit v)) w
    else (err (external "Instance is not persistent within this Session"), commit w)

-- The customer of a tenant, which is created where there is none.
unfoldable pub ensure_customer : AccountEnv → Loaded → Option String → App String
ensure_customer env l (some customer) = pure customer
ensure_customer env l none = do
  customer ← lift (env.create_customer l.row.email (env.uuid_text l.row.id))
  commit_customer l customer
  pure customer

unfoldable pub or_500 : {A : Type 0} → String → Result Exn A → Result Exn A
or_500 message (ok a) = ok a
or_500 message (err e) = err (http 500 (text message))

abbrev pub success_url : AccountEnv → String
success_url env = env.frontend_url ++ "/billing/success?session_id={CHECKOUT_SESSION_ID}"

abbrev pub cancel_url : AccountEnv → String
cancel_url env = env.frontend_url ++ "/billing/cancel"

unfoldable pub request_session : AccountEnv → Loaded → String → String → Result Exn StripeSession
unfolding or_500
request_session env l plan_tier customer = or_500 "Failed to create checkout session" (
    env.create_session customer
      (if str_eq plan_tier "pro" then env.price_id_pro else env.price_id_free) (success_url env)
      (cancel_url env)
      (record { tenant_id = env.uuid_text l.row.id; requested_plan_tier = plan_tier }))

-- `create_checkout_session`
unfoldable pub create_checkout_session : AccountEnv → String → Loaded → App StripeSession
unfolding ensure_customer request_session
create_checkout_session env plan_tier l =
    if not (str_eq plan_tier "free" || str_eq plan_tier "pro")
    then raise (http 400 (text "Invalid plan_tier. Must be 'free' or 'pro'"))
    else (do
      customer ← ensure_customer env l (truthy l.row.stripe_customer_id)
      lift (request_session env l plan_tier customer))

unfoldable pub portal_for : AccountEnv → Option String → App String
unfolding or_500
portal_for env none = raise (http 400 (text "No Stripe customer associated with this tenant"))
portal_for env (some customer) = lift (
    or_500 "Failed to create billing portal session"
      (env.create_portal customer (env.frontend_url ++ "/billing")))

-- `create_portal_session`
unfoldable pub create_portal_session : AccountEnv → Loaded → App String
unfolding portal_for
create_portal_session env l = portal_for env (truthy l.row.stripe_customer_id)

-- The response of `cancel_subscription`.
pub record Cancellation : Type 0 where
  pub status : String
  pub message : String

unfoldable pub cancel_for : Option String → App Cancellation
cancel_for none = raise (http 400 (text "No Stripe customer associated with this tenant"))
cancel_for (some customer) = pure (record {
  status = "pending";
  message = "Please use the Stripe customer portal to cancel your subscription";
})

-- `cancel_subscription`, which changes nothing.
unfoldable pub cancel_subscription : Loaded → App Cancellation
unfolding cancel_for
cancel_subscription l = cancel_for (truthy l.row.stripe_customer_id)

-- `create_tenant` of src/api/v1/auth.py calls the repository without the email.
unfoldable pub post_tenant : String → App String
post_tenant name = raise (type_error "create() missing 1 required positional argument: 'email'")

-- `tenant.id`: a UUID in a row, and the text from the cache in a new object.
pub data IdValue : Type 0 where
  uuid : ℕ → IdValue
  string : String → IdValue

abbrev pub id_value : AccountEnv → Loaded → IdValue
id_value env l = if l.persistent then uuid l.row.id else string (env.uuid_text l.row.id)

pub record TenantResponse : Type 0 where
  pub id : String
  pub name : String
  pub stripe_customer_id : Option String
  pub created_at : DateTime

-- A strict `str` field, and a `datetime` field that is required.
unfoldable pub strict_str : IdValue → Result Exn String
strict_str (uuid n) = err (validation_error "Input should be a valid string")
strict_str (string s) = ok s

unfoldable pub required_datetime : Option DateTime → Result Exn DateTime
required_datetime none = err (validation_error "Input should be a valid datetime")
required_datetime (some d) = ok d

-- `get_current_tenant_info`
unfoldable pub get_current_tenant_info : AccountEnv → Loaded → App TenantResponse
unfolding strict_str required_datetime
get_current_tenant_info env l = do
  id ← lift (strict_str (id_value env l))
  created ← lift (required_datetime l.row.created_at)
  pure (record {
    id = id;
    name = l.row.name;
    stripe_customer_id = l.row.stripe_customer_id;
    created_at = created;
  })

-- `CheckoutRequest`, whose `plan_tier` is one of two literals.
unfoldable pub checkout_request : String → Result Exn String
checkout_request plan_tier =
    if str_eq plan_tier "free" || str_eq plan_tier "pro"
    then ok plan_tier
    else err (request_validation_error "Input should be 'free' or 'pro'")

-- The requests with their session and tenant: POST /checkout/session and GET /tenants/me.
unfoldable pub post_checkout :
    AccountEnv → AuthEnv → Moment → String → Option String → String → App StripeSession
unfolding checkout_request
post_checkout env auth m x_tenant_id x_api_key plan_tier = get_db (do
  l ← get_current_tenant auth m x_tenant_id x_api_key
  plan ← lift (checkout_request plan_tier)
  create_checkout_session env plan l)

unfoldable pub get_me : AccountEnv → AuthEnv → Moment → String → Option String → App TenantResponse
get_me env auth m x_tenant_id x_api_key =
    get_db (do l ← get_current_tenant auth m x_tenant_id x_api_key; get_current_tenant_info env l)
