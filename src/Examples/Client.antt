-- ===== src/Examples/Client.antt =====
-- The Stripe client over a package that counts its calls, with synchronous functions.
use flyrank_capstone_meterin.Prelude.{ℕ, suc, ◌≡◌, refl, true, none, some, [], ◌∷◌}
use flyrank_capstone_meterin.Result.{ok, err}
use flyrank_capstone_meterin.Exec.{Exec}
use flyrank_capstone_meterin.Errors.{Exn, external, http, checks}
use flyrank_capstone_meterin.World.{rollback}
use flyrank_capstone_meterin.Handlers.Checkout.{truthy, handle_checkout_completed}
use flyrank_capstone_meterin.Stripe.{CheckoutSession, StripeEnv}
use flyrank_capstone_meterin.Auth.{Loaded}
use flyrank_capstone_meterin.Account.{AccountEnv, create_checkout_session, create_portal_session}
use flyrank_capstone_meterin.Health.{readiness_check, check_of}
use flyrank_capstone_meterin.StripeService
use flyrank_capstone_meterin.StripeService.{
  Called, value, awaitable, Package, StripeService, get_stripe_service,
}
use flyrank_capstone_meterin.StripeService.Laws.{
  with_id, of_metadata, IsPlain, IsSynchronous, IsAnsweredBy, stripe_awaited_fails,
}
use flyrank_capstone_meterin.Examples.{noon, first_tenant, installation, stripe_env}
use flyrank_capstone_meterin.Examples.Accounts.{account_env}

abbrev counted : {A : Type 0} → A → Exec ℕ Exn (Called ℕ A)
counted a s = (ok (value a), suc s)

abbrev counting_client : Package ℕ
counting_client = record {
  customer_create = λ key email metadata. counted (record { id = "cus_1"; email = some email });
  session_create = λ key args. counted (record { id = "cs_1"; url = none });
  portal_create = λ key customer return_url. counted "https://billing.stripe.com/p";
  construct_event = λ clock payload sig secret. err (external "No event");
  customer_retrieve = λ key customer. counted (record { id = "cus_1"; email = none });
}

counted-IsPlain : {A : Type 0} (a : A) → IsPlain (counted a)
counted-IsPlain a s c h = (a, cc)

abbrev service : StripeService
service = get_stripe_service "sk_test_1"

counting_client-IsSynchronous : IsSynchronous counting_client
counting_client-IsSynchronous = record {
  customer_create = λ key email metadata. counted-IsPlain _;
  session_create = λ key args. counted-IsPlain _;
  portal_create = λ key customer return_url. counted-IsPlain _;
  customer_retrieve = λ key customer. counted-IsPlain _;
}

-- The endpoints' view of Stripe, from the state in which no call was made.
abbrev stripe : StripeEnv
stripe = record stripe_env {
  get_customer = λ id. (StripeService.get_customer counting_client service id 0).0;
}

abbrev account : AccountEnv
account = record account_env {
  create_customer = λ email id.
      with_id
        (StripeService.create_customer counting_client service email (("tenant_id", id) ∷ []) 0).0;
  create_session = λ customer price success cancel metadata.
      (StripeService.create_checkout_session counting_client service customer price success cancel
        (of_metadata metadata) 0).0;
  create_portal = λ customer return_url.
      (StripeService.create_portal_session counting_client service customer return_url 0).0;
}

account-IsAnswered : IsAnsweredBy counting_client service stripe account
account-IsAnswered = record {
  customers = λ email id. (0, refl);
  sessions = λ customer price success cancel metadata. (0, refl);
  portals = λ customer return_url. (0, refl);
  retrieved = λ id. (0, refl);
}

abbrev stored : Loaded
stored = record { row = first_tenant; persistent = true }

abbrev completed : CheckoutSession
completed = record {
  tenant_id = none;
  requested_plan_tier = some "pro";
  customer = some "cus_1";
  subscription = some "sub_9";
  display_items = none;
}

stripe_awaited_fails_example :
    ((e : Exn) × (create_checkout_session account "pro" stored installation
        ≡ (err e, installation)))
    × ((e : Exn) × (create_portal_session account stored installation ≡ (err e, installation)))
    × (readiness_check stripe (ok tt) installation
        ≡ (err (http 503 (checks (check_of (ok tt)) "not_ready" "ready")), rollback installation))
    × ((e : Exn) × (handle_checkout_completed stripe noon completed installation
          ≡ (err e, installation)))
unfolding truthy
stripe_awaited_fails_example =
    stripe_awaited_fails counting_client service stripe account counting_client-IsSynchronous
      account-IsAnswered noon "pro" stored completed (ok tt) installation refl
