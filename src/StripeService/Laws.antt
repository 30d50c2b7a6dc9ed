-- ===== src/StripeService/Laws.antt =====
-- What the calls of src/services/stripe_service.py come to where the package's functions are
-- synchronous, and what then becomes of the endpoints that await them.
use flyrank_capstone_meterin.Prelude.{
  String, ◌≡◌, ◌⊎◌, refl, ap, inl, inr, Option, none, some, List, [], ◌∷◌, ◌||◌, str_eq, Bool-cases,
}
use flyrank_capstone_meterin.Result.{Result, ok, err, Result-cases}
use flyrank_capstone_meterin.Exec.{Exec}
use flyrank_capstone_meterin.Errors.{Exn, http, text, checks}
use flyrank_capstone_meterin.World.{World, Moment, get_db, rollback}
use flyrank_capstone_meterin.Handlers.Checkout.{
  truthy, create_new_tenant_from_checkout, by_metadata, handle_checkout_completed,
}
use flyrank_capstone_meterin.Stripe.{Customer, CheckoutSession, StripeEnv}
use flyrank_capstone_meterin.Auth.{Loaded}
use flyrank_capstone_meterin.Account
use flyrank_capstone_meterin.Account.{
  AccountEnv, StripeSession, SessionMetadata, ensure_customer, request_session, or_500, portal_for,
}
use flyrank_capstone_meterin.Health.{check_of, all_ready, readiness_check}
use flyrank_capstone_meterin.StripeService.{
  Called, value, awaited, await_called, not_awaitable, SessionArgs, Package, StripeService,
  create_customer, get_customer, create_checkout_session, create_portal_session,
}

-- A call whose answer, where it gives one, is a plain value.
abbrev pub IsPlain : {S A : Type 0} → Exec S Exn (Called S A) → Type 0
IsPlain {S} {A} call = (s : S) (c : Called S A) → (call s).0 ≡ ok c → (a : A) × (c ≡ value a)

-- The documented functions of the package without the suffix `_async`.
pub record IsSynchronous {S : Type 0} (client : Package S) : Type 0 where
  pub customer_create :
      (key : Option String) (email : String) (metadata : List (String × String))
      → IsPlain (client.customer_create key email metadata)
  pub session_create :
      (key : Option String) (args : SessionArgs) → IsPlain (client.session_create key args)
  pub portal_create :
      (key : Option String) (customer return_url : String)
      → IsPlain (client.portal_create key customer return_url)
  pub customer_retrieve :
      (key customer : Option String) → IsPlain (client.customer_retrieve key customer)

-- Awaiting such a call never returns, and Stripe is left as the call itself leaves it.
pub awaited_plain :
    {S A : Type 0} (type_name : String) (call : Exec S Exn (Called S A)) (s : S)
    → IsPlain call
    → (e : Exn) × (awaited type_name call s ≡ (err e, (call s).1))
unfolding awaited await_called
awaited_plain type_name call s plain = elim (Result-cases (call s).0) [
  | inl (c, p) ↦ let (a, q) = plain s c p in (not_awaitable type_name, rw (p, q) refl)
  | inr (e, p) ↦ (e, rw p refl)
]

abbrev pub with_id : Result Exn Customer → Result Exn String
with_id (ok c) = ok c.id
with_id (err e) = err e

abbrev pub of_metadata : SessionMetadata → List (String × String)
of_metadata m = ("tenant_id", m.tenant_id) ∷ ("requested_plan_tier", m.requested_plan_tier) ∷ []

-- Every answer that the endpoints get is the service's, at some state of Stripe.
pub record IsAnsweredBy {S : Type 0} (client : Package S) (self : StripeService)
    (stripe : StripeEnv) (account : AccountEnv) : Type 0 where
  pub customers :
      (email id : String)
      → (s : S) × (account.create_customer email id
          ≡ with_id (create_customer client self email (("tenant_id", id) ∷ []) s).0)
  pub sessions :
      (customer price success cancel : String) (metadata : SessionMetadata)
      → (s : S) × (account.create_session customer price success cancel metadata
          ≡ (create_checkout_session client self customer price success cancel
              (of_metadata metadata)
              s).0)
  pub portals :
      (customer return_url : String)
      → (s : S) × (account.create_portal customer return_url
          ≡ (create_portal_session client self customer return_url s).0)
  pub retrieved :
      (id : Option String) → (s : S) × (stripe.get_customer id ≡ (get_customer client self id s).0)

-- Such an answer is an exception.
fails :
    {S A : Type 0} (type_name : String) (call : Exec S Exn (Called S A)) (s : S) (r : Result Exn A)
    → IsPlain call
    → r ≡ (awaited type_name call s).0
    → (e : Exn) × (r ≡ err e)
fails type_name call s r plain p =
    let (e, q) = awaited_plain type_name call s plain in (e, rw (p, q) refl)

module _ {S : Type 0} (client : Package S) (self : StripeService) (stripe : StripeEnv)
    (account : AccountEnv) (sync : IsSynchronous client)
    (answered : IsAnsweredBy client self stripe account) where
  customers_fail : (email id : String) → (e : Exn) × (account.create_customer email id ≡ err e)
  unfolding create_customer
  customers_fail email id =
      let metadata = ("tenant_id", id) ∷ [] in
      let (s, p) = answered.customers email id in
      let (e, q) =
        awaited_plain "Customer" (client.customer_create self.api_key email metadata) s
          (sync.customer_create self.api_key email metadata) in
      (e, rw (p, q) refl)

  sessions_fail :
      (customer price success cancel : String) (metadata : SessionMetadata)
      → (e : Exn) × (account.create_session customer price success cancel metadata ≡ err e)
  unfolding create_checkout_session
  sessions_fail customer price success cancel metadata =
      let (s, p) = answered.sessions customer price success cancel metadata in
      fails "Session" (client.session_create self.api_key _) s _
        (sync.session_create self.api_key _) p

  portals_fail : (customer url : String) → (e : Exn) × (account.create_portal customer url ≡ err e)
  unfolding create_portal_session
  portals_fail customer url =
      let (s, p) = answered.portals customer url in
      fails "Session" (client.portal_create self.api_key customer url) s _
        (sync.portal_create self.api_key customer url) p

  retrieved_fail : (id : Option String) → (e : Exn) × (stripe.get_customer id ≡ err e)
  unfolding get_customer
  retrieved_fail id =
      let (s, p) = answered.retrieved id in
      fails "Customer" (client.customer_retrieve self.api_key id) s _
        (sync.customer_retrieve self.api_key id) p

  ensure_or_fail :
      (l : Loaded) (found : Option String) (w : World)
      → ((customer : String) × (ensure_customer account l found w ≡ (ok customer, w)))
        ⊎ ((e : Exn) × (ensure_customer account l found w ≡ (err e, w)))
  unfolding ensure_customer
  ensure_or_fail l (some customer) w = inl (customer, refl)
  ensure_or_fail l none w =
      let (e, p) = customers_fail l.row.email (account.uuid_text l.row.id) in inr (e, rw p refl)

  request_fails :
      (l : Loaded) (plan_tier customer : String)
      → (e : Exn) × (request_session account l plan_tier customer ≡ err e)
  unfolding request_session or_500
  request_fails l plan_tier customer =
      let (e, p) = sessions_fail customer _ _ _ _ in
      (http 500 (text "Failed to create checkout session"), ap (or_500 _) p)

  checkout_fails :
      (plan_tier : String) (l : Loaded) (w : World)
      → (e : Exn) × (Account.create_checkout_session account plan_tier l w ≡ (err e, w))
  unfolding Account.create_checkout_session
  checkout_fails plan_tier l w =
      elim (Bool-cases (str_eq plan_tier "free" || str_eq plan_tier "pro")) [
        | inl valid ↦ elim (ensure_or_fail l (truthy l.row.stripe_customer_id) w) [
          | inl (customer, p) ↦
              let (e, q) = request_fails l plan_tier customer in (e, rw (valid, p, q) refl)
          | inr (e, p) ↦ (e, rw (valid, p) refl)
        ]
        | inr unknown ↦
            (http 400 (text "Invalid plan_tier. Must be 'free' or 'pro'"), rw unknown refl)
      ]

  portal_for_fails :
      (found : Option String) (w : World) → (e : Exn) × (portal_for account found w ≡ (err e, w))
  unfolding portal_for or_500
  portal_for_fails none w = (http 400 (text "No Stripe customer associated with this tenant"), refl)
  portal_for_fails (some customer) w =
      let (e, p) = portals_fail customer _ in
      (
        http 500 (text "Failed to create billing portal session"),
        ap (λ r. (or_500 "Failed to create billing portal session" r, w)) p,
      )

  portal_fails :
      (l : Loaded) (w : World)
      → (e : Exn) × (Account.create_portal_session account l w ≡ (err e, w))
  unfolding Account.create_portal_session
  portal_fails l w = portal_for_fails (truthy l.row.stripe_customer_id) w

  never_ready :
      (select_one : Result Exn Unit) (w : World)
      → readiness_check stripe select_one w
        ≡ (err (http 503 (checks (check_of select_one) "not_ready" "ready")), rollback w)
  unfolding readiness_check all_ready check_of get_db
  never_ready (ok v) w = let (e, p) = retrieved_fail (some "cus_test") in rw p refl
  never_ready (err x) w = let (e, p) = retrieved_fail (some "cus_test") in rw p refl

  bare_checkout_fails :
      (m : Moment) (session : CheckoutSession) (w : World)
      → truthy session.tenant_id ≡ none
      → (e : Exn) × (handle_checkout_completed stripe m session w ≡ (err e, w))
  unfolding handle_checkout_completed by_metadata create_new_tenant_from_checkout
  bare_checkout_fails m session w bare =
      let (e, p) = retrieved_fail session.customer in (e, rw (bare, p) refl)

  -- Where the package's functions are synchronous, as documented for those without the suffix
  -- `_async`, and the endpoints get the answers of this service: POST /checkout/session and POST
  -- /billing/portal raise for every plan and tenant and change neither the database nor Redis, GET
  -- /ready answers 503 with the check of Stripe not ready whatever the database says, and the event
  -- of a completed checkout that names no tenant raises and creates none.
  pub stripe_awaited_fails :
      (m : Moment) (plan_tier : String) (l : Loaded) (session : CheckoutSession)
      (select_one : Result Exn Unit) (w : World)
      → truthy session.tenant_id ≡ none
      → ((e : Exn) × (Account.create_checkout_session account plan_tier l w ≡ (err e, w)))
        × ((e : Exn) × (Account.create_portal_session account l w ≡ (err e, w)))
        × (readiness_check stripe select_one w
            ≡ (err (http 503 (checks (check_of select_one) "not_ready" "ready")), rollback w))
        × ((e : Exn) × (handle_checkout_completed stripe m session w ≡ (err e, w)))
  stripe_awaited_fails m plan_tier l session select_one w bare = (
    checkout_fails plan_tier l w,
    portal_fails l w,
    never_ready select_one w,
    bare_checkout_fails m session w bare,
  )
