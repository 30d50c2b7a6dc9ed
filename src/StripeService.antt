-- ===== src/StripeService.antt =====
-- src/services/stripe_service.py and `get_stripe_service` of src/api/deps.py. The `stripe` package
-- is a parameter: its calls read and write Stripe's own state `S`.
pub mod Laws
use Prim.Native.String.{◌++◌}
use flyrank_capstone_meterin.Prelude.{ℕ, String, Option, none, some, List, [], ◌∷◌}
use flyrank_capstone_meterin.Result.{Result, ok, err}
use flyrank_capstone_meterin.Exec.{Exec, ◌>>=◌}
use flyrank_capstone_meterin.Errors.{Exn, type_error}
use flyrank_capstone_meterin.Handlers.Checkout.{truthy}
use flyrank_capstone_meterin.Stripe.{Customer, Event}
use flyrank_capstone_meterin.Account.{StripeSession}

-- What a Python call gives: a value, or an awaitable with what awaiting it does.
pub data Called (S A : Type 0) : Type 0 where
  value : A → Called S A
  awaitable : Exec S Exn A → Called S A

-- `await`: of a value that is no awaitable it is a TypeError.
abbrev pub not_awaitable : String → Exn
not_awaitable type_name =
    type_error ("object " ++ type_name ++ " can't be used in 'await' expression")

unfoldable pub await_called : {S A : Type 0} → String → Called S A → Exec S Exn A
await_called type_name (value a) s = (err (not_awaitable type_name), s)
await_called type_name (awaitable run) s = run s

unfoldable pub awaited : {S A : Type 0} → String → Exec S Exn (Called S A) → Exec S Exn A
unfolding await_called
awaited type_name call = do called ← call; await_called type_name called

-- The arguments of `checkout.Session.create`; of a line item the price and the quantity.
pub record SessionArgs : Type 0 where
  pub customer : String
  pub payment_method_types : List String
  pub line_items : List (String × ℕ)
  pub mode : String
  pub success_url : String
  pub cancel_url : String
  pub metadata : List (String × String)

-- The functions of the package that the service calls, each with the `api_key` set on the package;
-- the portal's answer is its URL. `construct_event` reads the clock, in seconds: without a tolerance
-- given, a signature is good for 300 seconds.
pub record Package (S : Type 0) : Type 0 where
  pub customer_create :
      Option String → String → List (String × String) → Exec S Exn (Called S Customer)
  pub session_create : Option String → SessionArgs → Exec S Exn (Called S StripeSession)
  pub portal_create : Option String → String → String → Exec S Exn (Called S String)
  pub construct_event : ℕ → String → String → String → Result Exn Event
  pub customer_retrieve : Option String → Option String → Exec S Exn (Called S Customer)

-- `self.client.api_key`
pub record StripeService : Type 0 where
  pub api_key : Option String

or_key : Option String → Option String → Option String
or_key (some key) other = some key
or_key none other = other

-- `__init__` on the key it is given and the settings' two names for it.
unfoldable pub init : Option String → Option String → Option String → StripeService
unfolding or_key truthy
init api_key upper lower = record {
  api_key = or_key (truthy api_key) (or_key (truthy upper) lower);
}

-- `get_stripe_service`: the settings have the first name only.
unfoldable pub get_stripe_service : String → StripeService
unfolding init
get_stripe_service stripe_api_key = init none (some stripe_api_key) none

module _ {S : Type 0} (client : Package S) (self : StripeService) where
  unfoldable pub create_customer : String → List (String × String) → Exec S Exn Customer
  unfolding awaited
  create_customer email metadata =
      awaited "Customer" (client.customer_create self.api_key email metadata)

  unfoldable pub create_checkout_session :
      String → String → String → String → List (String × String) → Exec S Exn StripeSession
  unfolding awaited
  create_checkout_session customer_id price_id success_url cancel_url metadata = awaited "Session" (
      client.session_create self.api_key (record {
        customer = customer_id;
        payment_method_types = "card" ∷ [];
        line_items = (price_id, 1) ∷ [];
        mode = "subscription";
        success_url = success_url;
        cancel_url = cancel_url;
        metadata = metadata;
      }))

  unfoldable pub create_portal_session : String → String → Exec S Exn String
  unfolding awaited
  create_portal_session customer_id return_url =
      awaited "Session" (client.portal_create self.api_key customer_id return_url)

  unfoldable pub verify_webhook_signature : ℕ → String → String → String → Result Exn Event
  verify_webhook_signature clock payload sig_header webhook_secret =
      client.construct_event clock payload sig_header webhook_secret

  unfoldable pub get_customer : Option String → Exec S Exn Customer
  unfolding awaited
  get_customer customer_id = awaited "Customer" (client.customer_retrieve self.api_key customer_id)
