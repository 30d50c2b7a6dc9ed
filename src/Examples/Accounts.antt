-- ===== src/Examples/Accounts.antt =====
-- The endpoints of an account, for the first tenant, which has no Stripe customer.
use flyrank_capstone_meterin.Prelude.{◌≢◌, true, false, none, some, str_eq, if◌then◌else◌}
use flyrank_capstone_meterin.Result.{ok, err}
use flyrank_capstone_meterin.Errors.{external}
use flyrank_capstone_meterin.Auth.{AuthEnv, Loaded}
use flyrank_capstone_meterin.Account.{AccountEnv, TenantResponse, get_me}
use flyrank_capstone_meterin.Account.Laws.{get_me_never}
use flyrank_capstone_meterin.Examples.{june, noon, first_tenant, installation, one_text}

abbrev pub account_env : AccountEnv
account_env = record {
  create_customer = λ email tenant. ok "cus_1";
  create_session = λ customer price success cancel metadata. err (external "Stripe is down");
  create_portal = λ customer url. ok "https://billing.stripe.com/p";
  uuid_text = one_text;
  price_id_pro = "price_pro";
  price_id_free = "price_free";
  frontend_url = "http://localhost:3000";
}

abbrev pub auth_env : AuthEnv
auth_env = record {
  parse_uuid = λ text. if str_eq text "t1" then some 1 else none;
  uuid_text = one_text;
  verify_api_key = λ key hash. str_eq key hash;
}

abbrev stored : Loaded
stored = record { row = first_tenant; persistent = true }

abbrev from_cache : Loaded
from_cache = record { row = first_tenant; persistent = false }

abbrev wanted : TenantResponse
wanted = record { id = "t1"; name = "acme"; stripe_customer_id = none; created_at = june }

get_me_never_example : (get_me account_env auth_env noon "t1" none installation).0 ≢ ok wanted
get_me_never_example = get_me_never account_env auth_env noon "t1" none installation wanted
