-- ===== src/Examples/Access.antt =====
-- Authentication in the small installation, after the first tenant has been given an API key.
use flyrank_capstone_meterin.Prelude.{◌≡◌, refl, true, some, [], ◌∷◌, str_eq, if◌then◌else◌, select}
use flyrank_capstone_meterin.Result.{ok}
use flyrank_capstone_meterin.Models.{Tenant}
use flyrank_capstone_meterin.Cache.{cache_get, get_redis, find_live}
use flyrank_capstone_meterin.World.{World, cached_get, cached_set, scalar_one_or_none}
use flyrank_capstone_meterin.Tenants.{get_tenant}
use flyrank_capstone_meterin.Handlers.Checkout.{truthy}
use flyrank_capstone_meterin.Auth.{
  AuthEnv, tenant_from, parsed_or_401, tenant_or_401, check_key, get_current_tenant,
}
use flyrank_capstone_meterin.Auth.Laws.{get_current_tenant_verifies}
use flyrank_capstone_meterin.Examples.{noon, first_tenant, tables, installation, one_text}

abbrev auth_env : AuthEnv
auth_env = record {
  parse_uuid = λ text. if str_eq text "t1" then some 1 else some 9;
  uuid_text = one_text;
  verify_api_key = λ key hash. str_eq key hash;
}

abbrev holder : Tenant
holder = record first_tenant { api_key_hash = some "secret" }

abbrev keyed : World
keyed = record installation { db = record tables { tenants = holder ∷ [] } }

let_in :
    (get_current_tenant auth_env noon "t1" (some "secret") keyed).0
    ≡ ok (record { row = holder; persistent = true })
unfolding get_current_tenant parsed_or_401 cached_get cached_set tenant_from tenant_or_401
    get_tenant scalar_one_or_none select check_key truthy cache_get get_redis find_live
let_in = refl

key_text : truthy (some "secret") ≡ some "secret"
unfolding truthy
key_text = refl

get_current_tenant_verifies_example : str_eq "secret" "secret" ≡ true
get_current_tenant_verifies_example =
    get_current_tenant_verifies auth_env noon "t1" (some "secret") keyed
      (record { row = holder; persistent = true }) let_in key_text key_text
