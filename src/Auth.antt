-- ===== src/Auth.antt =====
-- src/api/middleware/auth.py: the tenant of a request, from the X-Tenant-ID and X-API-Key headers.
pub mod Laws
pub mod Scope
pub mod Spares
use Prim.Native.String.{◌++◌}
use flyrank_capstone_meterin.Prelude.{ℕ, String, Bool, true, false, Option, none, some}
use flyrank_capstone_meterin.Result.{Result, ok, err}
use flyrank_capstone_meterin.Exec.{pure, raise, lift, ◌>>=◌, ◌>>◌}
use flyrank_capstone_meterin.Errors.{Exn, http, text, external}
use flyrank_capstone_meterin.Models.{Tenant}
use flyrank_capstone_meterin.Payloads.{Cached, CachedTenant, tenant}
use flyrank_capstone_meterin.World.{World, App, Moment, cached_get, cached_set}
use flyrank_capstone_meterin.Tenants.{get_tenant}
use flyrank_capstone_meterin.Handlers.Checkout.{truthy}

-- `uuid.UUID(text)`, `str` of a UUID, and `AuthService.verify_api_key`, which is bcrypt's.
pub record AuthEnv : Type 0 where
  pub parse_uuid : String → Option ℕ
  pub uuid_text : ℕ → String
  pub verify_api_key : String → String → Bool

abbrev pub tenant_cache_ttl : ℕ
tenant_cache_ttl = 60

-- A tenant as a handler gets it: a row that the session holds, or a new object with the columns that
-- the cache keeps.
pub record Loaded : Type 0 where
  pub row : Tenant
  pub persistent : Bool

-- `Tenant(**cached)`; a value of another shape has no such arguments.
unfoldable pub of_cached : Cached → Result Exn Tenant
of_cached (tenant c) = ok (record {
  id = c.id;
  name = c.name;
  email = c.email;
  stripe_customer_id = c.stripe_customer_id;
  api_key_hash = c.api_key_hash;
  created_at = none;
})
of_cached _ = err (external "invalid keyword argument for Tenant")

-- `cache_data`
abbrev pub cache_data : Tenant → Cached
cache_data t = tenant (record {
  id = t.id;
  name = t.name;
  email = t.email;
  api_key_hash = t.api_key_hash;
  stripe_customer_id = t.stripe_customer_id;
})

unfoldable pub if_verified : Bool → App (Unit {0})
if_verified true = pure tt
if_verified false = raise (http 401 (text "Invalid API key"))

-- Only where both the header and the tenant's hash are there, the key is checked.
unfoldable pub check_key : AuthEnv → Option String → Option String → App (Unit {0})
unfolding if_verified
check_key env (some key) (some hash) = if_verified (env.verify_api_key key hash)
check_key env _ _ = pure tt

unfoldable pub tenant_or_401 : Option Tenant → App Tenant
tenant_or_401 none = raise (http 401 (text "Tenant not found"))
tenant_or_401 (some t) = pure t

unfoldable pub parsed_or_401 : Option ℕ → App ℕ
parsed_or_401 none = raise (http 401 (text "Invalid X-Tenant-ID format"))
parsed_or_401 (some id) = pure id

-- f"tenant:{tenant_id}"
unfoldable pub tenant_key : AuthEnv → ℕ → String
tenant_key env id = "tenant:" ++ env.uuid_text id

unfoldable pub tenant_from : AuthEnv → Moment → ℕ → Option String → Option Cached → App Loaded
unfolding check_key tenant_or_401 of_cached truthy
tenant_from env m id x_api_key (some cached) = do
  t ← lift (of_cached cached)
  check_key env (truthy x_api_key) (truthy t.api_key_hash)
  pure (record { row = t; persistent = false })
tenant_from env m id x_api_key none = do
  found ← get_tenant id
  t ← tenant_or_401 found
  check_key env (truthy x_api_key) (truthy t.api_key_hash)
  cached_set m (tenant_key env id) (cache_data t) tenant_cache_ttl
  pure (record { row = t; persistent = true })

unfoldable pub get_current_tenant : AuthEnv → Moment → String → Option String → App Loaded
unfolding parsed_or_401 tenant_from
get_current_tenant env m x_tenant_id x_api_key = do
  id ← parsed_or_401 (env.parse_uuid x_tenant_id)
  cached ← cached_get m (tenant_key env id)
  tenant_from env m id x_api_key cached
