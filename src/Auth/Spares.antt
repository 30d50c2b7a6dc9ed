-- ===== src/Auth/Spares.antt =====
-- Finding the tenant of a request leaves other cache keys than the tenants' alone
-- (src/api/middleware/auth.py).
use flyrank_capstone_meterin.Prelude.{
  ℕ, String, ◌≡◌, refl, Bool, true, false, Option, none, some, str_eq,
}
use flyrank_capstone_meterin.Models.{Tenant}
use flyrank_capstone_meterin.Payloads.{Cached}
use flyrank_capstone_meterin.World.{Moment}
use flyrank_capstone_meterin.World.Spares.{Spares, spares_rules}
use flyrank_capstone_meterin.Tenants.{get_tenant}
use flyrank_capstone_meterin.Auth.{
  AuthEnv, if_verified, check_key, tenant_or_401, parsed_or_401, tenant_key, tenant_from,
  get_current_tenant,
}

module _ {k : String} where
  if_verified-Spares : (b : Bool) → Spares k (if_verified b)
  unfolding if_verified
  if_verified-Spares true = search spares_rules
  if_verified-Spares false = search spares_rules

  check_key-Spares : (env : AuthEnv) (key hash : Option String) → Spares k (check_key env key hash)
  unfolding check_key
  check_key-Spares env (some a) (some h) = if_verified-Spares (env.verify_api_key a h)
  check_key-Spares env (some a) none = search spares_rules
  check_key-Spares env none hash = search spares_rules

  tenant_or_401-Spares : (found : Option Tenant) → Spares k (tenant_or_401 found)
  unfolding tenant_or_401
  tenant_or_401-Spares none = search spares_rules
  tenant_or_401-Spares (some t) = search spares_rules

  parsed_or_401-Spares : (found : Option ℕ) → Spares k (parsed_or_401 found)
  unfolding parsed_or_401
  parsed_or_401-Spares none = search spares_rules
  parsed_or_401-Spares (some id) = search spares_rules

  get_tenant-Spares : (t : ℕ) → Spares k (get_tenant t)
  unfolding get_tenant
  get_tenant-Spares t = record { at = λ w c. record { connected = c; live = λ now. refl } }

ruleset lookup_rules =
    (spares_rules, check_key-Spares, tenant_or_401-Spares, parsed_or_401-Spares, get_tenant-Spares)

module _ (env : AuthEnv) (m : Moment) (k : String)
    (others : (id : ℕ) → str_eq (tenant_key env id) k ≡ false) where
  tenant_from-Spares :
      (id : ℕ) (key : Option String) (found : Option Cached)
      → Spares k (tenant_from env m id key found)
  unfolding tenant_from
  tenant_from-Spares id key none = search (lookup_rules, others) depth 12
  tenant_from-Spares id key (some c) = search lookup_rules depth 12

  pub get_current_tenant-Spares :
      (x_tenant_id : String) (key : Option String)
      → Spares k (get_current_tenant env m x_tenant_id key)
  unfolding get_current_tenant
  get_current_tenant-Spares x_tenant_id key = search (lookup_rules, tenant_from-Spares) depth 12
