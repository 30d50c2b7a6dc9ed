-- ===== src/Auth/Scope.antt =====
-- Finding the tenant of a request writes Redis only (src/api/middleware/auth.py).
use flyrank_capstone_meterin.Prelude.{ℕ, String, refl, Bool, true, false, Option, none, some}
use flyrank_capstone_meterin.Models.{Tenant}
use flyrank_capstone_meterin.Payloads.{Cached}
use flyrank_capstone_meterin.World.{Moment, cached_get, cached_set}
use flyrank_capstone_meterin.World.Scope.{Keeps, keeps_rules}
use flyrank_capstone_meterin.Handlers.Scope.{get_tenant-Keeps}
use flyrank_capstone_meterin.Auth.{
  AuthEnv, if_verified, check_key, tenant_or_401, parsed_or_401, tenant_from, get_current_tenant,
}

pub cached_get-Keeps : (m : Moment) (key : String) → Keeps (cached_get m key)
unfolding cached_get
cached_get-Keeps m key = record {
  at = λ w. record { committed = refl; usage_events = refl; plans = refl; stripe_events = refl };
}

pub cached_set-Keeps :
    (m : Moment) (key : String) (value : Cached) (ttl : ℕ) → Keeps (cached_set m key value ttl)
unfolding cached_set
cached_set-Keeps m key value ttl = record {
  at = λ w. record { committed = refl; usage_events = refl; plans = refl; stripe_events = refl };
}

if_verified-Keeps : (b : Bool) → Keeps (if_verified b)
unfolding if_verified
if_verified-Keeps true = search keeps_rules
if_verified-Keeps false = search keeps_rules

check_key-Keeps : (env : AuthEnv) (key hash : Option String) → Keeps (check_key env key hash)
unfolding check_key
check_key-Keeps env (some k) (some h) = if_verified-Keeps (env.verify_api_key k h)
check_key-Keeps env (some k) none = search keeps_rules
check_key-Keeps env none hash = search keeps_rules

tenant_or_401-Keeps : (found : Option Tenant) → Keeps (tenant_or_401 found)
unfolding tenant_or_401
tenant_or_401-Keeps none = search keeps_rules
tenant_or_401-Keeps (some t) = search keeps_rules

parsed_or_401-Keeps : (found : Option ℕ) → Keeps (parsed_or_401 found)
unfolding parsed_or_401
parsed_or_401-Keeps none = search keeps_rules
parsed_or_401-Keeps (some t) = search keeps_rules

ruleset access_rules = (
  keeps_rules, get_tenant-Keeps, cached_get-Keeps, cached_set-Keeps, check_key-Keeps,
  tenant_or_401-Keeps, parsed_or_401-Keeps,
)

tenant_from-Keeps :
    (env : AuthEnv) (m : Moment) (id : ℕ) (key : Option String) (found : Option Cached)
    → Keeps (tenant_from env m id key found)
unfolding tenant_from
tenant_from-Keeps env m id key none = search access_rules
tenant_from-Keeps env m id key (some c) = search access_rules

pub get_current_tenant-Keeps :
    (env : AuthEnv) (m : Moment) (x_tenant_id : String) (key : Option String)
    → Keeps (get_current_tenant env m x_tenant_id key)
unfolding get_current_tenant
get_current_tenant-Keeps env m x_tenant_id key = search (access_rules, tenant_from-Keeps)
