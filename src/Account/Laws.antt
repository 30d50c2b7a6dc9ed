-- ===== src/Account/Laws.antt =====
-- What the account handlers store, and which of them never succeed (src/api/v1/checkout.py,
-- src/api/v1/auth.py).
use flyrank_capstone_meterin.Prelude.{
  ℕ, String, ◌≡◌, ◌≢◌, refl, inl, inr, true, false, not, ◌&&◌, ◌||◌, Option, none, some, ◌==◌,
  str_eq, exists, update_where, Bool-cases,
}
use flyrank_capstone_meterin.Result.{ok}
use flyrank_capstone_meterin.Exec.{bind_ok, ◌>>=◌}
use flyrank_capstone_meterin.Models.{Tenant}
use flyrank_capstone_meterin.Payloads.{Cached, tenant}
use flyrank_capstone_meterin.Cache.{cache_get}
use flyrank_capstone_meterin.World.{
  Db, World, App, Moment, commit, rollback, cached_get, cached_set,
}
use flyrank_capstone_meterin.Tenants.{get_tenant}
use flyrank_capstone_meterin.World.Session.{get_db_ok}
use flyrank_capstone_meterin.Subscriptions.{equals_text}
use flyrank_capstone_meterin.Handlers.Checkout.{truthy}
use flyrank_capstone_meterin.Auth.{
  AuthEnv, Loaded, of_cached, check_key, tenant_or_401, tenant_key, tenant_from, parsed_or_401,
  get_current_tenant,
}
use flyrank_capstone_meterin.Account.{
  AccountEnv, TenantResponse, commit_customer, request_session, create_checkout_session, strict_str,
  required_datetime, get_current_tenant_info, get_me,
}

-- The tables with the customer of a tenant set.
abbrev pub with_customer : ℕ → String → Db → Db
with_customer id customer d = record d {
  tenants =
      update_where (λ (t : Tenant). t.id == id)
        (λ t. record t { stripe_customer_id = some customer }) d.tenants;
}

module _ (env : AccountEnv) (plan_tier : String) (l : Loaded) (w : World) where
  abbrev IsPlan : Type 0
  IsPlan = (str_eq plan_tier "free" || str_eq plan_tier "pro") ≡ true

  -- For a tenant without a customer that the session holds: the new customer is committed with the
  -- tenant whether or not Stripe then opens a session, and the outcome is that of the request for
  -- the session. The customer must not be another tenant's.
  pub checkout_keeps_customer :
      (customer : String)
      → IsPlan
      → l.persistent ≡ true
      → truthy l.row.stripe_customer_id ≡ none
      → env.create_customer l.row.email (env.uuid_text l.row.id) ≡ ok customer
      → exists
          (λ (t : Tenant). not (t.id == l.row.id) && equals_text t.stripe_customer_id customer)
          w.db.tenants
        ≡ false
      → let d = with_customer l.row.id customer w.db in
        create_checkout_session env plan_tier l w
        ≡ (request_session env l plan_tier customer, record w { db = d; committed = d })
  unfolding create_checkout_session commit_customer commit
  checkout_keeps_customer customer plan held bare made free = rw (plan, bare, made, held, free) refl

-- A tenant from the cache has no creation time.
tenant_from_created :
    (env : AuthEnv) (m : Moment) (id : ℕ) (x_api_key : Option String) (found : Option Cached)
    (w : World) (l : Loaded)
    → (tenant_from env m id x_api_key found w).0 ≡ ok l
    → l.persistent ≡ false
    → l.row.created_at ≡ none
unfolding tenant_from of_cached cached_set
tenant_from_created env m id x_api_key (some (tenant c)) w l h p =
    let (u, checked, rest) =
      bind_ok (check_key env (truthy x_api_key) (truthy c.api_key_hash)) _ w h in
    cc
tenant_from_created env m id x_api_key (some other) w l h p = cc
tenant_from_created env m id x_api_key none w l h p =
    let (found, got, rest) = bind_ok (get_tenant id) _ w h in
    let (t, there, then_check) = bind_ok (tenant_or_401 found) _ (get_tenant id w).1 rest in
    let (u, checked, last) =
      bind_ok (check_key env (truthy x_api_key) (truthy t.api_key_hash)) _
        (tenant_or_401 found (get_tenant id w).1).1 then_check in
    cc

get_current_tenant_created :
    (env : AuthEnv) (m : Moment) (x_tenant_id : String) (x_api_key : Option String) (w : World)
    (l : Loaded)
    → (get_current_tenant env m x_tenant_id x_api_key w).0 ≡ ok l
    → l.persistent ≡ false
    → l.row.created_at ≡ none
unfolding get_current_tenant cached_get
get_current_tenant_created env m x_tenant_id x_api_key w l h p =
    let (id, parsed, rest) = bind_ok (parsed_or_401 (env.parse_uuid x_tenant_id)) _ w h in
    let w1 = (parsed_or_401 (env.parse_uuid x_tenant_id) w).1 in
    let (found, r) = cache_get m.ticks (tenant_key env id) w1.redis in
    tenant_from_created env m id x_api_key found (record w1 { redis = r }) l rest p

current_tenant_info_fails :
    (env : AccountEnv) (l : Loaded) (w : World) (r : TenantResponse)
    → (l.persistent ≡ false → l.row.created_at ≡ none)
    → (get_current_tenant_info env l w).0 ≢ ok r
unfolding get_current_tenant_info strict_str required_datetime
current_tenant_info_fails env l w r created h = elim (Bool-cases l.persistent) [
  | inl held ↦ cc (rw held at h)
  | inr cached ↦ cc (rw (cached, created cached) at h)
]

-- GET /tenants/me never returns a response, for any headers and in any state: the id of a tenant
-- from the database is no text, and a tenant from the cache has no creation time.
pub get_me_never :
    (env : AccountEnv) (auth : AuthEnv) (m : Moment) (x_tenant_id : String)
    (x_api_key : Option String) (w : World) (r : TenantResponse)
    → (get_me env auth m x_tenant_id x_api_key w).0 ≢ ok r
unfolding get_me
get_me_never env auth m x_tenant_id x_api_key w r h =
    let body : App TenantResponse = (do
      l ← get_current_tenant auth m x_tenant_id x_api_key
      get_current_tenant_info env l) in
    let (result, final) = get_db_ok body w r h in
    let (l, found, info) =
      bind_ok (get_current_tenant auth m x_tenant_id x_api_key) _ (rollback w) result in
    current_tenant_info_fails env l _ r
      (get_current_tenant_created auth m x_tenant_id x_api_key (rollback w) l found) info
