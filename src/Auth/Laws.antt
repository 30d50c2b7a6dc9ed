-- ===== src/Auth/Laws.antt =====
-- Which requests are authenticated (src/api/middleware/auth.py).
use flyrank_capstone_meterin.Prelude.{
  ℕ, String, ◌≡◌, refl, inl, inr, true, false, Option, none, some, Bool-cases, Option-cases, exists,
  select-none, ◌==◌,
}
use flyrank_capstone_meterin.Result.{ok, err, Result-cases}
use flyrank_capstone_meterin.Exec.{pure, ◌>>◌}
use flyrank_capstone_meterin.Errors.{http, text}
use flyrank_capstone_meterin.Models.{Tenant}
use flyrank_capstone_meterin.Payloads.{Cached}
use flyrank_capstone_meterin.Cache.{cache_get}
use flyrank_capstone_meterin.World.{World, App, Moment, cached_get, cached_set, scalar_one_or_none}
use flyrank_capstone_meterin.Tenants.{get_tenant}
use flyrank_capstone_meterin.Handlers.Checkout.{truthy}
use flyrank_capstone_meterin.Auth.{
  AuthEnv, Loaded, of_cached, if_verified, check_key, tenant_or_401, parsed_or_401, tenant_key,
  tenant_from, cache_data, tenant_cache_ttl, get_current_tenant,
}

module _ (env : AuthEnv) where
  -- A check before an action that returns `t'`: where it passes with both texts there, the key has
  -- been verified.
  check_key_verifies :
      (x_api_key : Option String) (t' t : Loaded) (rest : App Loaded) (w : World) {k h : String}
      → ((v : World) → (rest v).0 ≡ ok t')
      → ((check_key env (truthy x_api_key) (truthy t'.row.api_key_hash) >> rest) w).0 ≡ ok t
      → truthy x_api_key ≡ some k
      → truthy t.row.api_key_hash ≡ some h
      → env.verify_api_key k h ≡ true
  unfolding check_key if_verified
  check_key_verifies x_api_key t' t rest w {k} {h} returns p pk ph =
      elim (Option-cases (truthy t'.row.api_key_hash)) [
        | inl no_hash ↦ absurd (cc (rw (pk, no_hash, returns) at p, ph, no_hash))
        | inr (h', hash) ↦ elim (Bool-cases (env.verify_api_key k h')) [
          | inl yes_ ↦ cc (rw (pk, hash, yes_, returns) at p, ph, hash, yes_)
          | inr no_ ↦ absurd (cc (rw (pk, hash, no_) at p))
        ]
      ]

  tenant_from_verifies :
      (m : Moment) (id : ℕ) (x_api_key : Option String) (found : Option Cached) (w : World)
      (t : Loaded) {k h : String}
      → (tenant_from env m id x_api_key found w).0 ≡ ok t
      → truthy x_api_key ≡ some k
      → truthy t.row.api_key_hash ≡ some h
      → env.verify_api_key k h ≡ true
  unfolding tenant_from tenant_or_401 get_tenant cached_set
  tenant_from_verifies m id x_api_key (some c) w t p pk ph = elim (Result-cases (of_cached c)) [
    | inl (t', q) ↦
        let got : Loaded = record { row = t'; persistent = false } in
        check_key_verifies x_api_key got t (pure got) w (λ v. refl) (rw q at p) pk ph
    | inr (e, q) ↦ absurd (cc (rw q at p))
  ]
  tenant_from_verifies m id x_api_key none w t p pk ph = elim (Result-cases (get_tenant id w).0) [
    | inl (none, q) ↦ absurd (cc (rw q at p))
    | inl (some t', q) ↦
        let got : Loaded = record { row = t'; persistent = true } in
        check_key_verifies x_api_key got t
          (cached_set m (tenant_key env id) (cache_data t') tenant_cache_ttl >> pure got) w
          (λ v. refl) (rw q at p) pk ph
    | inr (e, q) ↦ absurd (cc (rw q at p))
  ]

  -- Where a request with an API key is let in as a tenant that has a key's hash, the key has been
  -- verified against that hash, whether the tenant came from the cache or from the database.
  pub get_current_tenant_verifies :
      (m : Moment) (x_tenant_id : String) (x_api_key : Option String) (w : World) (t : Loaded)
      {k h : String}
      → (get_current_tenant env m x_tenant_id x_api_key w).0 ≡ ok t
      → truthy x_api_key ≡ some k
      → truthy t.row.api_key_hash ≡ some h
      → env.verify_api_key k h ≡ true
  unfolding get_current_tenant parsed_or_401 cached_get
  get_current_tenant_verifies m x_tenant_id x_api_key w t p pk ph =
      elim (Option-cases (env.parse_uuid x_tenant_id)) [
        | inl bad ↦ absurd (cc (rw bad at p))
        | inr (id, good) ↦
            let (found, r) = cache_get m.ticks (tenant_key env id) w.redis in
            tenant_from_verifies m id x_api_key found (record w { redis = r }) t (rw good at p) pk
              ph
      ]

  -- A tenant that the database does not have, and the cache neither, is refused with 401, and the
  -- tables are unchanged.
  pub get_current_tenant_unknown :
      (m : Moment) (x_tenant_id : String) (x_api_key : Option String) (id : ℕ) (w : World)
      → env.parse_uuid x_tenant_id ≡ some id
      → (cache_get m.ticks (tenant_key env id) w.redis).0 ≡ none
      → exists (λ (t : Tenant). t.id == id) w.db.tenants ≡ false
      → let (r, w') = get_current_tenant env m x_tenant_id x_api_key w in
        (r ≡ err (http 401 (text "Tenant not found"))) × (w'.db ≡ w.db)
  unfolding get_current_tenant parsed_or_401 cached_get tenant_from tenant_or_401 get_tenant
      scalar_one_or_none
  get_current_tenant_unknown m x_tenant_id x_api_key id w good miss absent =
      rw (good, miss, select-none (λ (t : Tenant). t.id == id) w.db.tenants absent) (refl, refl)
