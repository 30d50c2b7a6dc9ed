-- ===== src/Invariant/Endpoints.antt =====
-- The endpoints of src/api/v1/ but the webhook, on sound tables.
use flyrank_capstone_meterin.Prelude.{
  ℕ, String, Bool, true, false, Option, none, some, [], ◌∷◌, ◌++◌, ◌≡◌, inl, inr, ◌==◌, exists,
  Bool-cases,
}
use flyrank_capstone_meterin.Clock.{DateTime}
use flyrank_capstone_meterin.Models.{Tenant, Plan, Subscription, UsageEvent}
use flyrank_capstone_meterin.Payloads.{Cached}
use flyrank_capstone_meterin.Cost.{PricingConfig}
use flyrank_capstone_meterin.World.{Db, Moment}
use flyrank_capstone_meterin.Subscriptions.{has_tenant, has_plan, get_active_by_tenant, get_plan}
use flyrank_capstone_meterin.Usage.{clashes, record_usage}
use flyrank_capstone_meterin.Usage.Laws.{IsKeyed-append, record_usage_new, record_usage_taken}
use flyrank_capstone_meterin.Quota.{
  AllQuotas, error, quotas, quotas_on_plan, quotas_of_subscription, get_all_quotas,
}
use flyrank_capstone_meterin.Meter.{Env, MeterCall}
use flyrank_capstone_meterin.Meter.Laws.{priced_event}
use flyrank_capstone_meterin.Meter.Safety.{record_event_or}
use flyrank_capstone_meterin.MeterApi.{try_record, record_and_store, answer_from, handle_meter}
use flyrank_capstone_meterin.UsageApi.{quotas_or_404, compute_usage, usage_from, get_usage}
use flyrank_capstone_meterin.Auth.{
  AuthEnv, if_verified, check_key, tenant_or_401, parsed_or_401, tenant_from, get_current_tenant,
}
use flyrank_capstone_meterin.MeterRequest.{MeterBody, MeterHeaders, meter_body}
use flyrank_capstone_meterin.Invariant.{Sound}
use flyrank_capstone_meterin.Invariant.Writes.{AllOf-append}
use flyrank_capstone_meterin.Invariant.Triple.{Triple, Triple-then, triple_rules}
use flyrank_capstone_meterin.Invariant.Repos.{get_tenant-Triple}

module _ {P : Db → Type 0} where
  if_verified-Triple : (b : Bool) → Triple P P (if_verified b)
  unfolding if_verified
  if_verified-Triple true = search triple_rules
  if_verified-Triple false = search triple_rules

  check_key-Triple :
      (env : AuthEnv) (key hash : Option String) → Triple P P (check_key env key hash)
  unfolding check_key
  check_key-Triple env (some k) (some h) = if_verified-Triple (env.verify_api_key k h)
  check_key-Triple env (some k) none = search triple_rules
  check_key-Triple env none hash = search triple_rules

  tenant_or_401-Triple : (found : Option Tenant) → Triple P P (tenant_or_401 found)
  unfolding tenant_or_401
  tenant_or_401-Triple none = search triple_rules
  tenant_or_401-Triple (some t) = search triple_rules

  parsed_or_401-Triple : (found : Option ℕ) → Triple P P (parsed_or_401 found)
  unfolding parsed_or_401
  parsed_or_401-Triple none = search triple_rules
  parsed_or_401-Triple (some t) = search triple_rules

ruleset access_rules =
    (triple_rules, get_tenant-Triple, check_key-Triple, tenant_or_401-Triple, parsed_or_401-Triple)

module _ {P : Db → Type 0} (env : AuthEnv) (m : Moment) where
  tenant_from-Triple :
      (id : ℕ) (key : Option String) (found : Option Cached)
      → Triple P P (tenant_from env m id key found)
  unfolding tenant_from
  tenant_from-Triple id key none = search access_rules
  tenant_from-Triple id key (some c) = search access_rules

  pub get_current_tenant-Triple :
      (x_tenant_id : String) (key : Option String)
      → Triple P P (get_current_tenant env m x_tenant_id key)
  unfolding get_current_tenant
  get_current_tenant-Triple x_tenant_id key = search (access_rules, tenant_from-Triple)

Sound-event :
    (d : Db) (row : UsageEvent)
    → Sound d
    → exists (clashes row) d.usage_events ≡ false
    → exists (λ (t : Tenant). t.id == row.tenant_id) d.tenants ≡ true
    → Sound (record d { usage_events = d.usage_events ++ row ∷ [] })
unfolding has_tenant has_plan
Sound-event d row s new known = record {
  usage_keyed = IsKeyed-append d.usage_events row s.usage_keyed new;
  usage_tenants = AllOf-append _ d.usage_events row s.usage_tenants known;
  distinct = s.distinct;
  tenants = s.tenants;
  plans = s.plans;
}

record_usage-Triple : (row : UsageEvent) → Triple Sound Sound (record_usage row)
record_usage-Triple row = record {
  at = λ w s hc. elim (Bool-cases (exists (clashes row) w.db.usage_events)) [
    | inl taken ↦
        let (e, run, same) = record_usage_taken row w s.usage_keyed taken in rw run (s, hc)
    | inr new ↦
        rw (record_usage_new row w new)
          (elim (Bool-cases (exists (λ (t : Tenant). t.id == row.tenant_id) w.db.tenants)) [
            | inl known ↦ rw known (Sound-event w.db row s new known, hc)
            | inr unknown ↦ rw unknown (s, hc)
          ])
  ];
}

module _ (env : Env) (auth : AuthEnv) (m : Moment) (id : ℕ) where
  try_record-Triple : (call : MeterCall) → Triple Sound Sound (try_record env m id call)
  unfolding try_record
  try_record-Triple call = record {
    at = λ w s hc. elim (record_event_or env m id call w) [
      | inl same ↦ rw same (s, hc)
      | inr stored ↦ rw stored ((record_usage-Triple (priced_event env m id call)).at w s hc)
    ];
  }

  answer_from-Triple :
      (call : MeterCall) (found : Option Cached)
      → Triple Sound Sound (answer_from env auth.uuid_text m id call found)
  unfolding answer_from record_and_store
  answer_from-Triple call (some c) = search triple_rules
  answer_from-Triple call none = search (triple_rules, try_record-Triple)

  pub meter_body-Triple :
      (h : MeterHeaders) (body : MeterBody) → Triple Sound Sound (meter_body env auth m id h body)
  unfolding meter_body handle_meter
  meter_body-Triple h body = search (triple_rules, get_current_tenant-Triple, answer_from-Triple)

module _ {P : Db → Type 0} (m : Moment) (t : ℕ) where
  quotas_on_plan-Triple : (found : Option Plan) → Triple P P (quotas_on_plan m t found)
  unfolding quotas_on_plan
  quotas_on_plan-Triple none = record { at = λ w h hc. (h, hc) }
  quotas_on_plan-Triple (some plan) = record { at = λ w h hc. (h, hc) }

  quotas_of_subscription-Triple :
      (found : Option Subscription) → Triple P P (quotas_of_subscription m t found)
  unfolding quotas_of_subscription get_plan
  quotas_of_subscription-Triple none = search triple_rules
  quotas_of_subscription-Triple (some s) =
      Triple-then _ _ (record { at = λ w h hc. (h, hc) }) quotas_on_plan-Triple

  get_all_quotas-Triple : Triple P P (get_all_quotas m t)
  unfolding get_all_quotas get_active_by_tenant
  get_all_quotas-Triple =
      Triple-then _ _ (record { at = λ w h hc. (h, hc) }) quotas_of_subscription-Triple

quotas_or_404-Triple : {P : Db → Type 0} (all : AllQuotas) → Triple P P (quotas_or_404 all)
unfolding quotas_or_404
quotas_or_404-Triple (error message) = search triple_rules
quotas_or_404-Triple (quotas q) = search triple_rules

module _ (pricing : PricingConfig) (uuid_text : ℕ → String) (month_text : DateTime → String)
    (m : Moment) (t : ℕ) where
  compute_usage-Triple : {P : Db → Type 0} → Triple P P (compute_usage pricing m t)
  unfolding compute_usage
  compute_usage-Triple = search (triple_rules, get_all_quotas-Triple, quotas_or_404-Triple) depth 12

  usage_from-Triple :
      {P : Db → Type 0} (found : Option Cached)
      → Triple P P (usage_from pricing uuid_text month_text m t found)
  unfolding usage_from
  usage_from-Triple (some c) = search triple_rules
  usage_from-Triple none = search (triple_rules, compute_usage-Triple)

  pub get_usage-Triple : {P : Db → Type 0} → Triple P P (get_usage pricing uuid_text month_text m t)
  unfolding get_usage
  get_usage-Triple = search (triple_rules, usage_from-Triple)
