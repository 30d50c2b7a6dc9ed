-- ===== src/UsageApi/Laws.antt =====
-- The numbers of GET /usage, and how long they are kept (src/api/v1/usage.py).
use flyrank_capstone_meterin.Prelude.{
  ℕ, ◌+◌, ◌-◌, ◌≤◌, ◌<◌, ◌==◌, if◌then◌else◌, String, ◌≡◌, refl, ap, ◌∙◌, none, inl, inr, arith,
  eq_refl, lt→ltb,
}
use flyrank_capstone_meterin.Result.{ok, Result-cases}
use flyrank_capstone_meterin.Clock.{DateTime, start_of_month, period_end}
use flyrank_capstone_meterin.Models.{
  Plan, Subscription, UsageType, api_call, input_tokens, cached_input_tokens, output_tokens,
  reasoning_tokens,
}
use flyrank_capstone_meterin.Money.{microunits_to_cents}
use flyrank_capstone_meterin.Cost.{PricingConfig}
use flyrank_capstone_meterin.Cost.Laws.{
  rounded_cost, IsPriced, calculate-ok, calculate_token_breakdown-ok,
}
use flyrank_capstone_meterin.Payloads.{UsageResponse, Cached}
use flyrank_capstone_meterin.Cache.{cache_get, cache_set}
use flyrank_capstone_meterin.Cache.Laws.{IsConnected, cache_get-cache_set, redis-cache_get}
use flyrank_capstone_meterin.World.{Db, World, Moment, cached_get, cached_set}
use flyrank_capstone_meterin.Usage.{get_monthly_cost, get_monthly_usage_breakdown}
use flyrank_capstone_meterin.Quota.{error, quotas, get_or_zero, overview, get_all_quotas}
use flyrank_capstone_meterin.Quota.Laws.{
  Entitled, first_of_month, month_sum, month_cost, get_monthly_usage-month_sum,
  get_monthly_cost-month_cost,
}
use flyrank_capstone_meterin.Quota.Overview.{breakdown_exact, get_all_quotas_lem}
use flyrank_capstone_meterin.UsageApi.{
  usage_cache_ttl, usage_key, usage_response, compute_usage, usage_from, get_usage,
}

-- The products of quantities and prices from which the costs of a response are computed.
abbrev pub ArePriced : PricingConfig → (UsageType → ℕ) → Type 0
ArePriced pricing used =
    IsPriced pricing api_call (used api_call)
    × IsPriced pricing input_tokens (used input_tokens)
    × IsPriced pricing cached_input_tokens (used cached_input_tokens)
    × IsPriced pricing output_tokens (used output_tokens + used reasoning_tokens + 0)

-- The response for a tenant on a plan.
abbrev pub response_on : PricingConfig → Moment → ℕ → World → Plan → UsageResponse
response_on pricing m t w p =
    let start = start_of_month m.now in
    let b = get_monthly_usage_breakdown t start w in
    let used = λ (u : UsageType). get_or_zero u b in
    usage_response start (overview p b) b (rounded_cost pricing api_call (used api_call))
      (record {
        input_tokens = rounded_cost pricing input_tokens (used input_tokens);
        cached_input_tokens = rounded_cost pricing cached_input_tokens (used cached_input_tokens);
        output_tokens =
            rounded_cost pricing output_tokens (used output_tokens + used reasoning_tokens + 0);
      })
      (get_monthly_cost t start w)

pub compute_usage_on :
    (pricing : PricingConfig) (m : Moment) (t : ℕ) (w : World) {s : Subscription} {p : Plan}
    → Entitled t w s p
    → ArePriced pricing
        (λ u. get_or_zero u (get_monthly_usage_breakdown t (start_of_month m.now) w))
    → compute_usage pricing m t w ≡ (ok (response_on pricing m t w p), w)
unfolding compute_usage overview
compute_usage_on pricing m t w {s} {p} e (api, input, cached, output) =
    let b = get_monthly_usage_breakdown t (start_of_month m.now) w in
    let used = λ (u : UsageType). get_or_zero u b in
    rw
      (
        get_all_quotas_lem m t w e,
        calculate_token_breakdown-ok pricing (used input_tokens) (used cached_input_tokens)
            (used output_tokens + used reasoning_tokens) 0 input cached output,
        calculate-ok pricing api_call (used api_call) api,
      )
      refl

-- The first instant of the month after that of a datetime.
abbrev pub first_of_next_month : DateTime → DateTime
first_of_next_month d = record {
  year = if d.month == 12 then d.year + 1 else d.year;
  month = if d.month == 12 then 1 else d.month + 1;
  day = 1;
  micros = 0;
}

period_end-first_of_next_month :
    (d : DateTime) → d.month ≤ 12 → period_end (start_of_month d) ≡ first_of_next_month d
unfolding period_end start_of_month
period_end-first_of_next_month d h = ground arith

-- For an entitled tenant, where each product of a quantity and its price has at most 28 digits: the
-- response is computed and nothing changes. It names the tenant's plan and
-- reports the API calls and the four token types together, as sums of the tenant's own events from
-- the first instant of the month on, each with the plan's quota as its limit and what remains of it;
-- the cost of those events in cents; and the period from the first instant of the month to that of
-- the next month, which after December is January of the next year.
pub compute_usage_exact :
    (pricing : PricingConfig) (m : Moment) (t : ℕ) (w : World) {s : Subscription} {p : Plan}
    → Entitled t w s p
    → m.now.month ≤ 12
    → ArePriced pricing (λ u. month_sum t u (first_of_month m.now) w.db.usage_events)
    → let used = λ (u : UsageType). month_sum t u (first_of_month m.now) w.db.usage_events in
      (r : UsageResponse) × (compute_usage pricing m t w ≡ (ok r, w))
      × (r.plan ≡ p.name)
      × (r.api_calls.used ≡ used api_call)
      × (r.api_calls.limit ≡ p.api_call_quota)
      × (r.api_calls.remaining ≡ p.api_call_quota - used api_call)
      × (r.ai_tokens.used
          ≡ used input_tokens
            + used cached_input_tokens
            + used output_tokens
            + used reasoning_tokens)
      × (r.ai_tokens.limit ≡ p.ai_token_quota)
      × (r.ai_tokens.remaining ≡ p.ai_token_quota - r.ai_tokens.used)
      × (r.total_cost_cents
          ≡ microunits_to_cents (month_cost t (first_of_month m.now) w.db.usage_events))
      × (r.period_start ≡ first_of_month m.now)
      × (r.period_end ≡ first_of_next_month m.now)
unfolding usage_response overview start_of_month
compute_usage_exact pricing m t w {s} {p} e h priced =
    let exact = breakdown_exact t (start_of_month m.now) w api_call in
    let sum = λ (u : UsageType). get_monthly_usage-month_sum t u m.now w in
    let read = λ (u : UsageType). (breakdown_exact t (start_of_month m.now) w u).0 ∙ sum u in
    let calls = exact.0 ∙ sum api_call in
    (
      response_on pricing m t w p,
      compute_usage_on pricing m t w e (
          rw
            (
              read api_call,
              read input_tokens,
              read cached_input_tokens,
              read output_tokens,
              read reasoning_tokens,
            )
            priced),
      refl,
      calls,
      refl,
      ap (λ n. p.api_call_quota - n) calls,
      exact.1
          ∙ rw (sum input_tokens, sum cached_input_tokens, sum output_tokens, sum reasoning_tokens)
              refl,
      refl,
      refl,
      ap microunits_to_cents (get_monthly_cost-month_cost t m.now w),
      refl,
      period_end-first_of_next_month m.now h,
    )

get_all_quotas_reads : (m : Moment) (t : ℕ) (w : World) → (get_all_quotas m t w).1 ≡ w
unfolding get_all_quotas
get_all_quotas_reads m t w = ground arith

compute_usage_reads :
    (pricing : PricingConfig) (m : Moment) (t : ℕ) (w : World) → (compute_usage pricing m t w).1 ≡ w
unfolding compute_usage
compute_usage_reads pricing m t w = elim (Result-cases (get_all_quotas m t w).0) [
  | inl (error message, p) ↦ rw (p, get_all_quotas_reads m t w) refl
  | inl (quotas q, p) ↦ rw (p, get_all_quotas_reads m t w) (ground arith)
  | inr (e, p) ↦ rw (p, get_all_quotas_reads m t w) refl
]

usage_from_stores :
    (pricing : PricingConfig) (uuid_text : ℕ → String) (month_text : DateTime → String) (m : Moment)
    (t : ℕ) (w : World) (c : Cached)
    → (usage_from pricing uuid_text month_text m t none w).0 ≡ ok c
    → (usage_from pricing uuid_text month_text m t none w).1.redis
      ≡ cache_set m.ticks (usage_key uuid_text month_text m t) c usage_cache_ttl w.redis
unfolding usage_from cached_set
usage_from_stores pricing uuid_text month_text m t w c h =
    elim (Result-cases (compute_usage pricing m t w).0) [
      | inl (r, p) ↦
          rw (p, compute_usage_reads pricing m t w)
            (ap
              (λ x.
                cache_set m.ticks (usage_key uuid_text month_text m t) x usage_cache_ttl w.redis)
              (cc (rw p at h)))
      | inr (e, p) ↦ absurd (cc (rw p at h))
    ]

pub get_usage_miss :
    (pricing : PricingConfig) (uuid_text : ℕ → String) (month_text : DateTime → String) (m : Moment)
    (t : ℕ) (w : World)
    → (cache_get m.ticks (usage_key uuid_text month_text m t) w.redis).0 ≡ none
    → get_usage pricing uuid_text month_text m t w
      ≡ usage_from pricing uuid_text month_text m t none
          (record w { redis = (cache_get m.ticks (usage_key uuid_text month_text m t) w.redis).1 })
unfolding get_usage cached_get
get_usage_miss pricing uuid_text month_text m t w miss = rw miss refl

get_usage_stores :
    (pricing : PricingConfig) (uuid_text : ℕ → String) (month_text : DateTime → String) (m : Moment)
    (t : ℕ) (w : World) (c : Cached)
    → IsConnected w.redis
    → (cache_get m.ticks (usage_key uuid_text month_text m t) w.redis).0 ≡ none
    → (get_usage pricing uuid_text month_text m t w).0 ≡ ok c
    → (get_usage pricing uuid_text month_text m t w).1.redis
      ≡ cache_set m.ticks (usage_key uuid_text month_text m t) c usage_cache_ttl w.redis
get_usage_stores pricing uuid_text month_text m t w c conn miss h =
    let key = usage_key uuid_text month_text m t in
    let step = get_usage_miss pricing uuid_text month_text m t w miss in
    rw step (
      usage_from_stores pricing uuid_text month_text m t
        (record w { redis = (cache_get m.ticks key w.redis).1 }) c (rw step at h)
      ∙ ap (cache_set m.ticks key c usage_cache_ttl) (redis-cache_get m.ticks key w.redis conn))

usage_key-month :
    (uuid_text : ℕ → String) (month_text : DateTime → String) (m m' : Moment) (t : ℕ)
    → month_text m'.now ≡ month_text m.now
    → usage_key uuid_text month_text m' t ≡ usage_key uuid_text month_text m t
unfolding usage_key
usage_key-month uuid_text month_text m m' t h = rw h refl

-- With Redis connected: after a GET /usage that was not answered from the cache and that returned
-- `c`, every GET /usage of the same tenant within 30 seconds and under the same text of the month
-- returns `c`, whatever has become of the database in the meantime.
pub get_usage_stale :
    (pricing : PricingConfig) (uuid_text : ℕ → String) (month_text : DateTime → String)
    (m m' : Moment) (t : ℕ) (w : World) (d d' : Db) (c : Cached)
    → IsConnected w.redis
    → (cache_get m.ticks (usage_key uuid_text month_text m t) w.redis).0 ≡ none
    → (get_usage pricing uuid_text month_text m t w).0 ≡ ok c
    → month_text m'.now ≡ month_text m.now
    → m'.ticks.seconds < m.ticks.seconds + usage_cache_ttl
    → let r = (get_usage pricing uuid_text month_text m t w).1.redis in
      (get_usage pricing uuid_text month_text m' t (record { db = d; committed = d'; redis = r })).0
      ≡ ok c
unfolding get_usage usage_from cached_get
get_usage_stale pricing uuid_text month_text m m' t w d d' c conn miss h month soon =
    rw
      (
        get_usage_stores pricing uuid_text month_text m t w c conn miss h,
        usage_key-month uuid_text month_text m m' t month,
        cache_get-cache_set m.ticks m'.ticks (usage_key uuid_text month_text m t)
            (usage_key uuid_text month_text m t) c usage_cache_ttl w.redis conn,
        eq_refl (usage_key uuid_text month_text m t),
        lt→ltb _ _ soon,
      )
      refl
