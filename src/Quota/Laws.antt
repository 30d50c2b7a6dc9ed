-- ===== src/Quota/Laws.antt =====
-- What the quota check decides, and whom it refuses (src/services/quota_service.py).
use flyrank_capstone_meterin.Prelude.{
  ℕ, ◌+◌, ◌-◌, ◌≡◌, refl, true, false, ◌&&◌, List, [], ◌∷◌, arith, ltb, leb, ◌==◌, if◌then◌else◌,
  select, exists, sum_where, select-none,
}
use flyrank_capstone_meterin.Result.{ok, err}
use flyrank_capstone_meterin.Errors.{payment_required}
use flyrank_capstone_meterin.Clock.{DateTime, start_of_month, is_before, is_at_most}
use flyrank_capstone_meterin.Models.{
  Plan, Subscription, UsageEvent, UsageType, api_call, input_tokens, cached_input_tokens,
  output_tokens, reasoning_tokens, same_tier, same_type, type_value,
}
use flyrank_capstone_meterin.World.{World, Moment, scalar_one_or_none}
use flyrank_capstone_meterin.Usage.{in_month, get_monthly_usage, get_monthly_cost}
use flyrank_capstone_meterin.Subscriptions.{is_metered}
use flyrank_capstone_meterin.Quota.{QuotaInfo, check_quota, limit_of}

-- The tenant's one subscription in a metered status, and the plan that it names.
pub record Entitled (tenant_id : ℕ) (w : World) (s : Subscription) (p : Plan) : Type 0 where
  pub subscription :
      select
        (λ (a : Subscription). a.tenant_id == tenant_id && is_metered a.status)
        w.db.subscriptions
      ≡ s ∷ []
  pub metered : is_metered s.status ≡ true
  pub plan : select (λ (a : Plan). same_tier a.id s.plan_id) w.db.plans ≡ p ∷ []

-- The numbers of a tenant's month, as the check should report them on a plan.
abbrev pub month_info : Moment → ℕ → UsageType → ℕ → World → Plan → QuotaInfo
month_info m t u q w p =
    let used = get_monthly_usage t u (start_of_month m.now) w in
    let limit = limit_of u p in
    record {
      usage_type = type_value u;
      used = used;
      limit = limit;
      requested = q;
      remaining = limit - used;
      will_exceed = ltb limit (used + q);
    }

-- The check in terms of the sums and limits that it computes.
pub check_quota_lem :
    (m : Moment) (t : ℕ) (u : UsageType) (q : ℕ) (w : World) {s : Subscription} {p : Plan}
    → Entitled t w s p
    → check_quota m t u q w ≡ (
      ok (
        leb (get_monthly_usage t u (start_of_month m.now) w + q) (limit_of u p),
        month_info m t u q w p,
      ),
      w,
    )
unfolding check_quota scalar_one_or_none is_metered
check_quota_lem m t u q w {s} {p} e = ground arith

-- The quota of the plan that a usage type counts against.
abbrev pub quota_for : UsageType → Plan → ℕ
quota_for api_call p = p.api_call_quota
quota_for input_tokens p = p.ai_token_quota
quota_for cached_input_tokens p = p.ai_token_quota
quota_for output_tokens p = p.ai_token_quota
quota_for reasoning_tokens p = p.ai_token_quota

pub limit_of-quota_for : (u : UsageType) (p : Plan) → limit_of u p ≡ quota_for u p
unfolding limit_of
limit_of-quota_for api_call p = refl
limit_of-quota_for _ p = refl

-- The first instant of the month of a datetime.
abbrev pub first_of_month : DateTime → DateTime
first_of_month d = record { year = d.year; month = d.month; day = 1; micros = 0 }

-- What a tenant's events from `start` on sum up to, by their quantities where they are of one type,
-- and by their costs: one event after the other.
unfoldable pub month_sum : ℕ → UsageType → DateTime → List UsageEvent → ℕ
month_sum t u start [] = 0
month_sum t u start (e ∷ es) =
    let rest = month_sum t u start es in
    if e.tenant_id == t
    then (if same_type e.usage_type u
        then (if is_before e.created_at start then rest else e.quantity + rest)
        else rest)
    else rest

unfoldable pub month_cost : ℕ → DateTime → List UsageEvent → ℕ
month_cost t start [] = 0
month_cost t start (e ∷ es) =
    let rest = month_cost t start es in
    if e.tenant_id == t
    then (if is_before e.created_at start then rest else e.cost_microunits + rest)
    else rest

sum_where-month_sum :
    (t : ℕ) (u : UsageType) (start : DateTime) (es : List UsageEvent)
    → sum_where (λ e. same_type e.usage_type u && in_month t start e) (λ e. e.quantity) es
      ≡ month_sum t u start es
unfolding sum_where month_sum in_month is_at_most
sum_where-month_sum t u start [] = refl
sum_where-month_sum t u start (e ∷ es) = ground (arith, sum_where-month_sum t u start es)

sum_where-month_cost :
    (t : ℕ) (start : DateTime) (es : List UsageEvent)
    → sum_where (in_month t start) (λ e. e.cost_microunits) es ≡ month_cost t start es
unfolding sum_where month_cost in_month is_at_most
sum_where-month_cost t start [] = refl
sum_where-month_cost t start (e ∷ es) = ground (arith, sum_where-month_cost t start es)

pub get_monthly_usage-month_sum :
    (t : ℕ) (u : UsageType) (d : DateTime) (w : World)
    → get_monthly_usage t u (start_of_month d) w
      ≡ month_sum t u (first_of_month d) w.db.usage_events
unfolding get_monthly_usage start_of_month
get_monthly_usage-month_sum t u d w = sum_where-month_sum t u (first_of_month d) w.db.usage_events

pub get_monthly_cost-month_cost :
    (t : ℕ) (d : DateTime) (w : World)
    → get_monthly_cost t (start_of_month d) w ≡ month_cost t (first_of_month d) w.db.usage_events
unfolding get_monthly_cost start_of_month
get_monthly_cost-month_cost t d w = sum_where-month_cost t (first_of_month d) w.db.usage_events

-- For an entitled tenant the check returns, changes nothing, and allows exactly what keeps the sum of
-- the tenant's own events of that type, from the first instant of the month on, within the quota of
-- its plan: the API-call quota for API calls, the AI-token quota for each token type. The reply tells
-- that sum, that quota, what was requested, what remains, and whether the quota would be exceeded.
pub check_quota_decides :
    (m : Moment) (t : ℕ) (u : UsageType) (q : ℕ) (w : World) {s : Subscription} {p : Plan}
    → Entitled t w s p
    → let used = month_sum t u (first_of_month m.now) w.db.usage_events in
      let limit = quota_for u p in
      check_quota m t u q w ≡ (
        ok (
          leb (used + q) limit,
          record {
            usage_type = type_value u;
            used = used;
            limit = limit;
            requested = q;
            remaining = limit - used;
            will_exceed = ltb limit (used + q);
          },
        ),
        w,
      )
check_quota_decides m t u q w {s} {p} e =
    rw
      (check_quota_lem m t u q w e, get_monthly_usage-month_sum t u m.now w, limit_of-quota_for u p)
      refl

-- A tenant with no subscription in a metered status is refused with "No active subscription found",
-- whatever the other subscriptions are, and nothing changes.
pub check_quota_refuses :
    (m : Moment) (t : ℕ) (u : UsageType) (q : ℕ) (w : World)
    → exists (λ (a : Subscription). a.tenant_id == t && is_metered a.status) w.db.subscriptions
      ≡ false
    → check_quota m t u q w ≡ (err (payment_required "No active subscription found"), w)
unfolding check_quota scalar_one_or_none
check_quota_refuses m t u q w h = rw (select-none _ w.db.subscriptions h)
