-- ===== src/Meter/Race.antt =====
-- Two recordings whose checks both run before either insert (src/services/meter_service.py).
use flyrank_capstone_meterin.Prelude.{
  ℕ, ◌+◌, ◌≤◌, ◌≡◌, refl, sym, ap, ◌∙◌, true, false, ◌&&◌, [], ◌∷◌, ◌++◌, arith, ◌==◌, exists,
  le→leb, if◌then◌else◌, exists-append,
}
use flyrank_capstone_meterin.Result.{ok}
use flyrank_capstone_meterin.Clock.{DateTime, start_of_month, is_at_most}
use flyrank_capstone_meterin.Models.{
  Tenant, Plan, Subscription, UsageEvent, UsageType, same_type, same_type_iff,
}
use flyrank_capstone_meterin.World.{World, Moment, set_db}
use flyrank_capstone_meterin.Usage.{clashes, in_month, get_monthly_usage, record_usage}
use flyrank_capstone_meterin.Usage.Laws.{record_usage_new, usage-record_usage}
use flyrank_capstone_meterin.Quota.{QuotaInfo, check_quota, limit_of}
use flyrank_capstone_meterin.Quota.Laws.{Entitled, month_info, check_quota_lem}
use flyrank_capstone_meterin.Meter.{Env, MeterCall, store_event}
use flyrank_capstone_meterin.Meter.Laws.{
  priced_event, store_event_lem, IsPriced-calculate, report_keeps,
}
use flyrank_capstone_meterin.Cost.Laws.{IsPriced}

-- The insert that follows a check which allowed the call.
store_event_allowed :
    (env : Env) (m : Moment) (id : ℕ) (call : MeterCall) (info : QuotaInfo) (w : World)
    → IsPriced env.pricing call.usage_type call.qty
    → (store_event env m id call (true, info) w).1 ≡ (record_usage (priced_event env m id call) w).1
store_event_allowed env m id call info w priced =
    rw (store_event_lem env m id call info w (IsPriced-calculate env call priced))
      (report_keeps call info _ _)

-- Two inserts under two new keys count both quantities.
two_inserts :
    (row other : UsageEvent) (w : World) (t : ℕ) (u : UsageType) (start : DateTime)
    → exists (λ (a : Tenant). a.id == row.tenant_id) w.db.tenants ≡ true
    → exists (λ (a : Tenant). a.id == other.tenant_id) w.db.tenants ≡ true
    → exists (clashes row) w.db.usage_events ≡ false
    → exists (clashes other) w.db.usage_events ≡ false
    → clashes other row ≡ false
    → get_monthly_usage t u start (record_usage other (record_usage row w).1).1
      ≡ get_monthly_usage t u start w
        + (if same_type row.usage_type u && in_month t start row then row.quantity else 0)
        + (if same_type other.usage_type u && in_month t start other then other.quantity else 0)
two_inserts row other w t u start known known' new new' apart =
    let w1 = set_db (record w.db { usage_events = w.db.usage_events ++ row ∷ [] }) w in
    let first : (record_usage row w).1 ≡ w1 = rw (record_usage_new row w new, known) in
    let still_new : exists (clashes other) w1.db.usage_events ≡ false =
      exists-append (clashes other) w.db.usage_events row ∙ rw (new', apart) in
    let before = usage-record_usage row w t u start new known in
    rw first (usage-record_usage other w1 t u start still_new known')
    ∙ ap
        (λ n.
          n
          + (if same_type other.usage_type u && in_month t start other then other.quantity else 0))
        (ap (get_monthly_usage t u start) (sym first) ∙ before)

counted :
    (t : ℕ) (u : UsageType) (start : DateTime) (e : UsageEvent)
    → e.tenant_id ≡ t
    → e.usage_type ≡ u
    → is_at_most start e.created_at ≡ true
    → same_type e.usage_type u && in_month t start e ≡ true
unfolding in_month
counted t u start e h k now = ground (arith, (same_type_iff e.usage_type u).1)

-- An entitled, known tenant makes two calls of one type in one month under two new keys, each of
-- which fits into the limit by itself and has a product of quantity and price of at most 28 digits. If both checks run before the first insert, then both allow,
-- and both quantities are counted, also where their sum exceeds the limit.
pub checks_before_inserts :
    (env : Env) (m : Moment) (id id' : ℕ) (a b : MeterCall) (w : World) {s : Subscription}
    {p : Plan}
    → Entitled a.tenant_id w s p
    → IsPriced env.pricing a.usage_type a.qty
    → IsPriced env.pricing b.usage_type b.qty
    → exists (λ (t : Tenant). t.id == a.tenant_id) w.db.tenants ≡ true
    → b.tenant_id ≡ a.tenant_id
    → b.usage_type ≡ a.usage_type
    → is_at_most (start_of_month m.now) m.db_now ≡ true
    → exists (clashes (priced_event env m id a)) w.db.usage_events ≡ false
    → exists (clashes (priced_event env m id' b)) w.db.usage_events ≡ false
    → clashes (priced_event env m id' b) (priced_event env m id a) ≡ false
    → let usage = get_monthly_usage a.tenant_id a.usage_type (start_of_month m.now) in
      usage w + a.qty ≤ limit_of a.usage_type p
      → usage w + b.qty ≤ limit_of a.usage_type p
      → (info info' : QuotaInfo) × ((check_quota m a.tenant_id a.usage_type a.qty w).0
          ≡ ok (true, info))
        × ((check_quota m b.tenant_id b.usage_type b.qty w).0 ≡ ok (true, info'))
        × (usage (store_event env m id' b (true, info') (store_event env m id a (true, info) w).1).1
            ≡ usage w + a.qty + b.qty)
checks_before_inserts env m id id' a b w {s} {p} e priced priced' known same_tenant same_use now new
      new' apart fits fits' =
    (
      month_info m a.tenant_id a.usage_type a.qty w p,
      month_info m a.tenant_id a.usage_type b.qty w p,
      ap (λ x. x.0) (check_quota_lem m a.tenant_id a.usage_type a.qty w e) ∙ rw (le→leb _ _ fits),
      rw (same_tenant, same_use)
          (ap (λ x. x.0) (check_quota_lem m a.tenant_id a.usage_type b.qty w e)
            ∙ rw (le→leb _ _ fits')),
      rw (store_event_allowed env m id a _ w priced, store_event_allowed env m id' b _ _ priced')
          (two_inserts (priced_event env m id a) (priced_event env m id' b) w a.tenant_id
              a.usage_type (start_of_month m.now) known (rw same_tenant known) new new' apart
            ∙ rw (
              counted a.tenant_id a.usage_type (start_of_month m.now) (priced_event env m id a) refl
                  refl now,
              counted a.tenant_id a.usage_type (start_of_month m.now) (priced_event env m id' b)
                  same_tenant same_use now,
            )),
    )
