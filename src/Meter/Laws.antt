-- ===== src/Meter/Laws.antt =====
-- What recording does to the month's usage, and when it refuses (src/services/meter_service.py).
use flyrank_capstone_meterin.Prelude.{
  ℕ, ◌+◌, ◌-◌, ◌≤◌, ◌<◌, ◌≡◌, refl, sym, ap, ◌∙◌, ◌⊎◌, inl, inr, Bool, true, false, Option, none,
  some, [], ◌∷◌, ◌++◌, arith, ◌==◌, Bool-cases, exists, le→leb, lt→leb,
}
use flyrank_capstone_meterin.Result.{Result, ok, err, Result-cases}
use flyrank_capstone_meterin.Exec.{continue, ◌>>=◌}
use flyrank_capstone_meterin.Errors.{Exn, quota_exceeded, type_error}
use flyrank_capstone_meterin.Cost.{calculate}
use flyrank_capstone_meterin.Cost.Laws.{
  cost_of, rounded_cost, IsPriced, cost_of-rounded_cost, calculate_cases, calculate-ok,
}
use flyrank_capstone_meterin.Clock.{start_of_month}
use flyrank_capstone_meterin.Models.{Tenant, Plan, Subscription, UsageEvent, UsageType, type_value}
use flyrank_capstone_meterin.World.{World, Moment, set_db}
use flyrank_capstone_meterin.Usage.{clashes, record_usage, get_monthly_usage}
use flyrank_capstone_meterin.Usage.Laws.{record_usage_new}
use flyrank_capstone_meterin.Quota.{QuotaInfo, check_quota, limit_of}
use flyrank_capstone_meterin.Quota.Laws.{Entitled, check_quota_lem}
use flyrank_capstone_meterin.Retry.{is_transient_error}
use flyrank_capstone_meterin.Retry.Laws.{with_db_retry_clean}
use flyrank_capstone_meterin.Meter.{
  Env, MeterCall, report, store_event, record_once, record_event, record_policy,
}

-- Recording a row leaves the world alone, or appends the row and returns it.
pub record_usage_or :
    (row : UsageEvent) (w : World)
    → ((record_usage row w).1 ≡ w)
      ⊎ (record_usage row w ≡ (
        ok (some row),
        set_db (record w.db { usage_events = w.db.usage_events ++ row ∷ [] }) w,
      ))
unfolding record_usage
record_usage_or row w = elim (Bool-cases (exists (clashes row) w.db.usage_events)) [
  | inl taken ↦ inl (rw taken)
  | inr new ↦ elim (Bool-cases (exists (λ (t : Tenant). t.id == row.tenant_id) w.db.tenants)) [
    | inl known ↦ inr (rw (new, known))
    | inr unknown ↦ inl (rw (new, unknown))
  ]
]

pub check_quota_reads :
    (m : Moment) (t : ℕ) (u : UsageType) (q : ℕ) (w : World) → (check_quota m t u q w).1 ≡ w
unfolding check_quota
check_quota_reads m t u q w = ground arith

-- The row that a call inserts: its own tenant, key, type, quantity and client, its price by the table,
-- and the time of the database.
abbrev pub priced_event : Env → Moment → ℕ → MeterCall → UsageEvent
priced_event env m id call = record {
  id = id;
  tenant_id = call.tenant_id;
  idempotency_key = call.idempotency_key;
  usage_type = call.usage_type;
  quantity = call.qty;
  cost_microunits = cost_of env.pricing call.usage_type call.qty;
  request_ip = call.req_ip;
  user_agent = call.user_agent;
  created_at = m.db_now;
}

pub store_event_lem :
    (env : Env) (m : Moment) (id : ℕ) (call : MeterCall) (info : QuotaInfo) (w : World)
    → calculate env.pricing call.usage_type call.qty
      ≡ ok (cost_of env.pricing call.usage_type call.qty)
    → store_event env m id call (true, info) w
      ≡ (record_usage (priced_event env m id call) >>= report call info) w
unfolding store_event
store_event_lem env m id call info w priced = rw priced

pub store_event_unpriced :
    (env : Env) (m : Moment) (id : ℕ) (call : MeterCall) (info : QuotaInfo) (w : World) (e : Exn)
    → calculate env.pricing call.usage_type call.qty ≡ err e
    → store_event env m id call (true, info) w ≡ (err e, w)
unfolding store_event
store_event_unpriced env m id call info w e unpriced = rw unpriced refl

pub IsPriced-calculate :
    (env : Env) (call : MeterCall)
    → IsPriced env.pricing call.usage_type call.qty
    → calculate env.pricing call.usage_type call.qty
      ≡ ok (cost_of env.pricing call.usage_type call.qty)
IsPriced-calculate env call h =
    calculate-ok env.pricing call.usage_type call.qty h
    ∙ ap ok (sym (cost_of-rounded_cost env.pricing call.usage_type call.qty h))

pub report_keeps :
    (call : MeterCall) (info : QuotaInfo) (r : Result Exn (Option UsageEvent)) (w : World)
    → (continue r (report call info) w).1 ≡ w
unfolding report
report_keeps call info (ok none) w = refl
report_keeps call info (ok (some event)) w = refl
report_keeps call info (err e) w = refl

record_report_err :
    (call : MeterCall) (info : QuotaInfo) (row : UsageEvent) (w : World) (e : Exn)
    → ((record_usage row >>= report call info) w).0 ≡ err e
    → ((record_usage row >>= report call info) w).1 ≡ w
unfolding report
record_report_err call info row w e h = elim (record_usage_or row w) [
  | inl same ↦ report_keeps call info (record_usage row w).0 (record_usage row w).1 ∙ same
  | inr stored ↦ cc (rw stored at h)
]

store_event_err :
    (env : Env) (m : Moment) (id : ℕ) (call : MeterCall) (answer : Bool × QuotaInfo) (w : World)
    (e : Exn)
    → (store_event env m id call answer w).0 ≡ err e
    → (store_event env m id call answer w).1 ≡ w
store_event_err env m id call (false, info) w e h = unfold store_event in refl
store_event_err env m id call (true, info) w e h =
    elim (calculate_cases env.pricing call.usage_type call.qty) [
      | inl priced ↦
          let run = store_event_lem env m id call info w priced in
          rw run (record_report_err call info (priced_event env m id call) w e (rw run at h))
      | inr (e', unpriced) ↦ rw (store_event_unpriced env m id call info w e' unpriced) refl
    ]

pub record_once_ok :
    (env : Env) (m : Moment) (id : ℕ) (call : MeterCall) (w : World) (answer : Bool × QuotaInfo)
    → (check_quota m call.tenant_id call.usage_type call.qty w).0 ≡ ok answer
    → record_once env m id call w ≡ store_event env m id call answer w
unfolding record_once
record_once_ok env m id call w answer p =
    rw (p, check_quota_reads m call.tenant_id call.usage_type call.qty w)

-- A refused or failed recording leaves the world as it was.
pub record_once_err :
    (env : Env) (m : Moment) (id : ℕ) (call : MeterCall) (w : World) (e : Exn)
    → (record_once env m id call w).0 ≡ err e
    → (record_once env m id call w).1 ≡ w
record_once_err env m id call w e h =
    elim (Result-cases (check_quota m call.tenant_id call.usage_type call.qty w).0) [
      | inl (answer, p) ↦ rw (record_once_ok env m id call w answer p) (
          store_event_err env m id call answer w e
            (rw (record_once_ok env m id call w answer p) at h))
      | inr (e', p) ↦
          unfold record_once in rw p (check_quota_reads m call.tenant_id call.usage_type call.qty w)
    ]

-- The retried method ends as one run of its body does.
pub record_event-record_once :
    (env : Env) (m : Moment) (id : ℕ) (call : MeterCall) (w : World)
    → record_event env m id call w ≡ record_once env m id call w
unfolding record_event
record_event-record_once env m id call w =
    let (same_result, same_state) =
      with_db_retry_clean record_policy (λ e. is_transient_error (env.describe e))
        (type_error "exceptions must derive from BaseException") (record_once env m id call) w
        (omega arith) (record_once_err env m id call w) in
    λ i. (same_result i, same_state i)

-- The recording of a call that is allowed, new and priced.
record_event_priced :
    (env : Env) (m : Moment) (id : ℕ) (call : MeterCall) (w : World) {s : Subscription} {p : Plan}
    → Entitled call.tenant_id w s p
    → IsPriced env.pricing call.usage_type call.qty
    → exists (λ (t : Tenant). t.id == call.tenant_id) w.db.tenants ≡ true
    → exists (clashes (priced_event env m id call)) w.db.usage_events ≡ false
    → get_monthly_usage call.tenant_id call.usage_type (start_of_month m.now) w + call.qty
      ≤ limit_of call.usage_type p
    → let used =
        get_monthly_usage call.tenant_id call.usage_type (start_of_month m.now) w + call.qty in
      let event = priced_event env m id call in
      record_event env m id call w ≡ (
        ok (
          event,
          record {
            usage_type = type_value call.usage_type;
            used = used;
            limit = limit_of call.usage_type p;
            remaining = limit_of call.usage_type p - used;
          },
        ),
        set_db (record w.db { usage_events = w.db.usage_events ++ event ∷ [] }) w,
      )
unfolding report
record_event_priced env m id call w {s} {p} entitled priced known new fits =
    record_event-record_once env m id call w
    ∙ record_once_ok env m id call w _
        (ap (λ x. x.0) (check_quota_lem m call.tenant_id call.usage_type call.qty w entitled))
    ∙ rw (
      le→leb _ _ fits,
      store_event_lem env m id call _ w (IsPriced-calculate env call priced),
      record_usage_new (priced_event env m id call) w new,
      known,
      report,
    )

-- For an entitled, known tenant, a new key, and a price and quantity whose product has at most 28
-- digits: a quantity that fits into the month's limit is recorded, as exactly one new event with the
-- call's own tenant, key, type and quantity and with its price rounded half up to microunits, and the
-- reply tells the new usage and what remains.
pub record_event_new :
    (env : Env) (m : Moment) (id : ℕ) (call : MeterCall) (w : World) {s : Subscription} {p : Plan}
    → Entitled call.tenant_id w s p
    → IsPriced env.pricing call.usage_type call.qty
    → exists (λ (t : Tenant). t.id == call.tenant_id) w.db.tenants ≡ true
    → exists (clashes (priced_event env m id call)) w.db.usage_events ≡ false
    → get_monthly_usage call.tenant_id call.usage_type (start_of_month m.now) w + call.qty
      ≤ limit_of call.usage_type p
    → let used =
        get_monthly_usage call.tenant_id call.usage_type (start_of_month m.now) w + call.qty in
      let event : UsageEvent = record (priced_event env m id call) {
        cost_microunits = rounded_cost env.pricing call.usage_type call.qty;
      } in
      record_event env m id call w ≡ (
        ok (
          event,
          record {
            usage_type = type_value call.usage_type;
            used = used;
            limit = limit_of call.usage_type p;
            remaining = limit_of call.usage_type p - used;
          },
        ),
        set_db (record w.db { usage_events = w.db.usage_events ++ event ∷ [] }) w,
      )
record_event_new env m id call w {s} {p} entitled priced known new fits =
    record_event_priced env m id call w entitled priced known new fits
    ∙ rw (cost_of-rounded_cost env.pricing call.usage_type call.qty priced) refl

-- Beyond the limit the recording is refused with the numbers of the month, and nothing changes.
pub record_event_exceeded :
    (env : Env) (m : Moment) (id : ℕ) (call : MeterCall) (w : World) {s : Subscription} {p : Plan}
    → Entitled call.tenant_id w s p
    → limit_of call.usage_type p
      < get_monthly_usage call.tenant_id call.usage_type (start_of_month m.now) w + call.qty
    → record_event env m id call w ≡ (
      err (
          quota_exceeded call.usage_type
            (get_monthly_usage call.tenant_id call.usage_type (start_of_month m.now) w)
            (limit_of call.usage_type p)
            call.qty),
      w,
    )
record_event_exceeded env m id call w {s} {p} entitled over =
    record_event-record_once env m id call w
    ∙ record_once_ok env m id call w _
        (ap (λ x. x.0) (check_quota_lem m call.tenant_id call.usage_type call.qty w entitled))
    ∙ unfold store_event in rw (lt→leb _ _ over)
