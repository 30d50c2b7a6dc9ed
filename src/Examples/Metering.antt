-- ===== src/Examples/Metering.antt =====
-- POST /meter and the recording of usage, in the small installation.
use flyrank_capstone_meterin.Prelude.{
  ◌+◌, ◌≤◌, ◌≡◌, refl, true, false, none, [], ◌∷◌, arith, exists, select, sum_where,
}
use flyrank_capstone_meterin.Result.{ok, err}
use flyrank_capstone_meterin.Errors.{quota_exceeded}
use flyrank_capstone_meterin.Clock.{is_at_most, start_of_month}
use flyrank_capstone_meterin.Models.{UsageEvent, api_call, type_value, same_tier, same_type}
use flyrank_capstone_meterin.Subscriptions.{is_metered}
use flyrank_capstone_meterin.World.{set_db}
use flyrank_capstone_meterin.Usage.{record_usage, get_monthly_usage, has_key, in_month, clashes}
use flyrank_capstone_meterin.Usage.Laws.{IsKeyed, record_usage_idempotent}
use flyrank_capstone_meterin.Quota.{QuotaInfo, check_quota, limit_of}
use flyrank_capstone_meterin.Quota.Laws.{Entitled}
use flyrank_capstone_meterin.Meter.{store_event, record_event}
use flyrank_capstone_meterin.Meter.Race.{checks_before_inserts}
use flyrank_capstone_meterin.Meter.Laws.{priced_event, record_event_new, record_event_exceeded}
use flyrank_capstone_meterin.Meter.Safety.{record_event_taken, record_all, record_all_within}
use flyrank_capstone_meterin.Examples.{
  june, noon, later, june_start, free_plan, first_subscription, old_event, installation,
  default_env, call_of,
}

entitled : Entitled 1 installation first_subscription free_plan
unfolding select is_metered same_tier
entitled = record { subscription = refl; metered = refl; plan = refl }

keyed : IsKeyed installation.db.usage_events
keyed = (unfold exists in refl, tt)

unused :
    exists
      (clashes (priced_event default_env noon 32 (call_of 1 "k" 5)))
      installation.db.usage_events
    ≡ false
unfolding exists has_key
unused = refl

used_three : get_monthly_usage 1 api_call june_start installation ≡ 3
unfolding get_monthly_usage sum_where in_month is_at_most same_type start_of_month
used_three = refl

fits : get_monthly_usage 1 api_call june_start installation + 5 ≤ 1000
fits = rw used_three (omega arith)

abbrev recorded : UsageEvent
recorded = record {
  id = 32;
  tenant_id = 1;
  idempotency_key = "k";
  usage_type = api_call;
  quantity = 5;
  cost_microunits = 5000;
  request_ip = none;
  user_agent = none;
  created_at = june;
}

record_event_new_example : record_event default_env noon 32 (call_of 1 "k" 5) installation ≡ (
  ok (recorded, record { usage_type = "api_call"; used = 8; limit = 1000; remaining = 992 }),
  set_db (record installation.db { usage_events = old_event ∷ recorded ∷ [] }) installation,
)
unfolding get_monthly_usage sum_where in_month is_at_most same_type start_of_month limit_of
    type_value exists
record_event_new_example =
    record_event_new default_env noon 32 (call_of 1 "k" 5) installation entitled (omega arith) refl
      unused fits

record_event_exceeded_example :
    record_event default_env noon 32 (call_of 1 "k" 998) installation
    ≡ (err (quota_exceeded api_call 3 1000 998), installation)
unfolding get_monthly_usage sum_where in_month is_at_most same_type start_of_month limit_of
record_event_exceeded_example =
    record_event_exceeded default_env noon 32 (call_of 1 "k" 998) installation entitled
      (omega arith)

record_event_taken_example :
    (record_event default_env noon 32 (call_of 1 "old" 7) installation).1 ≡ installation
unfolding exists has_key same_type
record_event_taken_example =
    record_event_taken default_env noon 32 (call_of 1 "old" 7) installation keyed refl

record_all_within_example :
    get_monthly_usage 1 api_call june_start (
      record_all default_env
        ((noon, 32, call_of 1 "k" 5) ∷ (later, 33, call_of 1 "l" 995) ∷ [])
        installation)
    ≤ 1000
unfolding start_of_month limit_of same_type
record_all_within_example =
    record_all_within default_env
      ((noon, 32, call_of 1 "k" 5) ∷ (later, 33, call_of 1 "l" 995) ∷ []) june_start installation 1
      api_call first_subscription free_plan (refl, (refl, tt)) entitled
      (rw used_three (omega arith))

record_usage_idempotent_example :
    (let (r, w') = record_usage (priced_event default_env noon 32 (call_of 1 "k" 5)) installation in
      record_usage (priced_event default_env later 33 (call_of 1 "k" 9)) w')
    ≡ record_usage (priced_event default_env noon 32 (call_of 1 "k" 5)) installation
unfolding exists has_key same_type
record_usage_idempotent_example =
    record_usage_idempotent (priced_event default_env noon 32 (call_of 1 "k" 5))
      (priced_event default_env later 33 (call_of 1 "k" 9)) installation keyed refl refl

-- Two calls of 600 each, on a plan of 1000.
checks_before_inserts_example :
    let usage = get_monthly_usage 1 api_call june_start in
    (info info' : QuotaInfo) × ((check_quota noon 1 api_call 600 installation).0 ≡ ok (true, info))
    × ((check_quota noon 1 api_call 600 installation).0 ≡ ok (true, info'))
    × (usage
          (store_event default_env noon 33
            (call_of 1 "l" 600)
            (true, info')
            (store_event default_env noon 32 (call_of 1 "k" 600) (true, info) installation).1).1
        ≡ usage installation + 600 + 600)
unfolding start_of_month is_at_most exists has_key same_type limit_of
checks_before_inserts_example =
    checks_before_inserts default_env noon 32 33 (call_of 1 "k" 600) (call_of 1 "l" 600)
      installation entitled (omega arith) (omega arith) refl refl refl refl refl refl refl
      (rw used_three (omega arith)) (rw used_three (omega arith))
