-- ===== src/Examples/Requests.antt =====
-- Requests to POST /meter in the small installation.
use flyrank_capstone_meterin.Prelude.{
  ◌+◌, ◌<◌, ◌≡◌, refl, true, none, arith, exists, select, sum_where,
}
use flyrank_capstone_meterin.Result.{ok, err}
use flyrank_capstone_meterin.Clock.{is_at_most, start_of_month}
use flyrank_capstone_meterin.Errors.{http, payment}
use flyrank_capstone_meterin.Models.{api_call, same_tier, same_type, type_value}
use flyrank_capstone_meterin.Payloads.{MeterResponse}
use flyrank_capstone_meterin.Cache.{cache_get, get_redis, find_live}
use flyrank_capstone_meterin.World.{cached_set, get_db, rollback}
use flyrank_capstone_meterin.Usage.{get_monthly_usage, has_key, in_month}
use flyrank_capstone_meterin.Subscriptions.{is_metered}
use flyrank_capstone_meterin.Quota.{limit_of}
use flyrank_capstone_meterin.Quota.Laws.{Entitled}
use flyrank_capstone_meterin.Meter.Laws.{record_event_new}
use flyrank_capstone_meterin.MeterApi.{
  post_meter, idem_key, record_and_store, try_record, make_response,
}
use flyrank_capstone_meterin.MeterApi.Laws.{handle_meter_miss}
use flyrank_capstone_meterin.MeterApi.Replay.{post_meter_replay, post_meter_failed}
use flyrank_capstone_meterin.MeterApi.Status.{post_meter_402}
use flyrank_capstone_meterin.Examples.{
  noon, later, june_start, free_plan, first_subscription, installation, default_env, one_text,
  call_of,
}

entitled : Entitled 1 installation first_subscription free_plan
unfolding select is_metered same_tier
entitled = record { subscription = refl; metered = refl; plan = refl }

abbrev answer : MeterResponse
answer = record {
  recorded = true;
  usage_event_id = 32;
  usage_type = api_call;
  quantity = 5;
  cost_microunits = 5000;
  remaining_quota = record { api_calls = 992; ai_tokens = 0 };
}

miss : (cache_get noon.ticks (idem_key one_text (call_of 1 "k" 5)) installation.redis).0 ≡ none
unfolding cache_get get_redis find_live
miss = refl

recorded : (post_meter default_env one_text noon 32 (call_of 1 "k" 5) installation).0 ≡ ok answer
unfolding post_meter get_db rollback exists has_key same_type limit_of get_monthly_usage sum_where
    in_month is_at_most start_of_month cache_get get_redis find_live cached_set make_response
    type_value
recorded =
    let run =
      record_event_new default_env noon 32 (call_of 1 "k" 5) installation entitled (omega arith)
        refl refl (omega arith) in
    rw (handle_meter_miss default_env one_text noon 32 (call_of 1 "k" 5) installation miss)
      (unfold record_and_store try_record in rw run refl)

post_meter_replay_example :
    let (_, w') = post_meter default_env one_text noon 32 (call_of 1 "k" 5) installation in
    let (again, w'') = post_meter default_env one_text later 33 (call_of 1 "k" 90) w' in
    (again ≡ ok answer) × (w''.db ≡ w'.committed) × (w''.committed ≡ w'.committed)
post_meter_replay_example =
    post_meter_replay default_env one_text noon later 32 33 (call_of 1 "k" 5) (call_of 1 "k" 90)
      installation answer (refl, refl) miss recorded (refl, refl, refl) (omega arith)

miss_of_other :
    (cache_get noon.ticks (idem_key one_text (call_of 2 "k" 5)) installation.redis).0 ≡ none
unfolding cache_get get_redis find_live
miss_of_other = refl

miss_of_large :
    (cache_get noon.ticks (idem_key one_text (call_of 1 "k" 998)) installation.redis).0 ≡ none
unfolding cache_get get_redis find_live
miss_of_large = refl

over : 1000 < get_monthly_usage 1 api_call june_start installation + 998
unfolding get_monthly_usage sum_where in_month is_at_most same_type
over = omega arith

unpaid :
    (post_meter default_env one_text noon 32 (call_of 2 "k" 5) installation).0
    ≡ err (http 402 (payment "Quota exceeded"))
unfolding exists
unpaid =
    post_meter_402 default_env one_text noon 32 (call_of 2 "k" 5) installation miss_of_other refl

post_meter_failed_example :
    let w' = (post_meter default_env one_text noon 32 (call_of 2 "k" 5) installation).1 in
    (w'.db ≡ installation.committed) × (w'.committed ≡ installation.committed)
post_meter_failed_example =
    post_meter_failed default_env one_text noon 32 (call_of 2 "k" 5) installation
      (http 402 (payment "Quota exceeded")) unpaid
