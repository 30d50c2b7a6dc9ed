-- ===== src/Examples/Parts.antt =====
-- The retry, the cache, the prices and the calendar at single inputs.
use flyrank_capstone_meterin.Prelude.{
  ℕ, ◌+◌, ◌*◌, ◌≤◌, ◌<◌, ◌≡◌, refl, true, arith, length, ltb, if◌then◌else◌,
}
use flyrank_capstone_meterin.Result.{ok, err}
use flyrank_capstone_meterin.Exec.{Exec}
use flyrank_capstone_meterin.Money.{pos, calculate_cost_microunits}
use flyrank_capstone_meterin.Money.Laws.{calculate_cost_nearest}
use flyrank_capstone_meterin.Payloads.{Cached, response}
use flyrank_capstone_meterin.Meter.{record_policy}
use flyrank_capstone_meterin.Retry.{with_db_retry}
use flyrank_capstone_meterin.Retry.Laws.{with_db_retry-Recovers}

abbrev value : Cached
value = response (record {
  recorded = true;
  usage_event_id = 1;
  usage_type = "api_call";
  quantity = 1;
  cost_microunits = 1000;
  remaining_quota = record { api_calls = 9; ai_tokens = 0 };
})

-- Fails until it has been called twice.
abbrev third_time : Exec ℕ ℕ ℕ
third_time s = if ltb s 2 then (err s, s + 1) else (ok 7, s)

with_db_retry-Recovers_example :
    let o = with_db_retry record_policy (λ (e : ℕ). true) 9 third_time 0 in
    (o.result ≡ ok 7) × (o.state ≡ 2) × (length o.waits ≡ 2)
with_db_retry-Recovers_example =
    with_db_retry-Recovers record_policy (λ e. true) 9 third_time 2 0 7 2 (omega arith)
      (0, refl, refl, (1, refl, refl, refl))

-- Fails without a change.
abbrev refuses : Exec ℕ ℕ ℕ
refuses s = (err s, s)

calculate_cost_nearest_example :
    (c : ℕ) × (calculate_cost_microunits (pos 10) (pos 150) ≡ ok c)
    × (10 * 150 < c * 1000 + 500)
    × (c * 1000 ≤ 10 * 150 + 500)
calculate_cost_nearest_example = calculate_cost_nearest 10 150 (omega arith)
