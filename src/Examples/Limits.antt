-- ===== src/Examples/Limits.antt =====
-- The rate limiter with one request a minute, and a body of POST /meter.
use flyrank_capstone_meterin.Prelude.{◌*◌, ◌^◌, ◌≤◌, ◌<◌, ◌≡◌, ◌↔◌, refl, List, [], ◌∷◌, arith}
use flyrank_capstone_meterin.Result.{ok}
use flyrank_capstone_meterin.Money.{pos, calculate_cost_microunits}
use flyrank_capstone_meterin.Models.{api_call, type_value}
use flyrank_capstone_meterin.Cost.{default_pricing, calculate}
use flyrank_capstone_meterin.Retry.{codes, lower}
use flyrank_capstone_meterin.Cache.{Ticks}
use flyrank_capstone_meterin.RateLimit.{RateLimiter, second, zset_scores}
use flyrank_capstone_meterin.RateLimit.Laws.{InOrder, run, reference_run, run_refines}
use flyrank_capstone_meterin.RateLimit.Bound.{count_within, passed, run_bounded}
use flyrank_capstone_meterin.MeterRequest.{MeterBody, meter_request}
use flyrank_capstone_meterin.MeterRequest.Laws.{meter_request_accepts, accepted_cost_fits}
use flyrank_capstone_meterin.Examples.{noon, soon, connected}

abbrev one_a_minute : RateLimiter
one_a_minute = record { max_requests = 1; window_seconds = 60 }

abbrev calls : List Ticks
calls = noon.ticks ∷ soon.ticks ∷ []

ordered : InOrder 0 calls
ordered = (omega arith, refl, (omega arith, refl, tt))

run_refines_example : run one_a_minute "k" calls connected ≡ reference_run one_a_minute [] calls
unfolding zset_scores
run_refines_example = run_refines one_a_minute "k" connected calls (refl, refl) (λ n. refl) ordered

run_bounded_example :
    count_within (60 * second) 1020000000 (passed (run one_a_minute "k" calls connected)) ≤ 1
unfolding zset_scores
run_bounded_example =
    run_bounded one_a_minute "k" connected calls 1020000000 (refl, refl) (λ n. refl) ordered

abbrev upper_case : MeterBody
upper_case = record { usage_type = "API_Call"; qty = pos 5 }

accepted : meter_request upper_case ≡ ok (api_call, 5)
unfolding meter_request
accepted = refl

priced : calculate default_pricing api_call 5 ≡ ok 5000
unfolding calculate calculate_cost_microunits
priced = refl

meter_request_accepts_example :
    (meter_request upper_case ≡ ok (api_call, 5))
    ↔ (lower (codes "API_Call") ≡ codes (type_value api_call))
      × (pos 5 ≡ pos 5)
      × (1 ≤ 5)
      × (5 ≤ 10000000)
meter_request_accepts_example = meter_request_accepts upper_case api_call 5

accepted_cost_fits_example : 5000 < 2 ^ 63
accepted_cost_fits_example =
    accepted_cost_fits default_pricing upper_case api_call 5 5000 accepted priced (omega arith)
