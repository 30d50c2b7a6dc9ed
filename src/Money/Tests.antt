-- ===== src/Money/Tests.antt =====
-- Runs of src/utils/money.py at single inputs.
use flyrank_capstone_meterin.Prelude.{◌+◌, ◌^◌, ◌≡◌, refl}
use flyrank_capstone_meterin.Result.{ok}
use flyrank_capstone_meterin.Money.{pos, negsuc, calculate_cost_microunits, microunits_to_cents}

cost_one_call : calculate_cost_microunits (pos 1) (pos 1000000) ≡ ok 1000
unfolding calculate_cost_microunits
cost_one_call = refl

cost_tie : calculate_cost_microunits (pos 10) (pos 150) ≡ ok 2
unfolding calculate_cost_microunits
cost_tie = refl

cost_negative : calculate_cost_microunits (negsuc 4) (pos 150) ≡ ok 0
unfolding calculate_cost_microunits
cost_negative = refl

-- The product has 29 digits: its last ones, 495, are rounded to 500, and then up to 1000.
cost_rounded : calculate_cost_microunits (pos (10 ^ 28 + 495)) (pos 1) ≡ ok (10 ^ 25 + 1)
unfolding calculate_cost_microunits
cost_rounded = refl

cents_floor : microunits_to_cents 19999 ≡ 1
unfolding microunits_to_cents
cents_floor = refl
