-- ===== src/Money/Laws.antt =====
-- Rounding, and the range of costs (src/utils/money.py).
use flyrank_capstone_meterin.Prelude.{ℕ, ◌+◌, ◌*◌, ◌/◌, ◌^◌, ◌≤◌, ◌<◌, ◌≡◌, arith}
use flyrank_capstone_meterin.Result.{ok}
use flyrank_capstone_meterin.Money.{
  ℤ, pos, to_ℕ, round_half_up, round_product, quantize_thousandth, calculate_cost_microunits,
}

-- For a denominator of 1000, half up is a division after adding 500.
round_half_up_thousand : (n : ℕ) → round_half_up n 1000 ≡ (n + 500) / 1000
unfolding round_half_up
round_half_up_thousand n = ground arith

-- Products of at most 28 digits are kept, and their cost has a closed form.
quantize_exact :
    (n : ℕ) → n < 10 ^ 28 → quantize_thousandth (round_product n) ≡ ok ((n + 500) / 1000)
unfolding quantize_thousandth round_product
quantize_exact n h = ground (arith, round_half_up_thousand n)

-- The cost in closed form, for quantities and prices of either sign.
pub calculate_cost_lem :
    (q p : ℤ)
    → to_ℕ q * to_ℕ p < 10 ^ 28
    → calculate_cost_microunits q p ≡ ok ((to_ℕ q * to_ℕ p + 500) / 1000)
unfolding calculate_cost_microunits
calculate_cost_lem q p h = ground (arith, quantize_exact (to_ℕ q * to_ℕ p) h)

-- For a quantity and a price that are not negative and whose product has at most 28 digits, a cost is
-- returned. It times 1000 is less than 500 below quantity times price, and at most 500 above it, so
-- that a tie is rounded up.
pub calculate_cost_nearest :
    (q p : ℕ)
    → q * p < 10 ^ 28
    → (c : ℕ) × (calculate_cost_microunits (pos q) (pos p) ≡ ok c)
      × (q * p < c * 1000 + 500)
      × (c * 1000 ≤ q * p + 500)
calculate_cost_nearest q p h =
    ((q * p + 500) / 1000, calculate_cost_lem (pos q) (pos p) h, omega arith, omega arith)
