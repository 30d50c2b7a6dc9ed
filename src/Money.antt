-- ===== src/Money.antt =====
-- src/utils/money.py: microunits and cents. Python's ints are signed, so the quantity and the
-- price are integers. `Decimal` keeps 28 digits: a longer product is rounded, and a cost of more digits
-- is refused. Amounts that are turned into cents are never negative.
pub mod Laws
mod Tests
use flyrank_capstone_meterin.Prelude.{
  ℕ, ◌+◌, ◌*◌, ◌/◌, ◌%◌, ◌^◌, Bool, ◌&&◌, ◌||◌, ltb, leb, ◌==◌, if◌then◌else◌,
}
use flyrank_capstone_meterin.Result.{Result, ok, err}
use flyrank_capstone_meterin.Errors.{Exn, external}

-- `negsuc n` is -(n + 1).
pub data ℤ : Type 0 where
  pos : ℕ → ℤ
  negsuc : ℕ → ℤ

-- The value of an integer that is not negative.
abbrev pub to_ℕ : ℤ → ℕ
to_ℕ (pos n) = n
to_ℕ (negsuc n) = 0

-- `z <= 0`
abbrev pub is_le_zero : ℤ → Bool
is_le_zero z = leb (to_ℕ z) 0

-- `n / d` to a whole number by ROUND_HALF_EVEN.
unfoldable pub round_half_even : ℕ → ℕ → ℕ
round_half_even n d =
    if ltb d (2 * (n % d)) || 2 * (n % d) == d && n / d % 2 == 1 then n / d + 1 else n / d

-- A product as `Decimal` keeps it: its first 28 digits. For products of more than 31 digits, which are
-- refused in any case, three digits are too few to drop, and the result is of more than 31 as well.
unfoldable pub round_product : ℕ → ℕ
unfolding round_half_even
round_product n =
    if ltb n (10 ^ 28)
    then n
    else if ltb n (10 ^ 29)
    then round_half_even n 10 * 10
    else if ltb n (10 ^ 30)
    then round_half_even n 100 * 100
    else round_half_even n 1000 * 1000

-- `Decimal(n) / Decimal(d)` brought to a whole number by ROUND_HALF_UP: the quotient, and one
-- more where what is left is half of `d` or more.
unfoldable pub round_half_up : ℕ → ℕ → ℕ
round_half_up n d = if leb d (2 * (n % d)) then n / d + 1 else n / d

-- The division by 1000 is exact, as it drops no digit; `.quantize` refuses a whole number of more than
-- 28 digits.
unfoldable pub quantize_thousandth : ℕ → Result Exn ℕ
unfolding round_half_up
quantize_thousandth n =
    if ltb n (10 ^ 31) then ok (round_half_up n 1000) else err (external "InvalidOperation")

unfoldable pub calculate_cost_microunits : ℤ → ℤ → Result Exn ℕ
unfolding round_product quantize_thousandth
calculate_cost_microunits quantity price_per_thousand =
    if is_le_zero quantity || is_le_zero price_per_thousand
    then ok 0
    else quantize_thousandth (round_product (to_ℕ quantity * to_ℕ price_per_thousand))

unfoldable pub microunits_to_cents : ℕ → ℕ
microunits_to_cents microunits = microunits / 10000
