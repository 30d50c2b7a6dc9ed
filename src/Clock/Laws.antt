-- ===== src/Clock/Laws.antt =====
-- The month that a datetime lies in, and the days that follow it.
use flyrank_capstone_meterin.Prelude.{ℕ, zero, suc, ◌+◌, ◌≤◌, ◌<◌, ◌≡◌, ◌⊎◌, ◌↔◌, true, arith}
use flyrank_capstone_meterin.Clock.{
  DateTime, IsDate, is_before, is_at_most, start_of_month, period_end, next_day, add_days,
  days_in_month,
}

-- Every datetime lies in its own period: from the start of its month, and before the end.
pub month_contains :
    (d : DateTime)
    → IsDate d
    → (is_at_most (start_of_month d) d ≡ true)
      × (is_before d (period_end (start_of_month d)) ≡ true)
unfolding is_at_most start_of_month period_end
month_contains d h = ground arith

-- A date lies at or after the start of the month of another exactly when it is of the same month
-- or of a later one.
pub since_start_iff :
    (now t : DateTime)
    → IsDate t
    → (is_at_most (start_of_month now) t ≡ true)
      ↔ ((now.year < t.year) ⊎ ((now.year ≡ t.year) × (now.month ≤ t.month)))
unfolding is_at_most start_of_month
since_start_iff now t h = (λ e. ground arith, λ e. ground arith)

pub is_at_most_trans :
    (a b c : DateTime) → is_at_most a b ≡ true → is_at_most b c ≡ true → is_at_most a c ≡ true
unfolding is_at_most
is_at_most_trans a b c h k = ground arith

days_in_month_bounds : (y m : ℕ) → (28 ≤ days_in_month y m) × (days_in_month y m ≤ 31)
unfolding days_in_month
days_in_month_bounds y m = ground arith

pub next_day-IsDate : (d : DateTime) → IsDate d → IsDate (next_day d)
unfolding next_day
next_day-IsDate d h = ground (
  arith,
  days_in_month_bounds d.year d.month,
  days_in_month_bounds d.year (d.month + 1),
  days_in_month_bounds (d.year + 1) 1,
)

next_day-is_before : (d : DateTime) → is_before d (next_day d) ≡ true
unfolding next_day is_before
next_day-is_before d = ground arith

is_before_trans :
    (a b c : DateTime) → is_before a b ≡ true → is_before b c ≡ true → is_before a c ≡ true
unfolding is_before
is_before_trans a b c h k = ground arith

pub add_days-IsDate : (n : ℕ) (d : DateTime) → IsDate d → IsDate (add_days n d)
unfolding add_days
add_days-IsDate zero d h = h
add_days-IsDate (suc n) d h = add_days-IsDate n (next_day d) (next_day-IsDate d h)

-- Adding one day or more to a date gives a date that lies after it.
pub add_days-is_before : (n : ℕ) (d : DateTime) → is_before d (add_days (suc n) d) ≡ true
unfolding add_days
add_days-is_before zero d = next_day-is_before d
add_days-is_before (suc n) d =
    is_before_trans d (next_day d) (add_days (suc n) (next_day d)) (next_day-is_before d)
      (add_days-is_before n (next_day d))
