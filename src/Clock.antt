-- ===== src/Clock.antt =====
-- Aware UTC datetimes as the program uses them: `datetime.now(timezone.utc)`, `.replace`,
-- `timedelta(days=30)`, `datetime.fromtimestamp`, and comparison. A datetime is its year, month and
-- day, and the microseconds of its day. The months of services/quota_service.py and api/v1/usage.py.
pub mod Laws
mod Tests
use flyrank_capstone_meterin.Prelude.{
  ℕ, zero, suc, ◌+◌, ◌*◌, ◌/◌, ◌%◌, ◌≤◌, ◌<◌, Bool, ◌&&◌, ◌||◌, not, ltb, leb, ◌==◌, if◌then◌else◌,
}

pub record DateTime : Type 0 where
  pub year : ℕ
  pub month : ℕ
  pub day : ℕ
  pub micros : ℕ

abbrev pub day_micros : ℕ
day_micros = 86400000000

-- `a < b` and `a <= b` on datetimes: by the year, the month, the day and the time.
unfoldable pub is_before : DateTime → DateTime → Bool
is_before a b =
    ltb a.year b.year
    || a.year == b.year
      && (ltb a.month b.month
          || a.month == b.month && (ltb a.day b.day || a.day == b.day && ltb a.micros b.micros))

unfoldable pub is_at_most : DateTime → DateTime → Bool
unfolding is_before
is_at_most a b = not (is_before b a)

-- `now.replace(day=1, hour=0, minute=0, second=0, microsecond=0)`
unfoldable pub start_of_month : DateTime → DateTime
start_of_month now = record now { day = 1; micros = 0 }

-- The "end" of the period in `get_usage`: the start of the month after the one that begins at `s`.
unfoldable pub period_end : DateTime → DateTime
period_end s =
    if ltb s.month 12
    then record s { month = s.month + 1 }
    else record s { year = s.year + 1; month = 1 }

unfoldable pub is_leap : ℕ → Bool
is_leap y = y % 4 == 0 && (not (y % 100 == 0) || y % 400 == 0)

unfoldable pub days_in_month : ℕ → ℕ → ℕ
unfolding is_leap
days_in_month y m =
    if m == 2
    then (if is_leap y then 29 else 28)
    else if m == 4 || m == 6 || m == 9 || m == 11
    then 30
    else 31

unfoldable pub next_day : DateTime → DateTime
next_day d =
    if ltb d.day (days_in_month d.year d.month)
    then record d { day = d.day + 1 }
    else if ltb d.month 12
    then record d { month = d.month + 1; day = 1 }
    else record d { year = d.year + 1; month = 1; day = 1 }

-- `d + timedelta(days=n)`
unfoldable pub add_days : ℕ → DateTime → DateTime
unfolding next_day days_in_month
add_days zero d = d
add_days (suc n) d = add_days n (next_day d)

abbrev pub epoch : DateTime
epoch = record { year = 1970; month = 1; day = 1; micros = 0 }

-- `datetime.fromtimestamp(ts, tz=timezone.utc)`, for whole seconds from 1970 on.
unfoldable pub from_timestamp : ℕ → DateTime
unfolding add_days
from_timestamp ts =
    let d = add_days (ts / 86400) epoch in record d { micros = ts % 86400 * 1000000 }

-- A datetime that Python constructs.
pub record IsDate (d : DateTime) : Type 0 where
  pub month_pos : 1 ≤ d.month
  pub month_le : d.month ≤ 12
  pub day_pos : 1 ≤ d.day
  pub day_le : d.day ≤ days_in_month d.year d.month
  pub micros_lt : d.micros < day_micros
