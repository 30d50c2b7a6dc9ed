-- ===== src/Clock/Tests.antt =====
-- Runs of the calendar at single dates.
use flyrank_capstone_meterin.Prelude.{◌≡◌, refl}
use flyrank_capstone_meterin.Clock.{DateTime, add_days, from_timestamp}

abbrev new_year : DateTime
new_year = record { year = 2024; month = 1; day = 31; micros = 5 }

thirty_days_later : add_days 30 new_year ≡ record { year = 2024; month = 3; day = 1; micros = 5 }
unfolding add_days
thirty_days_later = refl

billion_days : from_timestamp 86400000 ≡ record { year = 1972; month = 9; day = 27; micros = 0 }
unfolding from_timestamp
billion_days = refl
