-- ===== src/Retry/Tests.antt =====
-- Which messages src/config/database.py takes for transient, and the waits of its retry.
use flyrank_capstone_meterin.Prelude.{◌≡◌, refl, true, false}
use flyrank_capstone_meterin.Retry.{
  is_transient_error, is_in, starts_with, transient_errors, lower, lower_char, wait_after,
}

deadlock : is_transient_error "Deadlock detected" ≡ true
unfolding is_transient_error is_in starts_with transient_errors lower lower_char
deadlock = refl

not_transient : is_transient_error "quota" ≡ false
unfolding is_transient_error is_in starts_with transient_errors lower lower_char
not_transient = refl

-- With the Kelvin sign for its k, the message is the same in lower case.
kelvin : is_transient_error "could not obtain locK" ≡ true
unfolding is_transient_error is_in starts_with transient_errors lower lower_char
kelvin = refl

-- 50 ms and a tenth of it, in tenths of a millisecond.
first_wait : wait_after (record { max_retries = 3; base_delay = 50; max_delay = 500 }) 0 ≡ 550
unfolding wait_after
first_wait = refl
