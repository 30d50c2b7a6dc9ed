-- ===== src/Health.antt =====
-- src/api/health.py. `select_one` is what comes of `SELECT 1`, and the customer is Stripe's answer to
-- the request for "cus_test".
use flyrank_capstone_meterin.Prelude.{String, ◌&&◌, some, str_eq, if◌then◌else◌}
use flyrank_capstone_meterin.Result.{Result, ok, err}
use flyrank_capstone_meterin.Exec.{lift}
use flyrank_capstone_meterin.Errors.{Exn, http, text, checks}
use flyrank_capstone_meterin.World.{App, get_db}
use flyrank_capstone_meterin.Stripe.{StripeEnv}

pub record HealthStatus : Type 0 where
  pub status : String
  pub database : String

pub record Readiness : Type 0 where
  pub status : String
  pub database : String
  pub stripe : String
  pub rate_limiter : String

unfoldable pub or_unavailable : Result Exn (Unit {0}) → Result Exn HealthStatus
or_unavailable (ok v) = ok (record { status = "healthy"; database = "connected" })
or_unavailable (err e) = err (http 503 (text "Database unavailable"))

unfoldable pub health_check : Result Exn (Unit {0}) → App HealthStatus
unfolding or_unavailable
health_check select_one = get_db (lift (or_unavailable select_one))

unfoldable pub check_of : {A : Type 0} → Result Exn A → String
check_of (ok a) = "ready"
check_of (err e) = "not_ready"

unfoldable pub all_ready : String → String → String → Result Exn Readiness
all_ready database stripe rate_limiter =
    if str_eq database "ready" && (str_eq stripe "ready" && str_eq rate_limiter "ready")
    then ok (record {
      status = "ready";
      database = database;
      stripe = stripe;
      rate_limiter = rate_limiter;
    })
    else err (http 503 (checks database stripe rate_limiter))

unfoldable pub readiness_check : StripeEnv → Result Exn (Unit {0}) → App Readiness
unfolding check_of all_ready
readiness_check env select_one =
    get_db (
      lift
        (all_ready (check_of select_one) (check_of (env.get_customer (some "cus_test"))) "ready"))
