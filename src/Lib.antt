-- ===== src/Lib.antt =====
-- Metering and billing of API usage: a FastAPI service that records usage events of tenants
-- against the monthly quotas of their plans, and follows the state of their subscriptions at
-- Stripe.
--
-- The parts and how they interact. A request runs in a session of the database
-- (src/api/deps.py). POST /meter (src/api/v1/meter.py) answers a known idempotency key from
-- Redis (src/config/cache.py); else the meter service (src/services/meter_service.py) asks the
-- quota service (src/services/quota_service.py), prices the event (src/services/cost_service.py,
-- src/utils/money.py) and inserts it (src/repositories/usage_repo.py), under a retry
-- (src/config/database.py); the answer is stored in Redis. The tenant of a request comes from
-- its headers (src/api/middleware/auth.py), and GET /usage reports the month
-- (src/api/v1/usage.py). POST /webhooks/stripe (src/api/v1/webhook.py) verifies an event, drops
-- it where it is marked as processed, dispatches it to a handler that writes tenants and
-- subscriptions (src/repositories/), and marks it. The account endpoints (src/api/v1/auth.py,
-- billing.py, checkout.py, subscription.py) open sessions at Stripe for a tenant. Around all
-- endpoints src/main.py puts the middleware of src/api/middleware/: the request's id, the check
-- of the Idempotency-Key, the rate limiter in Redis, and the handlers that turn exceptions into
-- responses.
--
-- The files. Prelude: shared names, tests and table operations. Result and Exec: fallible
-- results, and methods over a state that may raise. Money, Cost: src/utils/money.py,
-- src/config/pricing.py, src/services/cost_service.py. Clock: the datetimes. Models, Errors,
-- Payloads: src/models/, src/schemas/. Cache: src/config/cache.py. World: the state of a
-- request, that is the tables as the session sees them, the tables as last committed, and Redis;
-- `get_db` is the session of src/api/deps.py. Retry: `is_transient_error` and `with_db_retry`.
-- Usage, Subscriptions, Tenants: src/repositories/. Quota: `check_quota`, `get_all_quotas`.
-- Meter: `MeterService.record` is `record_event` here. MeterApi: the handler `record_usage` is
-- `handle_meter`, and with its session `post_meter`. UsageApi, Auth: src/api/v1/usage.py and
-- src/api/middleware/auth.py. Stripe: what is read of Stripe's objects. Handlers, Webhook:
-- src/api/v1/webhook.py, with the source's names less the leading underscore. RateLimit:
-- `RedisRateLimiter`. Account: the account endpoints. MeterRequest: the body of
-- src/schemas/meter.py, and `record_usage` with its tenant and session. Redact: `_redact`.
-- ApiKeys: src/services/auth_service.py. Health: src/api/health.py. Http: Exceptions, Middleware
-- and Router hold error_handling.py, the middleware with `create_app`, and the endpoints by
-- method and path; `serve` is the application on one request, with API_V1_PREFIX at its default.
-- Invariant: the unique columns and foreign keys of the tables, one file for each layer from the
-- repositories (Repos) over the handlers (Events, Webhooks, Endpoints, Accounts) to the
-- application (Requests) and to sequences of requests (Reach). StripeService:
-- src/services/stripe_service.py over the stripe package. Migrations: src/alembic/versions/,
-- with alembic's operations in Schema, what undoes them in Undo, and the columns that src/models
-- maps in Columns. Seed: src/seed.py. The files named Orders: the order of the rows of a table;
-- those named Scope, Reads and Spares: what an action leaves alone. Examples: the theorems at
-- single inputs.
--
-- How the code is read. UUIDs are numbers, since they are only compared; their text is a
-- parameter. Times of a request come in a `Moment`, fresh ids as arguments. A table is a list of
-- rows, in the order of insertion, and a write tests the keys, unique columns and foreign keys
-- of src/models/; the lengths of texts and the ranges of numbers in columns are not tested. What
-- Redis keeps is read back as it was written: the program stores objects of texts, numbers and
-- Booleans, for which `json.loads` undoes `json.dumps`. Quantities and prices are unbounded, and
-- `Decimal` keeps 28 digits. Waits are in tenths of a millisecond, and the times of the rate
-- limiter in microseconds. `from_timestamp` counts whole days from 1970 by recursion on their
-- number, and the retry recurs on the attempts left. Only the loop of `cache_delete_pattern` is
-- on fuel: one page more than SCAN has slots is enough. Requests of one process run one after
-- the other, except where a theorem speaks of checks before inserts.
--
-- Not modelled: the stripe package, bcrypt, Redis's SCAN, the reading of JSON and the answers of
-- FastAPI and Starlette to paths of no router, which are libraries and stand as parameters;
-- failures of the connection to the database, and with them a transaction that such a failure
-- aborts; the payload stored with a processed event; logging, the settings' loading and the
-- lifespan of the application; and src/alembic/env.py, which only configures alembic.
pub mod Prelude
pub mod Result
pub mod Exec
pub mod Clock
pub mod Models
pub mod Errors
pub mod Payloads
pub mod Cache
pub mod World
pub mod Retry
pub mod Usage
pub mod Subscriptions
pub mod Quota
pub mod Tenants
pub mod Stripe
pub mod Handlers
pub mod Webhook
pub mod Meter
pub mod MeterApi
pub mod UsageApi
pub mod Auth
pub mod Cost
pub mod Money
pub mod RateLimit
pub mod Account
pub mod Redact
pub mod MeterRequest
pub mod ApiKeys
pub mod Invariant
pub mod Health
pub mod Http
pub mod StripeService
pub mod Migrations
pub mod Seed
pub mod Examples
