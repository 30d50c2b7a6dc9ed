-- ===== src/World.antt =====
-- The state behind a request: the database as the request's session sees it, the database as last
-- committed, and Redis. The session of src/api/deps.py, and the actions that the program is made of.
pub mod Session
pub mod Scope
pub mod Reads
pub mod Spares
pub mod Orders
use flyrank_capstone_meterin.Prelude.{ℕ, String, Option, none, some, List, [], ◌∷◌}
use flyrank_capstone_meterin.Result.{Result, ok, err}
use flyrank_capstone_meterin.Exec.{Exec}
use flyrank_capstone_meterin.Errors.{Exn, multiple_results}
use flyrank_capstone_meterin.Clock.{DateTime}
use flyrank_capstone_meterin.Models.{Tenant, Plan, Subscription, UsageEvent, ProcessedStripeEvent}
use flyrank_capstone_meterin.Payloads.{Cached}
use flyrank_capstone_meterin.Cache.{Redis, Ticks, cache_get, cache_set, cache_delete}

-- The tables, each in the order of insertion.
pub record Db : Type 0 where
  pub tenants : List Tenant
  pub plans : List Plan
  pub subscriptions : List Subscription
  pub usage_events : List UsageEvent
  pub stripe_events : List ProcessedStripeEvent

pub record World : Type 0 where
  pub db : Db
  pub committed : Db
  pub redis : Redis

abbrev pub App : Type 0 → Type 0
App A = Exec World Exn A

-- The moment of a request: the application's clock, the database's, and those that the cache reads.
pub record Moment : Type 0 where
  pub now : DateTime
  pub db_now : DateTime
  pub ticks : Ticks

abbrev pub set_db : Db → World → World
set_db d w = record w { db = d }

unfoldable pub commit : World → World
commit w = record w { committed = w.db }

unfoldable pub rollback : World → World
rollback w = record w { db = w.committed }

-- `get_db`: a session begins with what is committed; after the request it commits, and rolls back
-- where an exception leaves the request.
close_session : {A : Type 0} → Result Exn A → World → Result Exn A × World
unfolding commit rollback
close_session (ok a) w = (ok a, commit w)
close_session (err e) w = (err e, rollback w)

unfoldable pub get_db : {A : Type 0} → App A → App A
unfolding close_session rollback
get_db body w = let (r, w') = body (rollback w) in close_session r w'

-- `result.scalar_one_or_none()`
unfoldable pub scalar_one_or_none : {A : Type 0} → List A → Result Exn (Option A)
scalar_one_or_none [] = ok none
scalar_one_or_none (x ∷ []) = ok (some x)
scalar_one_or_none (x ∷ y ∷ rest) = err multiple_results

-- Cache operations of src/config/cache.py as actions on the world.
unfoldable pub cached_get : Moment → String → App (Option Cached)
cached_get m key w =
    let (found, r) = cache_get m.ticks key w.redis in (ok found, record w { redis = r })

unfoldable pub cached_set : Moment → String → Cached → ℕ → App (Unit {0})
cached_set m key value ttl w = (ok tt, record w { redis = cache_set m.ticks key value ttl w.redis })

unfoldable pub cached_delete : Moment → String → App (Unit {0})
cached_delete m key w = (ok tt, record w { redis = cache_delete m.ticks key w.redis })
