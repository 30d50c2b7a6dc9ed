-- ===== src/Cache.antt =====
-- src/config/cache.py: the Redis connection and its cooldown, and the cache operations. Redis itself
-- is a list of keys with a value and the second at which it expires; `reachable` says whether it
-- answers. Every failure is swallowed, so that a cache operation never raises.
pub mod Laws
pub mod Pattern
mod Tests
use flyrank_capstone_meterin.Prelude.{
  ℕ, ◌+◌, ◌-◌, String, Bool, true, false, Option, none, some, List, [], ◌∷◌, ltb, str_eq,
  if◌then◌else◌,
}
use flyrank_capstone_meterin.Payloads.{Cached}

pub record Entry : Type 0 where
  pub key : String
  pub value : Cached
  pub expires_at : ℕ

-- A sorted set of the rate limiter. The text of a member is that of its score, so the scores, in
-- ascending order, are all of it.
pub record Zset : Type 0 where
  pub key : String
  pub scores : List ℕ
  pub expires_at : ℕ

pub record Redis : Type 0 where
  pub pool : Bool
  pub last_connection_attempt : ℕ
  pub reachable : Bool
  pub entries : List Entry
  pub zsets : List Zset

-- `time.monotonic()` and `time.time()` in microseconds, and Redis's own clock in seconds.
pub record Ticks : Type 0 where
  pub monotonic : ℕ
  pub time : ℕ
  pub seconds : ℕ

abbrev pub connection_cooldown : ℕ
connection_cooldown = 5000000

unfoldable pub get_redis : Ticks → Redis → Bool × Redis
get_redis t r =
    if r.pool
    then (true, r)
    else if ltb (t.monotonic - r.last_connection_attempt) connection_cooldown
    then (false, r)
    else if r.reachable
    then (true, record r { pool = true; last_connection_attempt = t.monotonic })
    else (false, record r { last_connection_attempt = t.monotonic })

unfoldable pub close_redis : Redis → Redis
close_redis r = record r { pool = false }

-- Redis GET: an expired key is not there.
unfoldable pub find_live : ℕ → String → List Entry → Option Cached
find_live seconds key [] = none
find_live seconds key (e ∷ rest) =
    if str_eq e.key key
    then (if ltb seconds e.expires_at then some e.value else none)
    else find_live seconds key rest

-- Redis SET with EX.
unfoldable pub put_entry : Entry → List Entry → List Entry
put_entry new [] = new ∷ []
put_entry new (e ∷ rest) = if str_eq e.key new.key then new ∷ rest else e ∷ put_entry new rest

-- Redis DEL.
unfoldable pub drop_key : String → List Entry → List Entry
drop_key key [] = []
drop_key key (e ∷ rest) =
    let others = drop_key key rest in if str_eq e.key key then others else e ∷ others

unfoldable pub cache_get : Ticks → String → Redis → Option Cached × Redis
unfolding get_redis
cache_get t key r =
    let (found, r') = get_redis t r in
    if found
    then ((if r'.reachable then find_live t.seconds key r'.entries else none), r')
    else (none, r')

unfoldable pub cache_set : Ticks → String → Cached → ℕ → Redis → Redis
unfolding get_redis
cache_set t key value ttl_seconds r =
    let (found, r') = get_redis t r in
    if found
    then (if r'.reachable
        then record r' {
          entries =
              put_entry (record { key = key; value = value; expires_at = t.seconds + ttl_seconds })
                r'.entries;
        }
        else r')
    else r'

unfoldable pub cache_delete : Ticks → String → Redis → Redis
unfolding get_redis
cache_delete t key r =
    let (found, r') = get_redis t r in
    if found
    then (if r'.reachable then record r' { entries = drop_key key r'.entries } else r')
    else r'

abbrev pub idempotency_ttl_seconds : ℕ
idempotency_ttl_seconds = 86400
