-- ===== src/RateLimit.antt =====
-- src/api/middleware/rate_limit.py: the sliding window of RedisRateLimiter. Times are in
-- microseconds; `window_seconds` counts seconds.
pub mod Scores
pub mod Laws
pub mod Bound
use flyrank_capstone_meterin.Prelude.{
  ℕ, ◌+◌, ◌-◌, ◌*◌, ◌/◌, String, Bool, true, false, List, [], ◌∷◌, ltb, leb, ◌==◌, str_eq,
  if◌then◌else◌, length, select, max,
}
use flyrank_capstone_meterin.Cache.{Zset, Redis, Ticks, get_redis}

pub record RateLimiter : Type 0 where
  pub max_requests : ℕ
  pub window_seconds : ℕ

-- Settings.RATE_LIMIT_REQUESTS and RATE_LIMIT_WINDOW_SECONDS.
abbrev pub default_limiter : RateLimiter
default_limiter = record { max_requests = 100000; window_seconds = 60 }

abbrev pub second : ℕ
second = 1000000

-- The scores under a key: none where it is missing or has expired.
unfoldable pub zset_scores : ℕ → String → List Zset → List ℕ
zset_scores seconds key [] = []
zset_scores seconds key (z ∷ rest) =
    let others = zset_scores seconds key rest in
    if str_eq z.key key then (if ltb seconds z.expires_at then z.scores else []) else others

unfoldable pub put_zset : Zset → List Zset → List Zset
put_zset new [] = new ∷ []
put_zset new (z ∷ rest) = if str_eq z.key new.key then new ∷ rest else z ∷ put_zset new rest

-- ZREMRANGEBYSCORE from 0 to `now - window` keeps what is later than that.
abbrev pub is_recent : ℕ → ℕ → ℕ → Bool
is_recent window now score = ltb now (score + window)

-- ZADD: a member that is there stays once.
unfoldable pub zadd : ℕ → List ℕ → List ℕ
zadd score [] = score ∷ []
zadd score (x ∷ rest) =
    let others = zadd score rest in
    if score == x then x ∷ rest else if ltb score x then score ∷ x ∷ rest else x ∷ others

-- ZRANGE 0 0, and the seconds to wait.
unfoldable pub retry_after : RateLimiter → ℕ → List ℕ → ℕ
retry_after l now [] = l.window_seconds
retry_after l now (oldest ∷ rest) = max ((oldest + l.window_seconds * second - now) / second + 1) 1

-- `is_allowed` once a connection is there and Redis answers.
unfoldable pub decide : RateLimiter → Ticks → String → Redis → (Bool × ℕ) × Redis
unfolding retry_after
decide l t key r =
    let kept =
      select (is_recent (l.window_seconds * second) t.time) (zset_scores t.seconds key r.zsets) in
    let added = zadd t.time kept in
    let zset : Zset = record {
      key = key;
      scores = added;
      expires_at = t.seconds + (l.window_seconds + 1);
    } in
    let r' = record r { zsets = put_zset zset r.zsets } in
    if leb l.max_requests (length kept)
    then ((false, retry_after l t.time added), r')
    else ((true, 0), r')

-- `is_allowed`: without Redis every request is allowed.
unfoldable pub is_allowed : RateLimiter → Ticks → String → Redis → (Bool × ℕ) × Redis
is_allowed l t key r =
    let (found, r') = get_redis t r in
    if found then (if r'.reachable then decide l t key r' else ((true, 0), r')) else ((true, 0), r')
