-- ===== src/Cache/Laws.antt =====
-- What a cache read returns after writes (src/config/cache.py).
use flyrank_capstone_meterin.Prelude.{
  ℕ, ◌+◌, ◌≤◌, ◌<◌, String, ◌≡◌, refl, true, false, none, some, List, [], ◌∷◌, arith, ltb, str_eq,
  eq_iff, if◌then◌else◌,
}
use flyrank_capstone_meterin.Payloads.{Cached}
use flyrank_capstone_meterin.Cache.{
  Entry, Redis, Ticks, connection_cooldown, get_redis, find_live, put_entry, drop_key, cache_get,
  cache_set, cache_delete,
}

pub find_live-put_entry :
    (now : ℕ) (k : String) (new : Entry) (es : List Entry)
    → find_live now k (put_entry new es) ≡ (
        if str_eq new.key k
        then (if ltb now new.expires_at then some new.value else none)
        else find_live now k es)
unfolding find_live put_entry
find_live-put_entry now k new [] = refl
find_live-put_entry now k new (e ∷ es) = ground (
  arith,
  find_live-put_entry now k new es,
  eq_iff e.key new.key,
  eq_iff e.key k,
  eq_iff new.key k,
)

pub find_live-drop_key :
    (now : ℕ) (k j : String) (es : List Entry)
    → find_live now k (drop_key j es) ≡ (if str_eq j k then none else find_live now k es)
unfolding find_live drop_key
find_live-drop_key now k j [] = ground arith
find_live-drop_key now k j (e ∷ es) =
    ground (arith, find_live-drop_key now k j es, eq_iff e.key j, eq_iff e.key k, eq_iff j k)

-- Redis answers now and the connection is there.
abbrev pub IsConnected : Redis → Type 0
IsConnected r = (r.pool ≡ true) × (r.reachable ≡ true)

-- With a working connection, a read at a later time returns what was last written to that key while
-- its time to live has not run out, nothing from then on, and writes of one key do not touch others.
pub cache_get-cache_set :
    (t u : Ticks) (j k : String) (v : Cached) (ttl : ℕ) (r : Redis)
    → IsConnected r
    → (cache_get u k (cache_set t j v ttl r)).0 ≡ (
        if str_eq j k
        then (if ltb u.seconds (t.seconds + ttl) then some v else none)
        else (cache_get u k r).0)
unfolding cache_get cache_set
cache_get-cache_set t u j k v ttl r c = ground (
  arith,
  find_live-put_entry u.seconds k (record { key = j; value = v; expires_at = t.seconds + ttl })
      r.entries,
)

-- With a working connection, a deleted key is not found, and the others are as before.
pub cache_get-cache_delete :
    (t u : Ticks) (j k : String) (r : Redis)
    → IsConnected r
    → (cache_get u k (cache_delete t j r)).0 ≡ (if str_eq j k then none else (cache_get u k r).0)
unfolding cache_get cache_delete
cache_get-cache_delete t u j k r c = ground (arith, find_live-drop_key u.seconds k j r.entries)

-- While Redis does not answer, every read is a miss, and writes and deletes store nothing.
pub cache_unreachable :
    (t : Ticks) (k : String) (v : Cached) (ttl : ℕ) (r : Redis)
    → r.reachable ≡ false
    → ((cache_get t k r).0 ≡ none)
      × ((cache_set t k v ttl r).entries ≡ r.entries)
      × ((cache_delete t k r).entries ≡ r.entries)
unfolding cache_get cache_set cache_delete
cache_unreachable t k v ttl r h = ground arith

-- After a failed attempt to connect, no further attempt is made within the cooldown: the call
-- changes nothing and reports no connection.
pub get_redis_cooldown :
    (t u : Ticks) (r : Redis)
    → r.pool ≡ false
    → r.reachable ≡ false
    → r.last_connection_attempt + connection_cooldown ≤ t.monotonic
    → t.monotonic ≤ u.monotonic
    → u.monotonic < t.monotonic + connection_cooldown
    → get_redis u (get_redis t r).1 ≡ (false, (get_redis t r).1)
unfolding get_redis
get_redis_cooldown t u r p q h k l = ground arith

-- A read over a working connection changes nothing.
pub redis-cache_get : (t : Ticks) (k : String) (r : Redis) → IsConnected r → (cache_get t k r).1 ≡ r
unfolding cache_get
redis-cache_get t k r c = ground arith
