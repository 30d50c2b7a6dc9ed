-- ===== src/Cache/Pattern.antt =====
-- `cache_delete_pattern` of src/config/cache.py. Redis's SCAN is a parameter: from a cursor, the
-- next cursor and some keys. The loop is on fuel, and `none` is a loop that has not ended.
pub mod Held
pub mod Laws
use flyrank_capstone_meterin.Prelude.{
  ℕ, zero, suc, String, Bool, true, false, ◌||◌, Option, none, some, List, [], ◌∷◌, ◌==◌, str_eq,
  if◌then◌else◌, exists,
}
use flyrank_capstone_meterin.Cache.{Entry, Zset, Redis, Ticks, get_redis, drop_key}

abbrev pub Scan : Type 0
Scan = ℕ → String → Redis → ℕ × List String

unfoldable pub drop_zset : String → List Zset → List Zset
drop_zset key [] = []
drop_zset key (z ∷ rest) =
    let others = drop_zset key rest in if str_eq z.key key then others else z ∷ others

-- Redis DEL of some keys, whatever they hold.
unfoldable pub delete_keys : List String → Redis → Redis
unfolding drop_zset
delete_keys [] r = r
delete_keys (key ∷ keys) r =
    delete_keys keys (record r { entries = drop_key key r.entries; zsets = drop_zset key r.zsets })

-- The `while True` loop.
unfoldable pub delete_pages : ℕ → Scan → String → ℕ → Redis → Option Redis
unfolding delete_keys
delete_pages zero scan pattern cursor r = none
delete_pages (suc fuel) scan pattern cursor r =
    let (next, keys) = scan cursor pattern r in
    let r' = delete_keys keys r in
    let rest = delete_pages fuel scan pattern next r' in if next == 0 then some r' else rest

unfoldable pub cache_delete_pattern : ℕ → Scan → Ticks → String → Redis → Option Redis
unfolding get_redis delete_pages
cache_delete_pattern fuel scan t pattern r =
    let (found, r') = get_redis t r in
    if found
    then (if r'.reachable then delete_pages fuel scan pattern 0 r' else some r')
    else some r'
