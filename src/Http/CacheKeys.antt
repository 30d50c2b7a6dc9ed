-- ===== src/Http/CacheKeys.antt =====
-- The cache keys of a request to POST /meter: the rate limiter and the lookup of the tenant leave what
-- is stored under an idempotency key alone (src/api/middleware/, src/config/cache.py).
use flyrank_capstone_meterin.Prelude.{
  ℕ, String, ◌≡◌, ◌≢◌, refl, ap, sym, ◌∙◌, inl, inr, false, arith, str_eq, eq_iff, Bool-cases,
}
use Prim.Native.Char.{code}
use Prim.Native.String.{◌++◌}
use text.Mathlib.TextLemmas.{cons-append}
use flyrank_capstone_meterin.Payloads.{Cached}
use flyrank_capstone_meterin.Cache.{Redis, Ticks, get_redis, find_live, cache_get, cache_set}
use flyrank_capstone_meterin.Cache.Laws.{IsConnected}
use flyrank_capstone_meterin.World.Spares.{Kept}
use flyrank_capstone_meterin.RateLimit.{RateLimiter, is_allowed, decide}
use flyrank_capstone_meterin.Auth.{AuthEnv, tenant_key}
use flyrank_capstone_meterin.Meter.{MeterCall}
use flyrank_capstone_meterin.MeterApi.{idem_key}

pub limited-Kept :
    (k : String) (l : RateLimiter) (t : Ticks) (key : String) (r : Redis)
    → IsConnected r
    → Kept k r (is_allowed l t key r).1
limited-Kept k l t key r c =
    let same : (is_allowed l t key r).1.entries ≡ r.entries =
      unfold is_allowed in unfold decide in unfold get_redis in ground arith in
    let held : IsConnected (is_allowed l t key r).1 =
      unfold is_allowed in unfold decide in unfold get_redis in ground arith in
    record { connected = held; live = λ now. ap (find_live now k) same }

first_code : String → ℕ
first_code String.[] = 0
first_code (String.◌∷◌ c s) = code c

-- A text that begins with a t is none that begins with an i.
letters_apart : (a b : String) → ("tenant:" ++ a) ≢ ("idem:" ++ b)
unfolding first_code
letters_apart a b h =
    let codes : first_code (String.◌∷◌ "t" ("enant:" ++ a))
        ≡ first_code (String.◌∷◌ "i" ("dem:" ++ b)) =
      ap first_code (sym (cons-append "t" "enant:" a) ∙ h ∙ cons-append "i" "dem:" b) in
    omega arith

pub keys_apart :
    (auth : AuthEnv) (c : MeterCall) (id : ℕ)
    → str_eq (tenant_key auth id) (idem_key auth.uuid_text c) ≡ false
unfolding tenant_key idem_key
keys_apart auth c id = elim (Bool-cases (str_eq (tenant_key auth id) (idem_key auth.uuid_text c))) [
  | inl same ↦ absurd (letters_apart _ _ ((eq_iff _ _).0 same))
  | inr other ↦ other
]

pub read_live :
    (t : Ticks) (k : String) (r : Redis)
    → IsConnected r
    → (cache_get t k r).0 ≡ find_live t.seconds k r.entries
unfolding cache_get get_redis
read_live t k r c = rw (c.0, c.1) refl

pub set_connected :
    (t : Ticks) (k : String) (v : Cached) (ttl : ℕ) (r : Redis)
    → IsConnected r
    → IsConnected (cache_set t k v ttl r)
unfolding cache_set get_redis
set_connected t k v ttl r c = rw (c.0, c.1) (refl, refl)
