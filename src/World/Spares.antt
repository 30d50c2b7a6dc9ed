-- ===== src/World/Spares.antt =====
-- Actions that leave one cache key alone: over a working connection, it is read after them as before.
-- One rule for each way to build an action.
use flyrank_capstone_meterin.Prelude.{ℕ, ◌+◌, String, ◌≡◌, refl, ◌∙◌, false, str_eq}
use flyrank_capstone_meterin.Result.{Result, ok, err}
use flyrank_capstone_meterin.Exec.{pure, raise, lift, continue, ◌>>=◌}
use flyrank_capstone_meterin.Errors.{Exn}
use flyrank_capstone_meterin.Payloads.{Cached}
use flyrank_capstone_meterin.Cache.{Redis, get_redis, find_live, cache_set}
use flyrank_capstone_meterin.Cache.Laws.{IsConnected, redis-cache_get, find_live-put_entry}
use flyrank_capstone_meterin.World.{World, App, Moment, cached_get, cached_set}

pub record Kept (k : String) (r r' : Redis) : Type 0 where
  pub connected : IsConnected r'
  pub live : (now : ℕ) → find_live now k r'.entries ≡ find_live now k r.entries

pub record Spares (k : String) {A : Type 0} (f : App A) : Type 0 where
  pub at : (w : World) → IsConnected w.redis → Kept k w.redis (f w).1.redis

module _ {k : String} {A : Type 0} where
  pub Spares-pure : (a : A) → Spares k {A = A} (pure a)
  Spares-pure a = record { at = λ w c. record { connected = c; live = λ now. refl } }

  pub Spares-raise : (e : Exn) → Spares k {A = A} (raise e)
  Spares-raise e = record { at = λ w c. record { connected = c; live = λ now. refl } }

  pub Spares-lift : (r : Result Exn A) → Spares k {A = A} (lift r)
  Spares-lift r = record { at = λ w c. record { connected = c; live = λ now. refl } }

module _ {k : String} {A B : Type 0} where
  continue-Kept :
      (r : Result Exn A) (f : A → App B) (r0 : Redis) (w : World)
      → Kept k r0 w.redis
      → ((a : A) → Spares k (f a))
      → Kept k r0 (continue r f w).1.redis
  continue-Kept (ok a) f r0 w kept fs =
      let next = (fs a).at w kept.connected in
      record { connected = next.connected; live = λ now. next.live now ∙ kept.live now }
  continue-Kept (err e) f r0 w kept fs = kept

  pub Spares-bind :
      (m : App A) (f : A → App B) → Spares k m → ((a : A) → Spares k (f a)) → Spares k (m >>= f)
  Spares-bind m f ms fs = record {
    at = λ w c. continue-Kept (m w).0 f w.redis (m w).1 (ms.at w c) fs;
  }

module _ {k : String} where
  pub cached_get-Spares : (m : Moment) (key : String) → Spares k (cached_get m key)
  unfolding cached_get
  cached_get-Spares m key = record {
    at = λ w c.
        rw (redis-cache_get m.ticks key w.redis c) (record { connected = c; live = λ now. refl });
  }

  pub cached_set-Spares :
      (m : Moment) (key : String) (value : Cached) (ttl : ℕ)
      → str_eq key k ≡ false
      → Spares k (cached_set m key value ttl)
  unfolding cached_set cache_set get_redis
  cached_set-Spares m key value ttl other = record {
    at = λ w c.
        rw (c.0, c.1)
          (record {
            connected = (refl, refl);
            live = λ now.
                find_live-put_entry now k
                  (record { key = key; value = value; expires_at = m.ticks.seconds + ttl })
                  w.redis.entries
                ∙ rw other refl;
          });
  }

pub ruleset spares_rules =
    (Spares-pure, Spares-raise, Spares-lift, Spares-bind, cached_get-Spares, cached_set-Spares)
