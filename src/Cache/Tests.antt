-- ===== src/Cache/Tests.antt =====
-- Runs of src/config/cache.py at a connection that does not answer.
use flyrank_capstone_meterin.Prelude.{◌≡◌, refl, false, []}
use flyrank_capstone_meterin.Cache.{Redis, get_redis}

abbrev idle : Redis
idle = record {
  pool = false;
  last_connection_attempt = 0;
  reachable = false;
  entries = [];
  zsets = [];
}

-- Within five seconds of the start no connection is tried.
too_early : get_redis (record { monotonic = 4999999; time = 0; seconds = 0 }) idle ≡ (false, idle)
unfolding get_redis
too_early = refl

-- After that the attempt fails and is remembered.
attempted :
    get_redis (record { monotonic = 5000000; time = 0; seconds = 0 }) idle
    ≡ (false, record idle { last_connection_attempt = 5000000 })
unfolding get_redis
attempted = refl
