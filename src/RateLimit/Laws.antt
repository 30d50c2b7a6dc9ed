-- ===== src/RateLimit/Laws.antt =====
-- The limiter against one that forgets nothing, and what it lets through
-- (src/api/middleware/rate_limit.py).
use flyrank_capstone_meterin.Prelude.{
  ℕ, ◌+◌, ◌*◌, ◌/◌, ◌≤◌, ◌<◌, String, ◌≡◌, refl, sym, ap, ◌∙◌, inl, inr, Bool, false, List, [], ◌∷◌,
  ◌++◌, arith, ltb, leb, eq_refl, length, select, select-append, Bool-cases,
}
use flyrank_capstone_meterin.Cache.{Redis, Ticks, get_redis}
use flyrank_capstone_meterin.Cache.Laws.{IsConnected}
use flyrank_capstone_meterin.RateLimit.{
  RateLimiter, second, zset_scores, put_zset, is_recent, decide, is_allowed,
}
use flyrank_capstone_meterin.RateLimit.Scores.{
  zset_scores-put_zset, AllBelow, AllBelow-select, AllBelow-append, AllBelow-mono, zadd-AllBelow,
  select-is_recent, select-is_recent_none,
}

-- What is kept of a history of attempts up to `last`: enough to look back from any later time.
pub record Tracks (l : RateLimiter) (key : String) (last : ℕ) (history : List ℕ) (r : Redis)
    : Type 0 where
  pub past : AllBelow (last + 1) history
  pub kept :
      (now seconds : ℕ)
      → last ≤ now
      → seconds ≡ now / second
      → select (is_recent (l.window_seconds * second) now) (zset_scores seconds key r.zsets)
        ≡ select (is_recent (l.window_seconds * second) now) history

-- The limiter that keeps every attempt, allowed or not: it counts those within the window.
unfoldable pub reference_allows : RateLimiter → List ℕ → ℕ → Bool
reference_allows l history now =
    ltb (length (select (is_recent (l.window_seconds * second) now) history)) l.max_requests

decide_lem :
    (l : RateLimiter) (key : String) (last : ℕ) (history : List ℕ) (r : Redis) (t : Ticks)
    → Tracks l key last history r
    → last < t.time
    → t.seconds ≡ t.time / second
    → ((decide l t key r).0.0 ≡ reference_allows l history t.time)
      × ((decide l t key r).1.zsets
          ≡ put_zset
              (record {
                key = key;
                scores =
                    select (is_recent (l.window_seconds * second) t.time) history ++ t.time ∷ [];
                expires_at = t.seconds + (l.window_seconds + 1);
              })
              r.zsets)
unfolding decide reference_allows
decide_lem l key last history r t tracks later sync =
    let window = l.window_seconds * second in
    let kept = tracks.kept t.time t.seconds (omega arith) sync in
    let ending = zadd-AllBelow t.time (select (is_recent window t.time) history) (
      AllBelow-select t.time (is_recent window t.time) history
        (AllBelow-mono (last + 1) t.time history tracks.past (omega arith))) in
    elim (Bool-cases (leb l.max_requests (length (select (is_recent window t.time) history)))) [
      | inl full ↦ rw (kept, ending, full) (ground arith, refl)
      | inr free ↦ rw (kept, ending, free) (ground arith, refl)
    ]

window_over :
    (t now window s s' : ℕ)
    → s ≡ t / second
    → s' ≡ now / second
    → ltb s' (s + (window + 1)) ≡ false
    → t + 1 + window * second ≤ now + 1
window_over t now window s s' h h' gone =
    let le : s + (window + 1) ≤ s' = ground arith in omega arith

decide-Tracks :
    (l : RateLimiter) (key : String) (last : ℕ) (history : List ℕ) (r : Redis) (t : Ticks)
    → Tracks l key last history r
    → last < t.time
    → t.seconds ≡ t.time / second
    → Tracks l key t.time (history ++ t.time ∷ []) (decide l t key r).1
decide-Tracks l key last history r t tracks later sync = record {
  past = before;
  kept = λ now seconds le clock.
      let stored =
        ap (zset_scores seconds key) (decide_lem l key last history r t tracks later sync).1
        ∙ zset_scores-put_zset seconds key
            (record {
              key = key;
              scores = select (is_recent window t.time) history ++ t.time ∷ [];
              expires_at = t.seconds + (l.window_seconds + 1);
            })
            r.zsets in
      elim (Bool-cases (ltb seconds (t.seconds + (l.window_seconds + 1)))) [
        | inl live ↦
            rw (stored, eq_refl key, live, select-append, select-append)
              (rw (select-is_recent window t.time now history le) refl)
        | inr gone ↦
            rw (stored, eq_refl key, gone)
              (unfold select in
                sym (
                  select-is_recent_none window (t.time + 1) now (history ++ t.time ∷ []) before
                    (window_over t.time now l.window_seconds t.seconds seconds sync clock gone)))
      ];
}
  where
    window : ℕ
    window = l.window_seconds * second

    before : AllBelow (t.time + 1) (history ++ t.time ∷ [])
    before =
        AllBelow-append (t.time + 1) t.time history
          (AllBelow-mono (last + 1) (t.time + 1) history tracks.past (omega arith)) (omega arith)

-- Each call comes later than the one before, and Redis's clock agrees with the application's.
abbrev pub InOrder : ℕ → List Ticks → Type 0
InOrder last [] = Unit
InOrder last (t ∷ rest) = (last < t.time) × (t.seconds ≡ t.time / second) × InOrder t.time rest

-- The calls under one key, in order, with their answers.
unfoldable pub run : RateLimiter → String → List Ticks → Redis → List (ℕ × Bool)
run l key [] r = []
run l key (t ∷ rest) r =
    let (answer, r') = is_allowed l t key r in (t.time, answer.0) ∷ run l key rest r'

-- The same calls to the limiter that keeps every attempt.
unfoldable pub reference_run : RateLimiter → List ℕ → List Ticks → List (ℕ × Bool)
reference_run l history [] = []
reference_run l history (t ∷ rest) =
    (t.time, reference_allows l history t.time) ∷ reference_run l (history ++ t.time ∷ []) rest

pub is_allowed_connected :
    (l : RateLimiter) (t : Ticks) (key : String) (r : Redis)
    → IsConnected r
    → is_allowed l t key r ≡ decide l t key r
unfolding is_allowed get_redis
is_allowed_connected l t key r c = ground arith

decide-IsConnected :
    (l : RateLimiter) (t : Ticks) (key : String) (r : Redis)
    → IsConnected r
    → IsConnected (decide l t key r).1
unfolding decide
decide-IsConnected l t key r c = ground arith

run_tracked :
    (l : RateLimiter) (key : String) (last : ℕ) (history : List ℕ) (r : Redis) (calls : List Ticks)
    → IsConnected r
    → Tracks l key last history r
    → InOrder last calls
    → run l key calls r ≡ reference_run l history calls
unfolding run reference_run
run_tracked l key last history r [] c tracks order = refl
run_tracked l key last history r (t ∷ rest) c tracks (later, sync, order) =
    let step = is_allowed_connected l t key r c in
    rw
      (
        step,
        (decide_lem l key last history r t tracks later sync).0,
        run_tracked l key t.time (history ++ t.time ∷ []) (decide l t key r).1 rest
            (decide-IsConnected l t key r c)
            (decide-Tracks l key last history r t tracks later sync) order,
      )
      refl

-- With Redis connected and the clocks in agreement, calls under a key that has no set yet, each later
-- than the one before, are answered as by a limiter that keeps the times of all earlier attempts,
-- also of the refused ones, and allows a request where fewer than `max_requests` of them lie within
-- the window: neither the removal of old scores nor the expiry of the key loses any that counts.
pub run_refines :
    (l : RateLimiter) (key : String) (r : Redis) (calls : List Ticks)
    → IsConnected r
    → ((seconds : ℕ) → zset_scores seconds key r.zsets ≡ [])
    → InOrder 0 calls
    → run l key calls r ≡ reference_run l [] calls
run_refines l key r calls c empty order =
    run_tracked l key 0 [] r calls c
      (record { past = tt; kept = λ now seconds le clock. rw (empty seconds) refl }) order
