-- ===== src/RateLimit/Bound.antt =====
-- How many requests the limiter lets through, and what a refused one is told
-- (src/api/middleware/rate_limit.py).
use flyrank_capstone_meterin.Prelude.{
  ℕ, ◌+◌, ◌*◌, ◌≤◌, ◌<◌, String, ◌≡◌, inl, inr, Bool, true, false, ◌&&◌, List, [], ◌∷◌, ◌++◌, arith,
  ltb, leb, if◌then◌else◌, length, select, Bool-cases,
}
use mathlib.Core.List.{append-nil, append_assoc}
use flyrank_capstone_meterin.Cache.{Redis, Ticks, get_redis}
use flyrank_capstone_meterin.Cache.Laws.{IsConnected}
use flyrank_capstone_meterin.RateLimit.{
  RateLimiter, second, zset_scores, is_recent, retry_after, zadd, decide, is_allowed,
}
use flyrank_capstone_meterin.RateLimit.Scores.{AllBelow, AllBelow-append, AllBelow-mono}
use flyrank_capstone_meterin.RateLimit.Laws.{
  InOrder, run, reference_allows, reference_run, run_refines,
}

-- Within the window that ends with `now`.
abbrev pub is_within : ℕ → ℕ → ℕ → Bool
is_within window now score = ltb now (score + window) && leb score now

-- The times of the calls that were allowed.
unfoldable pub passed : List (ℕ × Bool) → List ℕ
passed [] = []
passed ((time, allowed) ∷ rest) =
    let others = passed rest in if allowed then time ∷ others else others

abbrev pub count_within : ℕ → ℕ → List ℕ → ℕ
count_within window now xs = length (select (is_within window now) xs)

-- Looking back from `t` sees at least what a later window holds of the scores before `t`.
count_within-le-recent :
    (window t now : ℕ) (xs : List ℕ)
    → AllBelow t xs
    → t ≤ now
    → count_within window now xs ≤ length (select (is_recent window t) xs)
unfolding select
count_within-le-recent window t now [] h l = omega arith
count_within-le-recent window t now (x ∷ xs) h l =
    ground (arith, count_within-le-recent window t now xs)

count_within-append :
    (window now x : ℕ) (xs : List ℕ)
    → count_within window now (xs ++ x ∷ [])
      ≡ count_within window now xs + (if is_within window now x then 1 else 0)
unfolding select
count_within-append window now x [] = ground arith
count_within-append window now x (y ∷ ys) = ground (arith, count_within-append window now x ys)

count_recent-append :
    (window now x : ℕ) (xs : List ℕ)
    → length (select (is_recent window now) (xs ++ x ∷ []))
      ≡ length (select (is_recent window now) xs) + (if is_recent window now x then 1 else 0)
unfolding select
count_recent-append window now x [] = ground arith
count_recent-append window now x (y ∷ ys) = ground (arith, count_recent-append window now x ys)

-- What was let through so far, beside all attempts so far.
record Bounded (l : RateLimiter) (last : ℕ) (history allowed : List ℕ) : Type 0 where
  past : AllBelow (last + 1) allowed
  fewer :
      (now : ℕ)
      → length (select (is_recent (l.window_seconds * second) now) allowed)
        ≤ length (select (is_recent (l.window_seconds * second) now) history)
  bounded : (now : ℕ) → count_within (l.window_seconds * second) now allowed ≤ l.max_requests

module _ (l : RateLimiter) where
  abbrev window : ℕ
  window = l.window_seconds * second

  allow-Bounded :
      (last t : ℕ) (history allowed : List ℕ)
      → Bounded l last history allowed
      → last < t
      → reference_allows l history t ≡ true
      → Bounded l t (history ++ t ∷ []) (allowed ++ t ∷ [])
  unfolding reference_allows
  allow-Bounded last t history allowed b later free = record {
    past =
        AllBelow-append (t + 1) t allowed
          (AllBelow-mono (last + 1) (t + 1) allowed b.past (omega arith)) (omega arith);
    fewer = λ now. omega (
      arith,
      count_recent-append window now t history,
      count_recent-append window now t allowed,
      b.fewer now,
    );
    bounded = λ now. elim (Bool-cases (leb t now)) [
      | inl after ↦ ground (
        arith,
        count_within-append window now t allowed,
        b.fewer t,
        count_within-le-recent window t now allowed
            (AllBelow-mono (last + 1) t allowed b.past (omega arith)) (ground arith),
      )
      | inr before ↦ ground (arith, count_within-append window now t allowed, b.bounded now)
    ];
  }

  refuse-Bounded :
      (last t : ℕ) (history allowed : List ℕ)
      → Bounded l last history allowed
      → last < t
      → Bounded l t (history ++ t ∷ []) allowed
  refuse-Bounded last t history allowed b later = record {
    past = AllBelow-mono (last + 1) (t + 1) allowed b.past (omega arith);
    fewer = λ now. omega (arith, count_recent-append window now t history, b.fewer now);
    bounded = b.bounded;
  }

  reference-Bounded :
      (last : ℕ) (history allowed : List ℕ) (calls : List Ticks) (now : ℕ)
      → Bounded l last history allowed
      → InOrder last calls
      → count_within window now (allowed ++ passed (reference_run l history calls)) ≤ l.max_requests
  unfolding reference_run passed
  reference-Bounded last history allowed [] now b order = rw append-nil (b.bounded now)
  reference-Bounded last history allowed (t ∷ rest) now b (later, sync, order) =
      elim (Bool-cases (reference_allows l history t.time)) [
        | inl free ↦
            rw
              (
                free,
                ← append_assoc allowed (t.time ∷ [])
                    (passed (reference_run l (history ++ t.time ∷ []) rest)),
              )
              (reference-Bounded t.time (history ++ t.time ∷ []) (allowed ++ t.time ∷ []) rest now
                (allow-Bounded last t.time history allowed b later free) order)
        | inr full ↦ rw full (
            reference-Bounded t.time (history ++ t.time ∷ []) allowed rest now
              (refuse-Bounded last t.time history allowed b later) order)
      ]

-- With Redis connected and the clocks in agreement, and calls under a key that has no set yet, each
-- later than the one before: in any window of `window_seconds`, wherever it ends, at most
-- `max_requests` of them are let through.
pub run_bounded :
    (l : RateLimiter) (key : String) (r : Redis) (calls : List Ticks) (now : ℕ)
    → IsConnected r
    → ((seconds : ℕ) → zset_scores seconds key r.zsets ≡ [])
    → InOrder 0 calls
    → count_within (l.window_seconds * second) now (passed (run l key calls r)) ≤ l.max_requests
run_bounded l key r calls now c empty order = rw (run_refines l key r calls c empty order) (
    reference-Bounded l 0 [] [] calls now
      (record {
        past = tt;
        fewer = λ n. unfold select in omega arith;
        bounded = λ n. unfold select in omega arith;
      })
      order)

-- The first score after an insert is at most the new one.
retry_after-zadd :
    (l : RateLimiter) (now : ℕ) (xs : List ℕ)
    → (1 ≤ retry_after l now (zadd now xs))
      × (retry_after l now (zadd now xs) ≤ l.window_seconds + 1)
unfolding retry_after zadd
retry_after-zadd l now [] = ground arith
retry_after-zadd l now (x ∷ xs) = ground arith

-- Whatever Redis holds: a refused request is told to wait for at least one second, and for at most
-- one second more than the window.
pub refused_wait :
    (l : RateLimiter) (t : Ticks) (key : String) (r : Redis) (n : ℕ)
    → (is_allowed l t key r).0 ≡ (false, n)
    → (1 ≤ n) × (n ≤ l.window_seconds + 1)
unfolding is_allowed decide
refused_wait l t key r n h = ground (
  arith,
  retry_after-zadd l t.time (
      select (is_recent (l.window_seconds * second) t.time)
        (zset_scores t.seconds key (get_redis t r).1.zsets)),
)

-- While Redis does not answer, every request is let through.
pub unreachable_allowed :
    (l : RateLimiter) (t : Ticks) (key : String) (r : Redis)
    → r.reachable ≡ false
    → (is_allowed l t key r).0 ≡ (true, 0)
unfolding is_allowed get_redis
unreachable_allowed l t key r h = ground arith
