-- ===== src/Retry/Laws.antt =====
-- How often `with_db_retry` calls, how long it waits, and what it returns (src/config/database.py).
use flyrank_capstone_meterin.Prelude.{
  ℕ, zero, suc, ◌+◌, ◌-◌, ◌*◌, ◌≤◌, ◌<◌, ◌≡◌, refl, sym, ap, ◌==◌, if◌then◌else◌, Bool, true, not,
  ◌||◌, List, [], ◌∷◌, arith, length, inl, inr,
}
use flyrank_capstone_meterin.Result.{ok, err, Result-cases}
use flyrank_capstone_meterin.Exec.{Exec}
use flyrank_capstone_meterin.Retry.{RetryPolicy, Outcome, wait_after, attempts, with_db_retry}

wait_after-le :
    (p : RetryPolicy) (k : ℕ)
    → k < p.max_retries
    → wait_after p k ≤ p.max_delay * (10 + p.max_retries)
unfolding wait_after
wait_after-le p k h = grind arith

abbrev pub AllAtMost : ℕ → List ℕ → Type 0
AllAtMost bound [] = Unit
AllAtMost bound (x ∷ xs) = (x ≤ bound) × AllAtMost bound xs

module _ {S E A : Type 0} (policy : RetryPolicy) (transient : E → Bool) (no_attempt : E) where
  attempts_ok :
      (func : Exec S E A) (left attempt : ℕ) (e : E) (s : S) {a : A}
      → (func s).0 ≡ ok a
      → attempts policy transient no_attempt func (suc left) attempt e s
        ≡ record { result = ok a; state = (func s).1; waits = [] }
  unfolding attempts
  attempts_ok func left attempt e s p = rw (p, attempts)

  attempts_err :
      (func : Exec S E A) (left attempt : ℕ) (e : E) (s : S) {e' : E}
      → (func s).0 ≡ err e'
      → let later = attempts policy transient no_attempt func left (attempt + 1) e' (func s).1 in
        attempts policy transient no_attempt func (suc left) attempt e s ≡ (
          if not (transient e') || attempt == policy.max_retries - 1
          then record { result = err e'; state = (func s).1; waits = [] }
          else record {
            result = later.result;
            state = later.state;
            waits = wait_after policy attempt ∷ later.waits;
          })
  unfolding attempts
  attempts_err func left attempt e s p = rw (p, attempts)

  -- With a round left, the waits stay below the number of attempts and are bounded.
  attempts_waits :
      (func : Exec S E A) (left attempt : ℕ) (e : E) (s : S)
      → suc left + attempt ≡ policy.max_retries
      → let o = attempts policy transient no_attempt func (suc left) attempt e s in
        (length o.waits ≤ left) × AllAtMost (policy.max_delay * (10 + policy.max_retries)) o.waits
  attempts_waits func zero attempt e s h = elim (Result-cases (func s).0) [
    | inl (a, p) ↦ rw (attempts_ok func zero attempt e s p) (omega arith)
    | inr (e', p) ↦ rw (attempts_err func zero attempt e s p) (ground arith)
  ]
  attempts_waits func (suc left) attempt e s h = elim (Result-cases (func s).0) [
    | inl (a, p) ↦ rw (attempts_ok func (suc left) attempt e s p) (omega arith)
    | inr (e', p) ↦ rw (attempts_err func (suc left) attempt e s p) (
        ground (
          arith,
          attempts_waits func left (attempt + 1) e' (func s).1 (omega arith),
          wait_after-le policy attempt (omega arith),
        ))
  ]

  -- Where a failing call leaves the state alone, retrying ends as one call does.
  attempts_clean :
      (func : Exec S E A) (left attempt : ℕ) (e : E) (s : S)
      → ((e' : E) → (func s).0 ≡ err e' → (func s).1 ≡ s)
      → suc left + attempt ≡ policy.max_retries
      → let o = attempts policy transient no_attempt func (suc left) attempt e s in
        (o.result ≡ (func s).0) × (o.state ≡ (func s).1)
  attempts_clean func zero attempt e s clean h = elim (Result-cases (func s).0) [
    | inl (a, p) ↦ rw (attempts_ok func zero attempt e s p) (sym p, refl)
    | inr (e', p) ↦ rw (attempts_err func zero attempt e s p) (ground (arith, p))
  ]
  attempts_clean func (suc left) attempt e s clean h = elim (Result-cases (func s).0) [
    | inl (a, p) ↦ rw (attempts_ok func (suc left) attempt e s p) (sym p, refl)
    | inr (e', p) ↦
        rw (attempts_err func (suc left) attempt e s p, clean e' p)
          (ground
            (arith, p, clean e' p, attempts_clean func left (attempt + 1) e' s clean (omega arith)))
  ]

  -- From state `s`, `n` calls fail with transient errors and the next returns `a`, leaving `s'`.
  abbrev pub Recovers : Exec S E A → ℕ → S → A → S → Type 0
  Recovers func zero s a s' = func s ≡ (ok a, s')
  Recovers func (suc n) s a s' =
      (e : E) × ((func s).0 ≡ err e) × (transient e ≡ true) × Recovers func n (func s).1 a s'

  attempts_recover :
      (func : Exec S E A) (n left attempt : ℕ) (e : E) (s : S) (a : A) (s' : S)
      → Recovers func n s a s'
      → n ≤ left
      → suc left + attempt ≡ policy.max_retries
      → let o = attempts policy transient no_attempt func (suc left) attempt e s in
        (o.result ≡ ok a) × (o.state ≡ s') × (length o.waits ≡ n)
  attempts_recover func zero left attempt e s a s' r le h =
      rw (attempts_ok func left attempt e s (ap (λ x. x.0) r)) (refl, ap (λ x. x.1) r, refl)
  attempts_recover func (suc n) zero attempt e s a s' r le h = absurd (omega arith)
  attempts_recover func (suc n) (suc left) attempt e s a s' (e', p, t, r) le h =
      rw (attempts_err func (suc left) attempt e s p) (
        ground (
          arith,
          t,
          attempts_recover func n left (attempt + 1) e' (func s).1 a s' r (omega arith)
              (omega arith),
        ))

  -- What holds after some round left holds of all rounds, if there is one.
  from_start :
      (P : Outcome S E A → Type 0) (func : Exec S E A) (s : S) (n : ℕ)
      → n ≡ policy.max_retries
      → 0 < n
      → ((left : ℕ)
          → suc left + 0 ≡ policy.max_retries
          → P (attempts policy transient no_attempt func (suc left) 0 no_attempt s))
      → P (attempts policy transient no_attempt func n 0 no_attempt s)
  from_start P func s zero e h each = elim h [ ]
  from_start P func s (suc left) e h each = each left (omega arith)

  -- With at least one attempt allowed: the function is called at most `max_retries` times, so that
  -- there are fewer waits than that, and no wait exceeds `max_delay` and the greatest jitter.
  pub with_db_retry_waits :
      (func : Exec S E A) (s : S)
      → 0 < policy.max_retries
      → let o = with_db_retry policy transient no_attempt func s in
        (length o.waits < policy.max_retries)
        × AllAtMost (policy.max_delay * (10 + policy.max_retries)) o.waits
  unfolding with_db_retry
  with_db_retry_waits func s h =
      from_start
        (λ o.
          (length o.waits < policy.max_retries)
          × AllAtMost (policy.max_delay * (10 + policy.max_retries)) o.waits)
        func s policy.max_retries refl h
        (λ left e.
          let (few, bounded) = attempts_waits func left 0 no_attempt s e in (omega arith, bounded))

  -- If a failing call leaves the state as it was, then so does retrying, and its result and its final
  -- state are those of a single call.
  pub with_db_retry_clean :
      (func : Exec S E A) (s : S)
      → 0 < policy.max_retries
      → ((e : E) → (func s).0 ≡ err e → (func s).1 ≡ s)
      → let o = with_db_retry policy transient no_attempt func s in
        (o.result ≡ (func s).0) × (o.state ≡ (func s).1)
  unfolding with_db_retry
  with_db_retry_clean func s h clean =
      from_start (λ o. (o.result ≡ (func s).0) × (o.state ≡ (func s).1)) func s policy.max_retries
        refl h (λ left e. attempts_clean func left 0 no_attempt s clean e)

  -- If fewer than `max_retries` calls fail with transient errors before one returns, then retrying
  -- returns that result and state, after one wait for each failure.
  pub with_db_retry-Recovers :
      (func : Exec S E A) (n : ℕ) (s : S) (a : A) (s' : S)
      → n < policy.max_retries
      → Recovers func n s a s'
      → let o = with_db_retry policy transient no_attempt func s in
        (o.result ≡ ok a) × (o.state ≡ s') × (length o.waits ≡ n)
  unfolding with_db_retry
  with_db_retry-Recovers func n s a s' h r =
      from_start (λ o. (o.result ≡ ok a) × (o.state ≡ s') × (length o.waits ≡ n)) func s
        policy.max_retries refl (omega arith)
        (λ left e. attempts_recover func n left 0 no_attempt s a s' r (omega arith) e)
