-- ===== src/Retry.antt =====
-- src/config/database.py: transient errors and `with_db_retry`. Delays are in milliseconds and waits
-- in tenths of a millisecond, which makes the jitter of a tenth a whole number.
pub mod Laws
mod Tests
use Prim.Native.Char.{code}
use Prim.Native.String
use flyrank_capstone_meterin.Prelude.{
  ℕ, zero, suc, ◌+◌, ◌-◌, ◌*◌, ◌^◌, min, String, Bool, true, false, not, ◌&&◌, ◌||◌, List, [], ◌∷◌,
  ◌++◌, leb, ◌==◌, if◌then◌else◌,
}
use flyrank_capstone_meterin.Result.{Result, ok, err}
use flyrank_capstone_meterin.Exec.{Exec}

abbrev pub codes : String → List ℕ
codes String.[] = []
codes (String.◌∷◌ c s) = code c ∷ codes s

-- The lower case of a character. Besides the letters A to Z, two characters have ASCII in their lower
-- case: the Kelvin sign, which becomes k, and the capital I with a dot, which becomes i and a
-- combining dot. All others are kept here: their lower case has no ASCII character, as they.
unfoldable pub lower_char : ℕ → List ℕ
lower_char c =
    if leb b'A' c && leb c b'Z'
    then (c + 32) ∷ []
    else if c == 0x212A
    then b'k' ∷ []
    else if c == 0x130
    then b'i' ∷ 0x307 ∷ []
    else c ∷ []

-- `str.lower()`
unfoldable pub lower : List ℕ → List ℕ
unfolding lower_char
lower [] = []
lower (c ∷ s) = lower_char c ++ lower s

unfoldable pub starts_with : List ℕ → List ℕ → Bool
starts_with s [] = true
starts_with [] (c ∷ t) = false
starts_with (d ∷ s) (c ∷ t) = d == c && starts_with s t

-- `t in s`
unfoldable pub is_in : List ℕ → List ℕ → Bool
unfolding starts_with
is_in t [] = starts_with [] t
is_in t (d ∷ s) = starts_with (d ∷ s) t || is_in t s

unfoldable pub transient_errors : List String
transient_errors =
    "deadlock detected" ∷ "could not obtain lock" ∷ "connection reset" ∷ "connection refused"
    ∷ "server closed the connection" ∷ "connection timed out" ∷ "too many connections"
    ∷ "sorry, too many clients" ∷ []

any_in : List String → List ℕ → Bool
unfolding is_in
any_in [] msg = false
any_in (e ∷ rest) msg = is_in (codes e) msg || any_in rest msg

-- On `str(exc)`.
unfoldable pub is_transient_error : String → Bool
unfolding any_in transient_errors lower
is_transient_error text = any_in transient_errors (lower (codes text))

pub record RetryPolicy : Type 0 where
  pub max_retries : ℕ
  pub base_delay : ℕ
  pub max_delay : ℕ

-- `delay + (delay * 0.1) * (attempt + 1)`, in tenths.
unfoldable pub wait_after : RetryPolicy → ℕ → ℕ
wait_after policy attempt =
    let delay = min (policy.base_delay * 2 ^ attempt) policy.max_delay in
    delay * 10 + delay * (attempt + 1)

-- What a call of the wrapper does: its result, the state, and the waits before the later attempts.
pub record Outcome (S E A : Type 0) : Type 0 where
  pub result : Result E A
  pub state : S
  pub waits : List ℕ

module _ {S E A : Type 0} (policy : RetryPolicy) (transient : E → Bool) (no_attempt : E) where
  -- The rounds left of `for attempt in range(max_retries)`. After the loop comes `raise last_exc`,
  -- which without any attempt is `raise None`.
  unfoldable pub attempts : Exec S E A → ℕ → ℕ → E → S → Outcome S E A
  attempts func zero attempt last_exc s = record { result = err last_exc; state = s; waits = [] }
  attempts func (suc left) attempt last_exc s =
      let (r, s') = func s in
      elim r [
        | ok a ↦ record { result = ok a; state = s'; waits = [] }
        | err e ↦
            let later = attempts func left (attempt + 1) e s' in
            if not (transient e) || attempt == policy.max_retries - 1
            then record { result = err e; state = s'; waits = [] }
            else record {
              result = later.result;
              state = later.state;
              waits = wait_after policy attempt ∷ later.waits;
            }
      ]

  unfoldable pub with_db_retry : Exec S E A → S → Outcome S E A
  unfolding attempts
  with_db_retry func = attempts func policy.max_retries 0 no_attempt
