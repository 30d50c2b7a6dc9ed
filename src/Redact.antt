-- ===== src/Redact.antt =====
-- `_redact` of src/api/middleware/error_handling.py: the five regular expressions as scanners. Each
-- consumes the longest run of its class, which is what the greedy match does, since no class holds the
-- character that has to follow it.
mod Tests
use Prim.Native.Char.{code}
use Prim.Native.String
use Prim.Native.String.{◌++◌}
use flyrank_capstone_meterin.Prelude.{
  ℕ, zero, suc, ◌+◌, ◌-◌, String, Bool, true, false, not, ◌&&◌, ◌||◌, Option, none, some, leb, ◌==◌,
  if◌then◌else◌,
}

-- The rest after a literal, if the text begins with it.
unfoldable pub strip_prefix : String → String → Option String
strip_prefix String.[] s = some s
strip_prefix (String.◌∷◌ d t) String.[] = none
strip_prefix (String.◌∷◌ d t) (String.◌∷◌ c s) =
    let rest = strip_prefix t s in if code d == code c then rest else none

abbrev pub size : String → ℕ
size String.[] = 0
size (String.◌∷◌ c s) = suc (size s)

-- The length of the longest run of a class at the start, and what comes after it.
unfoldable pub span : (ℕ → Bool) → String → ℕ × String
span p String.[] = (0, String.[])
span p (String.◌∷◌ c s) =
    let (n, rest) = span p s in if p (code c) then (n + 1, rest) else (0, String.◌∷◌ c s)

-- [a-zA-Z0-9_-]
abbrev pub is_key_char : ℕ → Bool
is_key_char c =
    leb b'a' c && leb c b'z'
    || (leb b'A' c && leb c b'Z' || (leb b'0' c && leb c b'9' || (c == b'_' || c == b'-')))

-- \s, that is Unicode's white space
abbrev pub is_space : ℕ → Bool
is_space c =
    leb 9 c && leb c 13
    || (leb 28 c && leb c 32
        || (c == 133
            || (c == 160
                || (c == 5760
                    || (leb 8192 c && leb c 8202
                        || (c == 8232
                            || (c == 8233 || (c == 8239 || (c == 8287 || c == 12288)))))))))

-- [^&\s]
abbrev pub is_password_char : ℕ → Bool
is_password_char c = not (c == b'&' || is_space c)

abbrev run_length : String → (ℕ → Bool) → Option String → Option ℕ
run_length prefix p none = none
run_length prefix p (some rest) =
    let (n, after) = span p rest in if n == 0 then none else some (size prefix + n)

-- A literal and a run of one or more: the length of the match.
unfoldable pub match_run : String → (ℕ → Bool) → String → Option ℕ
unfolding strip_prefix span
match_run prefix p s = run_length prefix p (strip_prefix prefix s)

-- `[^@]+@` after the user and a colon.
abbrev password_length : ℕ → Option String → Option ℕ
password_length before none = none
password_length before (some rest) =
    let (n, after) = span (λ c. not (c == b'@')) rest in
    if n == 0
    then none
    else elim after [ String.[] ↦ none | String.◌∷◌ c s ↦ some (before + n + 1) ]

abbrev user_length : Option String → Option ℕ
user_length none = none
user_length (some rest) =
    let (n, after) = span (λ c. not (c == b':')) rest in
    if n == 0 then none else password_length (13 + n + 1) (strip_prefix ":" after)

-- `postgresql://[^:]+:[^@]+@`
unfoldable pub match_url : String → Option ℕ
unfolding strip_prefix span
match_url s = user_length (strip_prefix "postgresql://" s)

-- `re.sub`: `skip` characters of a match are still to be dropped.
unfoldable pub sub : (String → Option ℕ) → String → ℕ → String → String
sub m replacement skip String.[] = String.[]
sub m replacement (suc skip) (String.◌∷◌ c s) = sub m replacement skip s
sub m replacement zero (String.◌∷◌ c s) = elim (m (String.◌∷◌ c s)) [
  | none ↦ String.◌∷◌ c (sub m replacement zero s)
  | some n ↦ replacement ++ sub m replacement (n - 1) s
]

unfoldable pub redact : String → String
unfolding sub match_run match_url
redact text = sub match_url "postgresql://user:REDACTED@" 0 (
    sub (match_run "password=" is_password_char) "password=REDACTED" 0 (
      sub (match_run "whsec_" is_key_char) "whsec_REDACTED" 0 (
        sub (match_run "sk_live_" is_key_char) "sk_live_REDACTED" 0
          (sub (match_run "sk_test_" is_key_char) "sk_test_REDACTED" 0 text))))
