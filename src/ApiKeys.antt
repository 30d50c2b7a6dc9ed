-- ===== src/ApiKeys.antt =====
-- src/services/auth_service.py: API keys, with the cache that `lru_cache(maxsize=1000)` keeps.
pub mod Laws
use flyrank_capstone_meterin.Prelude.{
  ℕ, zero, suc, String, Bool, true, false, not, ◌&&◌, Option, none, some, List, [], ◌∷◌, str_eq,
  if◌then◌else◌, select,
}
use flyrank_capstone_meterin.Result.{Result, ok, err}
use flyrank_capstone_meterin.Errors.{Exn}

-- `bcrypt.checkpw` and `bcrypt.hashpw`, the latter on a key and a salt.
pub record Bcrypt : Type 0 where
  pub checkpw : String → String → Result Exn Bool
  pub hashpw : String → String → String

-- A call of `_verify_api_key_cached` that the cache holds.
pub record Memo : Type 0 where
  pub plain_key : String
  pub hash_str : String
  pub result : Bool

abbrev pub maxsize : ℕ
maxsize = 1000

unfoldable pub or_false : Result Exn Bool → Bool
or_false (ok b) = b
or_false (err e) = false

-- `_verify_api_key_cached` without its decorator.
unfoldable pub verify_uncached : Bcrypt → String → String → Bool
unfolding or_false
verify_uncached b plain_key hash_str = or_false (b.checkpw plain_key hash_str)

abbrev pub is_call : String → String → Memo → Bool
is_call plain_key hash_str m = str_eq m.plain_key plain_key && str_eq m.hash_str hash_str

unfoldable pub find_memo : String → String → List Memo → Option Bool
find_memo plain_key hash_str [] = none
find_memo plain_key hash_str (m ∷ rest) =
    let others = find_memo plain_key hash_str rest in
    if is_call plain_key hash_str m then some m.result else others

unfoldable pub keep_first : ℕ → List Memo → List Memo
keep_first zero ms = []
keep_first (suc n) [] = []
keep_first (suc n) (m ∷ rest) = m ∷ keep_first n rest

abbrev pub memo : String → String → Bool → Memo
memo plain_key hash_str result = record {
  plain_key = plain_key;
  hash_str = hash_str;
  result = result;
}

-- A hit moves to the front; a miss is put there, and the call used longest ago goes when there are
-- more than `maxsize`.
unfoldable pub answer_with : Bcrypt → String → String → List Memo → Option Bool → Bool × List Memo
answer_with b plain_key hash_str cache (some result) = (
  result,
  memo plain_key hash_str result ∷ select (λ m. not (is_call plain_key hash_str m)) cache,
)
answer_with b plain_key hash_str cache none =
    let result = verify_uncached b plain_key hash_str in
    (result, keep_first maxsize (memo plain_key hash_str result ∷ cache))

unfoldable pub verify_api_key : Bcrypt → String → String → List Memo → Bool × List Memo
unfolding find_memo answer_with
verify_api_key b plain_key hash_str cache =
    answer_with b plain_key hash_str cache (find_memo plain_key hash_str cache)

-- `secrets.token_urlsafe(32)` and `bcrypt.gensalt()` are arguments.
unfoldable pub generate_api_key : Bcrypt → String → String → String × String
generate_api_key b token salt = (token, b.hashpw token salt)

unfoldable pub clear_cache : List Memo → List Memo
clear_cache cache = []
