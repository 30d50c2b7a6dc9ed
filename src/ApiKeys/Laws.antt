-- ===== src/ApiKeys/Laws.antt =====
-- The cache changes no answer (src/services/auth_service.py).
use flyrank_capstone_meterin.Prelude.{
  ℕ, zero, suc, ◌+◌, ◌≤◌, String, ◌≡◌, refl, ◌∙◌, inl, inr, Bool, true, false, not, some, List, [],
  ◌∷◌, map, arith, eq_iff, length, select, Bool-cases, Option-cases,
}
use flyrank_capstone_meterin.Result.{Result, ok, err}
use flyrank_capstone_meterin.Errors.{Exn}
use flyrank_capstone_meterin.ApiKeys.{
  Bcrypt, Memo, maxsize, verify_uncached, or_false, is_call, find_memo, keep_first, memo,
  answer_with, verify_api_key, generate_api_key,
}

-- bcrypt returns, and returns that the key matches.
abbrev pub accepts : Result Exn Bool → Bool
accepts (ok true) = true
accepts (ok false) = false
accepts (err e) = false

or_false-accepts : (r : Result Exn Bool) → or_false r ≡ accepts r
unfolding or_false
or_false-accepts (ok true) = refl
or_false-accepts (ok false) = refl
or_false-accepts (err e) = refl

module _ (b : Bcrypt) where
  -- Every entry holds what the function returns.
  abbrev pub IsRight : List Memo → Type 0
  IsRight [] = Unit
  IsRight (m ∷ rest) = (m.result ≡ verify_uncached b m.plain_key m.hash_str) × IsRight rest

  find_memo_right :
      (k h : String) (cache : List Memo) (r : Bool)
      → IsRight cache
      → find_memo k h cache ≡ some r
      → r ≡ verify_uncached b k h
  unfolding find_memo
  find_memo_right k h [] r right found = cc
  find_memo_right k h (m ∷ rest) r right found = elim (Bool-cases (is_call k h m)) [
    | inl yes_ ↦
        let key : m.plain_key ≡ k = (eq_iff m.plain_key k).0 (ground arith) in
        let hash : m.hash_str ≡ h = (eq_iff m.hash_str h).0 (ground arith) in
        cc (rw yes_ at found, right.0, key, hash)
    | inr no_ ↦ find_memo_right k h rest r right.1 (rw no_ at found)
  ]

  select-IsRight : (p : Memo → Bool) (cache : List Memo) → IsRight cache → IsRight (select p cache)
  unfolding select
  select-IsRight p [] right = tt
  select-IsRight p (m ∷ rest) right = elim (Bool-cases (p m)) [
    | inl yes_ ↦ rw yes_ (right.0, select-IsRight p rest right.1)
    | inr no_ ↦ rw no_ (select-IsRight p rest right.1)
  ]

  keep_first-IsRight : (n : ℕ) (cache : List Memo) → IsRight cache → IsRight (keep_first n cache)
  unfolding keep_first
  keep_first-IsRight zero cache right = tt
  keep_first-IsRight (suc n) [] right = tt
  keep_first-IsRight (suc n) (m ∷ rest) right = (right.0, keep_first-IsRight n rest right.1)

  verify_api_key-IsRight :
      (k h : String) (cache : List Memo)
      → IsRight cache
      → ((verify_api_key b k h cache).0 ≡ verify_uncached b k h)
        × IsRight (verify_api_key b k h cache).1
  unfolding verify_api_key answer_with
  verify_api_key-IsRight k h cache right = elim (Option-cases (find_memo k h cache)) [
    | inl missing ↦
        rw missing (
          refl,
          keep_first-IsRight maxsize (memo k h (verify_uncached b k h) ∷ cache) (refl, right),
        )
    | inr (r, found) ↦
        let same = find_memo_right k h cache r right found in
        rw found (same, (same, select-IsRight (λ m. not (is_call k h m)) cache right))
  ]

  -- The calls one after the other, with their answers, from the cache that the calls before have left.
  unfoldable pub verify_all : List (String × String) → List Memo → List Bool × List Memo
  verify_all [] cache = ([], cache)
  verify_all ((k, h) ∷ rest) cache =
      let (answer, cache') = verify_api_key b k h cache in
      let (answers, last) = verify_all rest cache' in (answer ∷ answers, last)

  verify_all_right :
      (calls : List (String × String)) (cache : List Memo)
      → IsRight cache
      → (verify_all calls cache).0 ≡ map (λ c. verify_uncached b c.0 c.1) calls
  unfolding verify_all
  verify_all_right [] cache right = refl
  verify_all_right ((k, h) ∷ rest) cache right =
      let (same, right') = verify_api_key-IsRight k h cache right in
      rw (same, verify_all_right rest (verify_api_key b k h cache).1 right') refl

  keep_first-length : (n : ℕ) (cache : List Memo) → length (keep_first n cache) ≤ n
  unfolding keep_first
  keep_first-length zero cache = omega arith
  keep_first-length (suc n) [] = omega arith
  keep_first-length (suc n) (m ∷ rest) = omega (arith, keep_first-length n rest)

  length-select : (p : Memo → Bool) (cache : List Memo) → length (select p cache) ≤ length cache
  unfolding select
  length-select p [] = omega arith
  length-select p (m ∷ rest) = ground (arith, length-select p rest)

  select_without :
      (k h : String) (cache : List Memo) (r : Bool)
      → find_memo k h cache ≡ some r
      → length (select (λ m. not (is_call k h m)) cache) + 1 ≤ length cache
  unfolding select find_memo
  select_without k h [] r found = cc
  select_without k h (m ∷ rest) r found = elim (Bool-cases (is_call k h m)) [
    | inl yes_ ↦ rw yes_ (omega (arith, length-select (λ m. not (is_call k h m)) rest))
    | inr no_ ↦ rw no_ (omega (arith, select_without k h rest r (rw no_ at found)))
  ]

  verify_api_key_small :
      (k h : String) (cache : List Memo)
      → length cache ≤ maxsize
      → length (verify_api_key b k h cache).1 ≤ maxsize
  unfolding verify_api_key answer_with
  verify_api_key_small k h cache small = elim (Option-cases (find_memo k h cache)) [
    | inl missing ↦
        rw missing (keep_first-length maxsize (memo k h (verify_uncached b k h) ∷ cache))
    | inr (r, found) ↦ rw found (omega (arith, select_without k h cache r found))
  ]

  verify_all_small :
      (calls : List (String × String)) (cache : List Memo)
      → length cache ≤ maxsize
      → length (verify_all calls cache).1 ≤ maxsize
  unfolding verify_all
  verify_all_small [] cache small = small
  verify_all_small ((k, h) ∷ rest) cache small =
      verify_all_small rest (verify_api_key b k h cache).1 (verify_api_key_small k h cache small)

  verify_uncached-accepts :
      (calls : List (String × String))
      → map (λ c. verify_uncached b c.0 c.1) calls ≡ map (λ c. accepts (b.checkpw c.0 c.1)) calls
  unfolding verify_uncached
  verify_uncached-accepts [] = refl
  verify_uncached-accepts (c ∷ calls) =
      rw (or_false-accepts (b.checkpw c.0 c.1), verify_uncached-accepts calls) refl

  -- From an empty cache, in any sequence of verifications a key is accepted exactly where bcrypt
  -- returns that it matches the hash: a mismatch and an exception both refuse it, also where the call
  -- has been answered before or its entry has been dropped. The cache never holds more than 1,000
  -- entries.
  pub verify_all_exact :
      (calls : List (String × String))
      → ((verify_all calls []).0 ≡ map (λ c. accepts (b.checkpw c.0 c.1)) calls)
        × (length (verify_all calls []).1 ≤ 1000)
  verify_all_exact calls = (
    verify_all_right calls [] tt ∙ verify_uncached-accepts calls,
    verify_all_small calls [] (omega arith),
  )

  -- Where bcrypt accepts a key against every hash that it has made of it, a new API key is verified
  -- against the hash that goes with it, whatever right entries the cache holds.
  pub generate-verify :
      (token salt : String) (cache : List Memo)
      → ((key salt' : String) → b.checkpw key (b.hashpw key salt') ≡ ok true)
      → IsRight cache
      → let (plain_key, hash_str) = generate_api_key b token salt in
        (verify_api_key b plain_key hash_str cache).0 ≡ true
  unfolding generate_api_key
  generate-verify token salt cache matches right =
      (verify_api_key-IsRight token (b.hashpw token salt) cache right).0
      ∙ (unfold verify_uncached or_false in rw (matches token salt) refl)
