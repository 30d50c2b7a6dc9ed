-- ===== src/RateLimit/Scores.antt =====
-- The scores that a key holds in Redis (src/api/middleware/rate_limit.py).
use flyrank_capstone_meterin.Prelude.{
  ℕ, ◌+◌, ◌≤◌, ◌<◌, String, ◌≡◌, refl, inl, inr, Bool, List, [], ◌∷◌, ◌++◌, arith, ltb, str_eq,
  eq_iff, if◌then◌else◌, select, Bool-cases,
}
use flyrank_capstone_meterin.Cache.{Zset}
use flyrank_capstone_meterin.RateLimit.{zset_scores, put_zset, is_recent, zadd}

pub zset_scores-put_zset :
    (now : ℕ) (k : String) (new : Zset) (zs : List Zset)
    → zset_scores now k (put_zset new zs) ≡ (
        if str_eq new.key k
        then (if ltb now new.expires_at then new.scores else [])
        else zset_scores now k zs)
unfolding zset_scores put_zset
zset_scores-put_zset now k new [] = refl
zset_scores-put_zset now k new (z ∷ zs) = ground (
  arith,
  zset_scores-put_zset now k new zs,
  eq_iff z.key new.key,
  eq_iff z.key k,
  eq_iff new.key k,
)

-- All scores lie below a bound.
abbrev pub AllBelow : ℕ → List ℕ → Type 0
AllBelow bound [] = Unit
AllBelow bound (x ∷ xs) = (x < bound) × AllBelow bound xs

pub AllBelow-select :
    (b : ℕ) (p : ℕ → Bool) (xs : List ℕ) → AllBelow b xs → AllBelow b (select p xs)
unfolding select
AllBelow-select b p [] h = tt
AllBelow-select b p (x ∷ xs) h = elim (Bool-cases (p x)) [
  | inl yes_ ↦ rw yes_ (h.0, AllBelow-select b p xs h.1)
  | inr no_ ↦ rw no_ (AllBelow-select b p xs h.1)
]

pub AllBelow-append : (b x : ℕ) (xs : List ℕ) → AllBelow b xs → x < b → AllBelow b (xs ++ x ∷ [])
AllBelow-append b x [] h l = (l, tt)
AllBelow-append b x (y ∷ ys) h l = (h.0, AllBelow-append b x ys h.1 l)

pub AllBelow-mono : (a b : ℕ) (xs : List ℕ) → AllBelow a xs → a ≤ b → AllBelow b xs
AllBelow-mono a b [] h l = tt
AllBelow-mono a b (y ∷ ys) h l = (omega arith, AllBelow-mono a b ys h.1 l)

-- A score after all others goes to the end.
pub zadd-AllBelow : (x : ℕ) (xs : List ℕ) → AllBelow x xs → zadd x xs ≡ xs ++ x ∷ []
unfolding zadd
zadd-AllBelow x [] h = refl
zadd-AllBelow x (y ∷ ys) h = ground (arith, zadd-AllBelow x ys)

-- Looking back from later keeps less.
pub select-is_recent :
    (window a b : ℕ) (xs : List ℕ)
    → a ≤ b
    → select (is_recent window b) (select (is_recent window a) xs) ≡ select (is_recent window b) xs
unfolding select
select-is_recent window a b [] h = refl
select-is_recent window a b (x ∷ xs) h = ground (arith, select-is_recent window a b xs)

-- When the window has passed since all of them, none is left.
pub select-is_recent_none :
    (window bound now : ℕ) (xs : List ℕ)
    → AllBelow bound xs
    → bound + window ≤ now + 1
    → select (is_recent window now) xs ≡ []
unfolding select
select-is_recent_none window bound now [] h l = refl
select-is_recent_none window bound now (x ∷ xs) h l =
    ground (arith, select-is_recent_none window bound now xs)
