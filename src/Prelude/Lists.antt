-- ===== src/Prelude/Lists.antt =====
-- Rows of a table: selecting by a Boolean test, updating in place, and sums of a column.
use Prim.Native.Nat.{ℕ, suc, ◌+◌}
use mathlib.Core.Path.{◌≡◌, refl, sym, ◌∙◌}
use mathlib.Core.Logic.{inl, inr}
use mathlib.Core.Bool.{Bool, true, false, false≢true}
use mathlib.Core.List.{List, [], ◌∷◌, ◌++◌}
use native.Mathlib.Omega.{arith}
use flyrank_capstone_meterin.Prelude.Tests.{if◌then◌else◌, Bool-cases}

module _ {ℓ} {A : Type ℓ} where
  abbrev pub length : List A → ℕ
  length [] = 0
  length (x ∷ xs) = suc (length xs)

  -- `SELECT * FROM rows WHERE p`, in the order of insertion.
  unfoldable pub select : (A → Bool) → List A → List A
  select p [] = []
  select p (x ∷ xs) = let rest = select p xs in if p x then x ∷ rest else rest

  unfoldable pub exists : (A → Bool) → List A → Bool
  exists p [] = false
  exists p (x ∷ xs) = let rest = exists p xs in if p x then true else rest

  -- `UPDATE rows SET f WHERE p`.
  unfoldable pub update_where : (A → Bool) → (A → A) → List A → List A
  update_where p f [] = []
  update_where p f (x ∷ xs) = (if p x then f x else x) ∷ update_where p f xs

  -- `SELECT coalesce(sum(f), 0) FROM rows WHERE p`.
  unfoldable pub sum_where : (A → Bool) → (A → ℕ) → List A → ℕ
  sum_where p f [] = 0
  sum_where p f (x ∷ xs) = (if p x then f x else 0) + sum_where p f xs

  pub select-append :
      (p : A → Bool) (xs ys : List A) → select p (xs ++ ys) ≡ select p xs ++ select p ys
  unfolding select
  select-append p [] ys = refl
  select-append p (x ∷ xs) ys = ground (arith, select-append p xs ys)

  pub exists-append :
      (p : A → Bool) (xs : List A) (y : A)
      → exists p (xs ++ y ∷ []) ≡ (if exists p xs then true else p y)
  unfolding exists
  exists-append p [] y = ground arith
  exists-append p (x ∷ xs) y = ground (arith, exists-append p xs y)

  pub sum_where-append :
      (p : A → Bool) (f : A → ℕ) (xs : List A) (y : A)
      → sum_where p f (xs ++ y ∷ []) ≡ sum_where p f xs + (if p y then f y else 0)
  unfolding sum_where
  sum_where-append p f [] y = omega arith
  sum_where-append p f (x ∷ xs) y = omega (arith, sum_where-append p f xs y)

  -- Nothing is selected exactly when no row passes the test.
  pub select-none : (p : A → Bool) (xs : List A) → exists p xs ≡ false → select p xs ≡ []
  unfolding select exists
  select-none p [] h = refl
  select-none p (x ∷ xs) h = ground (arith, select-none p xs)

  pub exists-none : (p : A → Bool) (xs : List A) → select p xs ≡ [] → exists p xs ≡ false
  unfolding select exists
  exists-none p [] h = refl
  exists-none p (x ∷ xs) h = ground (arith, exists-none p xs)

  pub exists_of_select :
      (p : A → Bool) (xs : List A) {y : A} {ys : List A}
      → select p xs ≡ y ∷ ys
      → (p y ≡ true) × (exists p xs ≡ true)
  unfolding select exists
  exists_of_select p [] h = cc
  exists_of_select p (x ∷ xs) {y} {ys} h = ground (arith, exists_of_select p xs {y = y} {ys = ys})

  pub length-update_where :
      (p : A → Bool) (f : A → A) (xs : List A) → length (update_where p f xs) ≡ length xs
  unfolding update_where
  length-update_where p f [] = refl
  length-update_where p f (x ∷ xs) = omega (arith, length-update_where p f xs)

  -- A sum over no selected row is 0.
  pub sum_where-none :
      (p : A → Bool) (f : A → ℕ) (xs : List A) → exists p xs ≡ false → sum_where p f xs ≡ 0
  unfolding sum_where exists
  sum_where-none p f [] h = refl
  sum_where-none p f (x ∷ xs) h = ground (arith, sum_where-none p f xs)

module _ {ℓ} {A : Type ℓ} (p q k : A → Bool) (p_in_q : (x : A) → p x ≡ true → q x ≡ true)
    (row : A) where
  not_in : (x : A) → q x ≡ false → p x ≡ false
  not_in x h = elim (Bool-cases (p x)) [
    | inl e ↦ absurd (false≢true (sym h ∙ p_in_q x e))
    | inr e ↦ e
  ]

  -- Overwriting rows where none passes `q`, by a row that fails `p`, leaves none that passes `p`.
  exists-overwrite_none :
      (xs : List A)
      → p row ≡ false
      → exists q xs ≡ false
      → exists p (update_where k (λ _. row) xs) ≡ false
  unfolding exists update_where
  exists-overwrite_none [] pr h = refl
  exists-overwrite_none (x ∷ xs) pr h = ground (arith, pr, exists-overwrite_none xs pr, not_in x)

  -- Where nothing is overwritten and nothing passes `q`, nothing passes `p`.
  select-overwrite_none :
      (xs : List A)
      → select k xs ≡ []
      → select q xs ≡ []
      → select p (update_where k (λ _. row) xs) ≡ []
  unfolding update_where select
  select-overwrite_none [] hk hq = refl
  select-overwrite_none (x ∷ xs) hk hq = ground (arith, not_in x, select-overwrite_none xs)

  -- Overwriting the only row that passes `q` by one that fails `p` leaves none that passes `p`.
  pub exists-overwrite :
      (xs : List A) (s : A)
      → p row ≡ false
      → k s ≡ true
      → select q xs ≡ s ∷ []
      → exists p (update_where k (λ _. row) xs) ≡ false
  unfolding exists update_where select
  exists-overwrite [] s pr ks h = refl
  exists-overwrite (x ∷ xs) s pr ks h = ground (
    arith,
    pr,
    ks,
    not_in x,
    exists-none q xs,
    exists-overwrite_none xs pr,
    exists-overwrite xs s pr ks,
  )

  -- Overwriting the only row that passes `q`, found as the only one that passes `k`, by a row that
  -- passes `p` selects just the new row.
  pub select-overwrite :
      (xs : List A) (s : A)
      → p row ≡ true
      → select k xs ≡ s ∷ []
      → select q xs ≡ s ∷ []
      → select p (update_where k (λ _. row) xs) ≡ row ∷ []
  unfolding update_where select
  select-overwrite [] s pr hk h = absurd (cc)
  select-overwrite (x ∷ xs) s pr hk h =
      let (ks, some_k) = exists_of_select k (x ∷ xs) hk in
      let (qs, some_q) = exists_of_select q (x ∷ xs) h in
      ground (arith, pr, ks, qs, not_in x, select-overwrite_none xs, select-overwrite xs s pr)
