-- ===== src/Prelude/Orders.antt =====
-- Rows in another order: what selecting, testing and summing do not see of it.
use mathlib.Core.Path.{◌≡◌, refl, ◌∙◌}
use mathlib.Core.Logic.{inl, inr}
use mathlib.Core.Bool.{Bool}
use mathlib.Core.List.{List, Permᴰ}
use mathlib.Core.List.Permᴰ as Orders
use Prim.Native.Nat.{ℕ}
use native.Mathlib.Omega.{arith}
use flyrank_capstone_meterin.Prelude.Tests.{Bool-cases}
use flyrank_capstone_meterin.Prelude.Lists.{select, exists, sum_where}

module _ {A : Type 0} where
  pub exists-Permᴰ : (p : A → Bool) {xs ys : List A} → Permᴰ xs ys → exists p xs ≡ exists p ys
  unfolding exists
  exists-Permᴰ p Permᴰ.nil = refl
  exists-Permᴰ p (Permᴰ.cons e d) = ground (arith, exists-Permᴰ p d)
  exists-Permᴰ p (Permᴰ.swap e₁ e₂) = ground arith
  exists-Permᴰ p (Permᴰ.trans d₁ d₂) = exists-Permᴰ p d₁ ∙ exists-Permᴰ p d₂

  pub sum_where-Permᴰ :
      (p : A → Bool) (f : A → ℕ) {xs ys : List A}
      → Permᴰ xs ys
      → sum_where p f xs ≡ sum_where p f ys
  unfolding sum_where
  sum_where-Permᴰ p f Permᴰ.nil = refl
  sum_where-Permᴰ p f (Permᴰ.cons e d) = ground (arith, sum_where-Permᴰ p f d)
  sum_where-Permᴰ p f (Permᴰ.swap e₁ e₂) = ground arith
  sum_where-Permᴰ p f (Permᴰ.trans d₁ d₂) = sum_where-Permᴰ p f d₁ ∙ sum_where-Permᴰ p f d₂

  pub select-Permᴰ :
      (p : A → Bool) {xs ys : List A} → Permᴰ xs ys → Permᴰ (select p xs) (select p ys)
  unfolding select
  select-Permᴰ p Permᴰ.nil = Permᴰ.nil
  select-Permᴰ p (Permᴰ.cons {a} {b} e d) =
      let rest = select-Permᴰ p d in
      elim (Bool-cases (p b)) [
        | inl passes ↦ rw (e, passes) (Permᴰ.cons refl rest)
        | inr fails ↦ rw (e, fails) rest
      ]
  select-Permᴰ p (Permᴰ.swap {a} {b} {a'} {b'} {l} e₁ e₂) = elim (Bool-cases (p b')) [
    | inl one ↦ elim (Bool-cases (p a')) [
      | inl both ↦ rw (e₁, e₂, one, both) (Permᴰ.swap refl refl)
      | inr only ↦ rw (e₁, e₂, one, only) (Orders.refl _)
    ]
    | inr other ↦ rw (e₁, e₂, other) (Orders.refl _)
  ]
  select-Permᴰ p (Permᴰ.trans d₁ d₂) = Permᴰ.trans (select-Permᴰ p d₁) (select-Permᴰ p d₂)
