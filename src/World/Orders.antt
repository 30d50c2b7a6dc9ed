-- ===== src/World/Orders.antt =====
-- The same rows in another order (src/models/), and what is read of them one table at a time.
use mathlib.Core.List.{Permᴰ}
use flyrank_capstone_meterin.Prelude.{
  ◌≡◌, refl, sym, ◌∙◌, Bool, true, false, some, List, [], ◌∷◌, if◌then◌else◌,
}
use flyrank_capstone_meterin.Result.{ok, err}
use flyrank_capstone_meterin.Errors.{multiple_results}
use flyrank_capstone_meterin.World.{World, scalar_one_or_none}

-- The same rows in the tables that are read, each table in an order of its own.
pub record Reorders (w w' : World) : Type 0 where
  pub plans : Permᴰ w.db.plans w'.db.plans
  pub subscriptions : Permᴰ w.db.subscriptions w'.db.subscriptions
  pub usage_events : Permᴰ w.db.usage_events w'.db.usage_events

is_empty : {A : Type 0} → List A → Bool
is_empty [] = true
is_empty (x ∷ xs) = false

is_empty-Permᴰ : {A : Type 0} {xs ys : List A} → Permᴰ xs ys → is_empty xs ≡ is_empty ys
unfolding is_empty
is_empty-Permᴰ Permᴰ.nil = refl
is_empty-Permᴰ (Permᴰ.cons e d) = refl
is_empty-Permᴰ (Permᴰ.swap e₁ e₂) = refl
is_empty-Permᴰ (Permᴰ.trans d₁ d₂) = is_empty-Permᴰ d₁ ∙ is_empty-Permᴰ d₂

first_of :
    {A : Type 0} (x : A) (xs : List A)
    → scalar_one_or_none (x ∷ xs) ≡ (if is_empty xs then ok (some x) else err multiple_results)
unfolding is_empty scalar_one_or_none
first_of x [] = refl
first_of x (y ∷ xs) = refl

-- One row, none or more than one: the order does not matter.
pub scalar-Permᴰ :
    {A : Type 0} {xs ys : List A} → Permᴰ xs ys → scalar_one_or_none xs ≡ scalar_one_or_none ys
scalar-Permᴰ Permᴰ.nil = refl
scalar-Permᴰ (Permᴰ.cons {a} {b} {l₁} {l₂} e d) =
    first_of a l₁ ∙ rw (e, is_empty-Permᴰ d) refl ∙ sym (first_of b l₂)
scalar-Permᴰ (Permᴰ.swap e₁ e₂) = unfold scalar_one_or_none in refl
scalar-Permᴰ (Permᴰ.trans d₁ d₂) = scalar-Permᴰ d₁ ∙ scalar-Permᴰ d₂
