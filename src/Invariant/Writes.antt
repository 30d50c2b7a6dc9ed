-- ===== src/Invariant/Writes.antt =====
-- The writes of src/repositories/ and their constraints.
use flyrank_capstone_meterin.Prelude.{
  ℕ, String, Bool, true, false, Option, none, some, List, [], ◌∷◌, ◌++◌, map, ◌≡◌, refl, ap, arith,
  inl, inr, ◌==◌, eq_iff, exists, select, update_where, Bool-cases,
}
use flyrank_capstone_meterin.Models.{Subscription, Tenant}
use flyrank_capstone_meterin.World.{Db}
use flyrank_capstone_meterin.Subscriptions.{has_tenant, has_plan, equals_text, stripe_id_taken}
use flyrank_capstone_meterin.Invariant.{keys_of, same_text, share, AllOf, Sound}
use flyrank_capstone_meterin.Invariant.Keys.{
  selected-KeysAt, keys-update_where, keys-overwrite, IsDistinct-append,
}

module _ {A : Type 0} where
  AllOf-mono :
      (p q : A → Bool) (xs : List A) → ((x : A) → p x ≡ true → q x ≡ true) → AllOf p xs → AllOf q xs
  AllOf-mono p q [] f h = tt
  AllOf-mono p q (x ∷ xs) f (here, h) = (f x here, AllOf-mono p q xs f h)

  pub AllOf-append :
      (p : A → Bool) (xs : List A) (y : A) → AllOf p xs → p y ≡ true → AllOf p (xs ++ y ∷ [])
  AllOf-append p [] y h new = (new, tt)
  AllOf-append p (x ∷ xs) y (here, h) new = (here, AllOf-append p xs y h new)

  AllOf-update_where :
      (p q : A → Bool) (f : A → A) (xs : List A)
      → ((x : A) → p (f x) ≡ true)
      → AllOf p xs
      → AllOf p (update_where q f xs)
  unfolding update_where
  AllOf-update_where p q f [] g h = tt
  AllOf-update_where p q f (x ∷ xs) g (here, h) = elim (Bool-cases (q x)) [
    | inl yes_ ↦ rw yes_ (g x, AllOf-update_where p q f xs g h)
    | inr no_ ↦ rw no_ (here, AllOf-update_where p q f xs g h)
  ]

map-append :
    (xs : List Subscription) (row : Subscription)
    → map keys_of (xs ++ row ∷ []) ≡ map keys_of xs ++ keys_of row ∷ []
map-append [] row = refl
map-append (x ∷ xs) row = ap (λ ks. keys_of x ∷ ks) (map-append xs row)

-- No subscription has this id.
abbrev pub IsFresh : ℕ → Db → Type 0
IsFresh n d = exists (λ (s : Subscription). s.id == n) d.subscriptions ≡ false

abbrev with_subscriptions : List Subscription → Db → Db
with_subscriptions rows d = record d { subscriptions = rows }

-- Rows with the same keys, and plans that exist.
Sound-rows :
    (d : Db) (rows : List Subscription)
    → Sound d
    → map keys_of rows ≡ map keys_of d.subscriptions
    → AllOf (λ (s : Subscription). has_plan s.plan_id d) rows
    → Sound (with_subscriptions rows d)
unfolding has_tenant has_plan
Sound-rows d rows s same known = record {
  usage_keyed = s.usage_keyed;
  usage_tenants = s.usage_tenants;
  distinct = rw same s.distinct;
  tenants = rw same s.tenants;
  plans = known;
}

-- A row that was read and is written back with its keys and with a plan that exists.
pub Sound-update :
    (d : Db) (p : Subscription → Bool) (old row : Subscription) (rest : List Subscription)
    → Sound d
    → select p d.subscriptions ≡ old ∷ rest
    → keys_of row ≡ keys_of old
    → has_plan row.plan_id d ≡ true
    → Sound (
        with_subscriptions
          (update_where (λ (s : Subscription). s.id == row.id) (λ _. row) d.subscriptions)
          d)
Sound-update d p old row rest s read same known =
    Sound-rows d _ s
      (keys-update_where old row d.subscriptions same
        (selected-KeysAt p old d.subscriptions rest s.distinct read))
      (AllOf-update_where _ _ _ d.subscriptions (λ x. known) s.plans)

pub Sound-overwrite :
    (d : Db) (p : Subscription → Bool) (f : Subscription → Subscription)
    → Sound d
    → ((x : Subscription) → keys_of (f x) ≡ keys_of x)
    → ((x : Subscription) → has_plan (f x).plan_id d ≡ true)
    → Sound (with_subscriptions (update_where p f d.subscriptions) d)
Sound-overwrite d p f s same known =
    Sound-rows d _ s (keys-overwrite p f d.subscriptions same)
      (AllOf-update_where _ p f d.subscriptions known s.plans)

differs : (a : String) (o : Option String) → equals_text o a ≡ false → same_text (some a) o ≡ false
unfolding equals_text same_text
differs a none h = refl
differs a (some b) h = ground (arith, eq_iff a b, eq_iff b a)

not_taken :
    (o : Option String) (x : Subscription) (xs : List Subscription)
    → stripe_id_taken o (x ∷ xs) ≡ false
    → (same_text o x.stripe_subscription_id ≡ false) × (stripe_id_taken o xs ≡ false)
unfolding stripe_id_taken exists same_text
not_taken none x xs h = (refl, refl)
not_taken (some a) x xs h = (differs a x.stripe_subscription_id (ground arith), ground arith)

-- The tests of an INSERT, with a new id, exclude a shared key.
unshared :
    (i t : ℕ) (o : Option String) (xs : List Subscription)
    → exists (λ (s : Subscription). s.id == i) xs ≡ false
    → exists (λ (s : Subscription). s.tenant_id == t) xs ≡ false
    → stripe_id_taken o xs ≡ false
    → exists (share (i, t, o)) (map keys_of xs) ≡ false
unfolding exists
unshared i t o [] hi ht hs = refl
unshared i t o (x ∷ xs) hi ht hs =
    let (apart, free) = not_taken o x xs hs in
    let others = unshared i t o xs (ground arith) (ground arith) free in
    ground (arith, apart, others)

pub Sound-insert :
    (d : Db) (row : Subscription)
    → Sound d
    → IsFresh row.id d
    → exists (λ (s : Subscription). s.tenant_id == row.tenant_id) d.subscriptions ≡ false
    → stripe_id_taken row.stripe_subscription_id d.subscriptions ≡ false
    → has_tenant row.tenant_id d ≡ true
    → has_plan row.plan_id d ≡ true
    → Sound (with_subscriptions (d.subscriptions ++ row ∷ []) d)
unfolding has_tenant has_plan
Sound-insert d row s fresh tenant stripe known plan = record {
  usage_keyed = s.usage_keyed;
  usage_tenants = s.usage_tenants;
  distinct = rw map-append (
      IsDistinct-append (keys_of row) (map keys_of d.subscriptions) s.distinct (
        unshared row.id row.tenant_id row.stripe_subscription_id d.subscriptions fresh tenant
          stripe));
  tenants =
      rw map-append (AllOf-append _ (map keys_of d.subscriptions) (keys_of row) s.tenants known);
  plans = AllOf-append _ d.subscriptions row s.plans plan;
}

-- Tenants that only grow, or change in other columns.
pub Sound-tenants :
    (d : Db) (rows : List Tenant)
    → Sound d
    → ((t : ℕ) → has_tenant t d ≡ true → has_tenant t (record d { tenants = rows }) ≡ true)
    → Sound (record d { tenants = rows })
unfolding has_plan
Sound-tenants d rows s grows = record {
  usage_keyed = s.usage_keyed;
  usage_tenants = AllOf-mono _ _ d.usage_events (λ e. grows e.tenant_id) s.usage_tenants;
  distinct = s.distinct;
  tenants = AllOf-mono _ _ (map keys_of d.subscriptions) (λ k. grows k.1) s.tenants;
  plans = s.plans;
}
