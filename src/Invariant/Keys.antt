-- ===== src/Invariant/Keys.antt =====
-- The keys of the subscriptions under the writes of src/repositories/subscription_repo.py.
use flyrank_capstone_meterin.Prelude.{
  Bool, false, none, some, List, [], ◌∷◌, ◌++◌, map, ◌≡◌, ◌≢◌, refl, sym, ap, ◌∙◌, arith, inl, inr,
  ◌==◌, eq_iff, ==_iff, exists, exists-append, select, update_where, Bool-cases,
}
use flyrank_capstone_meterin.Models.{Subscription}
use flyrank_capstone_meterin.Invariant.{Keys, keys_of, same_text, share, IsDistinct}

-- The rows with a row's id have its keys.
abbrev pub KeysAt : Subscription → List Subscription → Type 0
KeysAt s [] = Unit
KeysAt s (x ∷ xs) = (x.id ≡ s.id → keys_of x ≡ keys_of s) × KeysAt s xs

unshared-KeysAt :
    (s : Subscription) (xs : List Subscription)
    → exists (share (keys_of s)) (map keys_of xs) ≡ false
    → KeysAt s xs
unfolding exists
unshared-KeysAt s [] h = tt
unshared-KeysAt s (x ∷ xs) h = (λ same. ground arith, unshared-KeysAt s xs (ground arith))

unshared_selected :
    (p : Subscription → Bool) (x s : Subscription) (xs rest : List Subscription)
    → exists (share (keys_of x)) (map keys_of xs) ≡ false
    → select p xs ≡ s ∷ rest
    → x.id ≢ s.id
unfolding exists select
unshared_selected p x s [] rest h found same = cc
unshared_selected p x s (y ∷ ys) rest h found same = elim (Bool-cases (p y)) [
  | inl yes_ ↦
      let here : y ≡ s = cc (rw yes_ at found) in
      let differs : (x.id == y.id) ≡ false = ground arith in
      ground (arith, ap (λ (z : Subscription). z.id) here)
  | inr no_ ↦ unshared_selected p x s ys rest (ground arith) (rw no_ at found) same
]

pub selected-KeysAt :
    (p : Subscription → Bool) (s : Subscription) (xs rest : List Subscription)
    → IsDistinct (map keys_of xs)
    → select p xs ≡ s ∷ rest
    → KeysAt s xs
unfolding select
selected-KeysAt p s [] rest d found = tt
selected-KeysAt p s (x ∷ xs) rest (alone, d) found = elim (Bool-cases (p x)) [
  | inl yes_ ↦
      let here : x ≡ s = cc (rw yes_ at found) in
      (λ same. ap keys_of here, rw here at (unshared-KeysAt x xs alone))
  | inr no_ ↦
      let found' = rw no_ at found in
      (
        λ same. absurd (unshared_selected p x s xs rest alone found' same),
        selected-KeysAt p s xs rest d found',
      )
]

-- An UPDATE of a row that keeps its keys keeps all keys.
pub keys-update_where :
    (s row : Subscription) (xs : List Subscription)
    → keys_of row ≡ keys_of s
    → KeysAt s xs
    → map keys_of (update_where (λ (x : Subscription). x.id == row.id) (λ _. row) xs)
      ≡ map keys_of xs
unfolding update_where
keys-update_where s row [] same h = refl
keys-update_where s row (x ∷ xs) same (here, h) = elim (Bool-cases (x.id == row.id)) [
  | inl yes_ ↦
      let at : x.id ≡ s.id = (==_iff x.id row.id).0 yes_ ∙ ap (λ (k : Keys). k.0) same in
      let head : keys_of row ≡ keys_of x = same ∙ sym (here at) in
      let tail = keys-update_where s row xs same h in
      rw yes_ (
        ap
          (λ k. k ∷ map keys_of (update_where (λ (x : Subscription). x.id == row.id) (λ _. row) xs))
          head
        ∙ ap (λ ks. keys_of x ∷ ks) tail)
  | inr no_ ↦ rw no_ (ap (λ ks. keys_of x ∷ ks) (keys-update_where s row xs same h))
]

pub keys-overwrite :
    (p : Subscription → Bool) (f : Subscription → Subscription) (xs : List Subscription)
    → ((x : Subscription) → keys_of (f x) ≡ keys_of x)
    → map keys_of (update_where p f xs) ≡ map keys_of xs
unfolding update_where
keys-overwrite p f [] same = refl
keys-overwrite p f (x ∷ xs) same = elim (Bool-cases (p x)) [
  | inl yes_ ↦ rw yes_ (
      ap (λ k. k ∷ map keys_of (update_where p f xs)) (same x)
      ∙ ap (λ ks. keys_of x ∷ ks) (keys-overwrite p f xs same))
  | inr no_ ↦ rw no_ (ap (λ ks. keys_of x ∷ ks) (keys-overwrite p f xs same))
]

share_symm : (j k : Keys) → share j k ≡ share k j
unfolding same_text
share_symm (i, t, some a) (i', t', some b) = ground (arith, eq_iff a b, eq_iff b a)
share_symm (i, t, some a) (i', t', none) = ground arith
share_symm (i, t, none) (i', t', some b) = ground arith
share_symm (i, t, none) (i', t', none) = ground arith

-- An INSERT of a row that shares none of its keys.
pub IsDistinct-append :
    (k : Keys) (ks : List Keys)
    → IsDistinct ks
    → exists (share k) ks ≡ false
    → IsDistinct (ks ++ k ∷ [])
unfolding exists
IsDistinct-append k [] d h = (refl, tt)
IsDistinct-append k (j ∷ js) (alone, d) h =
    let free : share k j ≡ false = ground arith in
    let others : exists (share k) js ≡ false = ground arith in
    (rw (exists-append, alone, share_symm j k) free, IsDistinct-append k js d others)
