-- ===== src/Invariant/Accounts.antt =====
-- The handlers of an account on sound tables (src/api/v1/checkout.py, billing.py, subscription.py).
use flyrank_capstone_meterin.Prelude.{
  ℕ, String, Bool, not, ◌&&◌, ◌||◌, Option, none, some, List, [], ◌∷◌, ◌≡◌, refl, inl, inr, ◌==◌,
  str_eq, exists, update_where, Bool-cases,
}
use flyrank_capstone_meterin.Result.{Result, ok}
use flyrank_capstone_meterin.Errors.{Exn}
use flyrank_capstone_meterin.Models.{Tenant}
use flyrank_capstone_meterin.World.{Db, commit, rollback}
use flyrank_capstone_meterin.Subscriptions.{has_tenant, equals_text}
use flyrank_capstone_meterin.Handlers.Checkout.{truthy}
use flyrank_capstone_meterin.Auth.{Loaded}
use flyrank_capstone_meterin.Account.{
  AccountEnv, write_customer, commit_customer, ensure_customer, request_session,
  create_checkout_session, portal_for, cancel_for,
}
use flyrank_capstone_meterin.Invariant.{Sound}
use flyrank_capstone_meterin.Invariant.Writes.{Sound-tenants}
use flyrank_capstone_meterin.Invariant.Triple.{Triple, Triple-then, Triple-lift, triple_rules}

exists-update_where :
    {A : Type 0} (q p : A → Bool) (f : A → A) (xs : List A)
    → ((x : A) → q (f x) ≡ q x)
    → exists q (update_where p f xs) ≡ exists q xs
unfolding exists update_where
exists-update_where q p f [] same = refl
exists-update_where q p f (x ∷ xs) same = elim (Bool-cases (p x)) [
  | inl yes_ ↦ rw (yes_, same x, exists-update_where q p f xs same) refl
  | inr no_ ↦ rw (no_, exists-update_where q p f xs same) refl
]

write_customer-Triple :
    (id : ℕ) (customer : String) → Triple Sound Sound (write_customer id customer)
unfolding write_customer rollback has_tenant
write_customer-Triple id customer = record {
  at = λ w s hc.
      elim (Bool-cases (
        exists (λ (t : Tenant). not (t.id == id) && equals_text t.stripe_customer_id customer)
          w.db.tenants)) [
            | inl taken ↦ rw taken (hc, hc)
            | inr free ↦ rw free (
              Sound-tenants w.db _ s (λ t h.
                  rw
                    (exists-update_where (λ (x : Tenant). x.id == t) (λ (x : Tenant). x.id == id)
                      (λ x. record x { stripe_customer_id = some customer }) w.db.tenants
                      (λ x. refl))
                    h),
              hc,
            )
          ];
}

commit-Triple : {A : Type 0} (r : Result Exn A) → Triple {A = A} Sound Sound (λ w. (r, commit w))
unfolding commit
commit-Triple r = record { at = λ w s hc. (s, s) }

commit_customer-Triple :
    (l : Loaded) (customer : String) → Triple Sound Sound (commit_customer l customer)
unfolding commit_customer
commit_customer-Triple l customer = record {
  at = λ w s hc. elim (Bool-cases l.persistent) [
    | inl held ↦ rw held (
        (Triple-then _ _ (write_customer-Triple l.row.id customer) (λ v. commit-Triple (ok tt))).at
          w s hc)
    | inr detached ↦ rw detached (unfold commit in (s, s))
  ];
}

ensure_customer-Triple :
    (env : AccountEnv) (l : Loaded) (found : Option String)
    → Triple Sound Sound (ensure_customer env l found)
unfolding ensure_customer
ensure_customer-Triple env l (some c) = search triple_rules
ensure_customer-Triple env l none = search (triple_rules, commit_customer-Triple)

pub session-Triple :
    (env : AccountEnv) (plan : String) (l : Loaded)
    → Triple Sound Sound (create_checkout_session env plan l)
unfolding create_checkout_session
session-Triple env plan l = record {
  at = λ w s hc. elim (Bool-cases (str_eq plan "free" || str_eq plan "pro")) [
    | inl good ↦ rw good (
        (Triple-then _ _ (ensure_customer-Triple env l (truthy l.row.stripe_customer_id))
            (λ customer. Triple-lift (request_session env l plan customer))).at
          w s hc)
    | inr bad ↦ rw bad (s, hc)
  ];
}

module _ {P : Db → Type 0} where
  pub portal_for-Triple :
      (env : AccountEnv) (found : Option String) → Triple P P (portal_for env found)
  unfolding portal_for
  portal_for-Triple env none = search triple_rules
  portal_for-Triple env (some c) = search triple_rules

  pub cancel_for-Triple : (found : Option String) → Triple P P (cancel_for found)
  unfolding cancel_for
  cancel_for-Triple none = search triple_rules
  cancel_for-Triple (some c) = search triple_rules
