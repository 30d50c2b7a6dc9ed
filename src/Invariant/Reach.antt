-- ===== src/Invariant/Reach.antt =====
-- The application of src/main.py over any sequence of requests.
use flyrank_capstone_meterin.Prelude.{
  ℕ, String, Bool, true, false, ◌&&◌, Option, none, some, is_some, List, [], ◌∷◌, map, ◌≡◌, refl,
  ap, inl, inr, arith, ◌==◌, eq_iff, eq_refl, exists, select, Bool-cases,
}
use flyrank_capstone_meterin.Result.{ok}
use flyrank_capstone_meterin.Models.{Subscription}
use flyrank_capstone_meterin.Cache.{Ticks, Redis}
use flyrank_capstone_meterin.World.{World, App, scalar_one_or_none}
use flyrank_capstone_meterin.Subscriptions.{
  has_stripe_id, equals_text, matches_stripe_id, get_by_stripe_id, get_active_by_tenant, is_metered,
}
use flyrank_capstone_meterin.Handlers.Checkout.{truthy}
use flyrank_capstone_meterin.RateLimit.{RateLimiter, is_allowed}
use flyrank_capstone_meterin.Http.{HttpRequest, Response}
use flyrank_capstone_meterin.Http.Exceptions.{with_handlers}
use flyrank_capstone_meterin.Http.Middleware.{
  limit_rate, check_idempotency_key, require_key, needs_key, rate_key, with_request_id, middleware,
  create_app,
}
use flyrank_capstone_meterin.Http.Router.{
  Service, Endpoint, run_or_elsewhere, router, routes, find_route, serve,
}
use flyrank_capstone_meterin.Invariant.{Sound, keys_of, share, same_text, IsDistinct}
use flyrank_capstone_meterin.Invariant.Writes.{IsFresh}
use flyrank_capstone_meterin.Invariant.Repos.{Ready}
use flyrank_capstone_meterin.Invariant.Requests.{Safe, then_pure-Safe, run_endpoint-Safe}

module _ {A : Type 0} (n : ℕ) where
  with_handlers-Safe :
      (s : Service) (m : App (Response A)) → Safe n m → Safe n (with_handlers s.meter.describe m)
  unfolding with_handlers
  with_handlers-Safe s m t = record { at = λ w h hc. t.at w h hc }

  limit_rate-Safe :
      (l : RateLimiter) (t : Ticks) (q : HttpRequest) (m : App (Response A))
      → Safe n m
      → Safe n (limit_rate l t q m)
  unfolding limit_rate
  limit_rate-Safe l t q m safe = record {
    at = λ w h hc.
        let (answer, r) = is_allowed l t (rate_key q) w.redis in
        elim (Bool-cases answer.0) [
          | inl yes_ ↦ rw yes_ (safe.at (record w { redis = r }) h hc)
          | inr no_ ↦ rw no_ (h, hc.0)
        ];
  }

  check_key-Safe :
      (parse : String → Option ℕ) (key : Option String) (m : App (Response A))
      → Safe n m
      → Safe n (check_idempotency_key parse key m)
  unfolding check_idempotency_key
  check_key-Safe parse none m safe = record { at = λ w h hc. (h, hc.0) }
  check_key-Safe parse (some key) m safe = record {
    at = λ w h hc. elim (Bool-cases (is_some (parse key))) [
      | inl yes_ ↦ rw yes_ (safe.at w h hc)
      | inr no_ ↦ rw no_ (h, hc.0)
    ];
  }

  require_key-Safe :
      (parse : String → Option ℕ) (q : HttpRequest) (m : App (Response A))
      → Safe n m
      → Safe n (require_key parse q m)
  unfolding require_key
  require_key-Safe parse q m safe = record {
    at = λ w h hc. elim (Bool-cases (needs_key q)) [
      | inl yes_ ↦ rw yes_ ((check_key-Safe parse (truthy q.idempotency_key) m safe).at w h hc)
      | inr no_ ↦ rw no_ (safe.at w h hc)
    ];
  }

-- What Starlette and FastAPI answer themselves does not touch the tables.
abbrev pub IsElsewhere : Service → Type 0
IsElsewhere s =
    (q : HttpRequest) (w : World)
    → ((s.elsewhere q w).1.db ≡ w.db) × ((s.elsewhere q w).1.committed ≡ w.committed)

module _ (s : Service) (elsewhere : IsElsewhere s) (q : HttpRequest) where
  route-Safe :
      (found : Option Endpoint) → Safe s.stripe.new_subscription_id (run_or_elsewhere s q found)
  unfolding run_or_elsewhere
  route-Safe none = record { at = λ w h hc. let (d, c) = elsewhere q w in rw (d, c) (h, hc.0) }
  route-Safe (some e) = run_endpoint-Safe s q e

  serve-Sound :
      (w : World)
      → Sound w.db
      → Ready s.stripe.new_subscription_id w.committed
      → Sound (serve s q w).1.db × Sound (serve s q w).1.committed
  unfolding serve create_app middleware with_request_id router
  serve-Sound w h hc =
      (then_pure-Safe s.stripe.new_subscription_id _ _ (
          require_key-Safe s.stripe.new_subscription_id s.auth.parse_uuid q _ (
            limit_rate-Safe s.stripe.new_subscription_id s.limiter s.moment.ticks q _ (
              with_handlers-Safe s.stripe.new_subscription_id s _
                (route-Safe (find_route q.method q.path routes)))))).at
        w h hc

-- One step of the system: a request, with ids that are new, or any change of what Redis holds.
pub data Step : World → World → Type 0 where
  request :
      (s : Service) (q : HttpRequest) (w : World)
      → IsElsewhere s
      → IsFresh s.stripe.new_subscription_id w.committed
      → Step w (serve s q w).1
  redis_changes : (w : World) (r : Redis) → Step w (record w { redis = r })

pub data Reaches (u : World) : World → Type 0 where
  here : Reaches u u
  next : {v w : World} → Reaches u v → Step v w → Reaches u w

abbrev pub IsSound : World → Type 0
IsSound w = Sound w.db × Sound w.committed

Step-IsSound : {v w : World} → Step v w → IsSound v → IsSound w
Step-IsSound (request s q v elsewhere fresh) (h, hc) = serve-Sound s elsewhere q v h (hc, fresh)
Step-IsSound (redis_changes v r) (h, hc) = (h, hc)

-- From sound tables, any sequence of requests to any endpoint, answered or failed, and of changes of
-- what Redis holds, leads to sound tables: usage events with distinct keys and known tenants, and
-- subscriptions with distinct ids, tenants and Stripe ids, whose tenants and plans exist. The id for
-- a new subscription must be new at each request, and paths of no router must leave the tables alone.
pub Reaches-IsSound : {u w : World} → IsSound u → Reaches u w → IsSound w
Reaches-IsSound h here = h
Reaches-IsSound h (next r step) = Step-IsSound step (Reaches-IsSound h r)

none_selected :
    (p : Subscription → Bool) (x : Subscription) (ys : List Subscription)
    → ((a b : Subscription) → p a ≡ true → p b ≡ true → share (keys_of a) (keys_of b) ≡ true)
    → p x ≡ true
    → exists (share (keys_of x)) (map keys_of ys) ≡ false
    → select p ys ≡ []
unfolding select exists
none_selected p x [] shared hx free = refl
none_selected p x (y ∷ ys) shared hx free = elim (Bool-cases (p y)) [
  | inl yes_ ↦ let both = shared x y hx yes_ in absurd (cc (rw both at free))
  | inr no_ ↦ rw no_ (none_selected p x ys shared hx (ground arith))
]

-- At most one row where two that are selected would share a key.
select_one :
    (p : Subscription → Bool) (xs : List Subscription)
    → ((a b : Subscription) → p a ≡ true → p b ≡ true → share (keys_of a) (keys_of b) ≡ true)
    → IsDistinct (map keys_of xs)
    → (found : Option Subscription) × (scalar_one_or_none (select p xs) ≡ ok found)
unfolding scalar_one_or_none select
select_one p [] shared d = (none, refl)
select_one p (x ∷ xs) shared (alone, d) = elim (Bool-cases (p x)) [
  | inl yes_ ↦ (some x, rw (yes_, none_selected p x xs shared yes_ alone) refl)
  | inr no_ ↦ rw no_ (select_one p xs shared d)
]

same_tenant :
    (t : ℕ) (a b : Subscription)
    → (a.tenant_id == t && is_metered a.status) ≡ true
    → (b.tenant_id == t && is_metered b.status) ≡ true
    → share (keys_of a) (keys_of b) ≡ true
same_tenant t a b ha hb = ground arith

equals_text-some : (o : Option String) (id : String) → equals_text o id ≡ true → o ≡ some id
unfolding equals_text
equals_text-some none id h = cc
equals_text-some (some s) id h = ap some ((eq_iff s id).0 h)

same_stripe_id :
    (id : String) (a b : Subscription)
    → has_stripe_id id a ≡ true
    → has_stripe_id id b ≡ true
    → share (keys_of a) (keys_of b) ≡ true
unfolding same_text
same_stripe_id id a b ha hb =
    rw
      (
        equals_text-some a.stripe_subscription_id id ha,
        equals_text-some b.stripe_subscription_id id hb,
        eq_refl id,
      )
      (ground arith)

-- In every state that such requests lead to from sound tables, looking up a tenant's subscription, or
-- the one with a Stripe id, finds one or none, and never fails with several.
pub reached_lookups :
    {u w : World} (t : ℕ) (id : String)
    → IsSound u
    → Reaches u w
    → ((a : Option Subscription) × (get_active_by_tenant t w ≡ (ok a, w)))
      × ((b : Option Subscription) × (get_by_stripe_id (some id) w ≡ (ok b, w)))
unfolding get_active_by_tenant get_by_stripe_id matches_stripe_id
reached_lookups {w = w} t id h r =
    let sound = (Reaches-IsSound h r).0 in
    let (a, one_tenant) = select_one _ w.db.subscriptions (same_tenant t) sound.distinct in
    let (b, one_id) = select_one _ w.db.subscriptions (same_stripe_id id) sound.distinct in
    ((a, ap (λ x. (x, w)) one_tenant), (b, ap (λ x. (x, w)) one_id))
