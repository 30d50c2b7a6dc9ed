-- ===== src/Invariant/Triple.antt =====
-- What actions make of a property of the tables, whether they return or raise: one rule for each way
-- to build an action.
use flyrank_capstone_meterin.Prelude.{ℕ, String, inl, inr}
use flyrank_capstone_meterin.Result.{Result, Result-cases}
use flyrank_capstone_meterin.Exec.{pure, raise, gets, lift, ◌>>=◌}
use flyrank_capstone_meterin.Errors.{Exn}
use flyrank_capstone_meterin.Payloads.{Cached}
use flyrank_capstone_meterin.World.{
  Db, World, App, Moment, commit, rollback, get_db, cached_get, cached_set, cached_delete,
}
use flyrank_capstone_meterin.Invariant.{Sound}

-- From tables with `P`, as the session sees them, to tables with `Q`; the committed tables stay sound.
pub record Triple {A : Type 0} (P Q : Db → Type 0) (m : App A) : Type 0 where
  pub at : (w : World) → P w.db → Sound w.committed → Q (m w).1.db × Sound (m w).1.committed

module _ {A : Type 0} {P Q : Db → Type 0} where
  pub Triple-weaken : (m : App A) → ((d : Db) → P d → Q d) → Triple P P m → Triple P Q m
  Triple-weaken m weaken t = record {
    at = λ w h hc. let (a, b) = t.at w h hc in (weaken (m w).1.db a, b);
  }

  pub Triple-strengthen :
      {R : Db → Type 0} (m : App A) → ((d : Db) → P d → Q d) → Triple Q R m → Triple P R m
  Triple-strengthen m weaken t = record { at = λ w h hc. t.at w (weaken w.db h) hc }

module _ {A : Type 0} {P : Db → Type 0} where
  -- A request's session, on sound tables that have `P`.
  pub Triple-get_db :
      (m : App A) (w : World)
      → Triple P Sound m
      → P w.committed
      → Sound w.committed
      → Sound (get_db m w).1.db × Sound (get_db m w).1.committed
  unfolding get_db commit rollback
  Triple-get_db m w t h s =
      let (a, b) = t.at (rollback w) h s in
      elim (Result-cases (m (rollback w)).0) [ inl (v, p) ↦ rw p (a, a) | inr (e, p) ↦ rw p (b, b) ]

module _ {A : Type 0} {P : Db → Type 0} where
  pub Triple-pure : (a : A) → Triple {A = A} P P (pure a)
  Triple-pure a = record { at = λ w h hc. (h, hc) }

  pub Triple-raise : (e : Exn) → Triple {A = A} P P (raise e)
  Triple-raise e = record { at = λ w h hc. (h, hc) }

  pub Triple-lift : (r : Result Exn A) → Triple {A = A} P P (lift r)
  Triple-lift r = record { at = λ w h hc. (h, hc) }

  pub Triple-gets : (f : World → A) → Triple {A = A} P P (gets f)
  Triple-gets f = record { at = λ w h hc. (h, hc) }

module _ {P : Db → Type 0} (m : Moment) (key : String) where
  pub Triple-cached_get : Triple P P (cached_get m key)
  unfolding cached_get
  Triple-cached_get = record { at = λ w h hc. (h, hc) }

  pub Triple-cached_set : (value : Cached) (ttl : ℕ) → Triple P P (cached_set m key value ttl)
  unfolding cached_set
  Triple-cached_set value ttl = record { at = λ w h hc. (h, hc) }

  pub Triple-cached_delete : Triple P P (cached_delete m key)
  unfolding cached_delete
  Triple-cached_delete = record { at = λ w h hc. (h, hc) }

module _ {A B : Type 0} {P Q R : Db → Type 0} where
  -- After the first action has returned, the second goes on from `Q`.
  pub Triple-bind :
      (m : App A) (f : A → App B)
      → ((d : Db) → Q d → R d)
      → Triple P Q m
      → ((a : A) → Triple Q R (f a))
      → Triple P R (m >>= f)
  Triple-bind m f weaken tm tf = record {
    at = λ w h hc.
        let (a, b) = tm.at w h hc in
        elim (Result-cases (m w).0) [
          | inl (v, p) ↦ rw p ((tf v).at (m w).1 a b)
          | inr (e, p) ↦ rw p (weaken (m w).1.db a, b)
        ];
  }

module _ {A B : Type 0} {P : Db → Type 0} where
  pub Triple-then :
      (m : App A) (f : A → App B)
      → Triple P P m
      → ((a : A) → Triple P P (f a))
      → Triple P P (m >>= f)
  Triple-then m f = Triple-bind m f (λ d h. h)

pub ruleset triple_rules = (
  Triple-pure, Triple-raise, Triple-lift, Triple-gets, Triple-cached_get, Triple-cached_set,
  Triple-cached_delete, Triple-then,
)
