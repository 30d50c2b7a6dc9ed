-- ===== src/World/Scope.antt =====
-- Actions that leave alone what is committed, and the tables of usage events, plans and processed
-- Stripe events: one rule for each way to build an action.
use flyrank_capstone_meterin.Prelude.{◌≡◌, refl, ◌∙◌}
use flyrank_capstone_meterin.Result.{Result, ok, err}
use flyrank_capstone_meterin.Exec.{pure, raise, lift, continue, ◌>>=◌}
use flyrank_capstone_meterin.Errors.{Exn}
use flyrank_capstone_meterin.World.{World, App}

pub record SameTables (w w' : World) : Type 0 where
  pub committed : w'.committed ≡ w.committed
  pub usage_events : w'.db.usage_events ≡ w.db.usage_events
  pub plans : w'.db.plans ≡ w.db.plans
  pub stripe_events : w'.db.stripe_events ≡ w.db.stripe_events

pub SameTables-refl : (w : World) → SameTables w w
SameTables-refl w = record {
  committed = refl;
  usage_events = refl;
  plans = refl;
  stripe_events = refl;
}

pub SameTables-trans : {u v w : World} → SameTables u v → SameTables v w → SameTables u w
SameTables-trans a b = record {
  committed = b.committed ∙ a.committed;
  usage_events = b.usage_events ∙ a.usage_events;
  plans = b.plans ∙ a.plans;
  stripe_events = b.stripe_events ∙ a.stripe_events;
}

-- `m` keeps those tables, whether it returns or raises.
pub record Keeps {A : Type 0} (m : App A) : Type 0 where
  pub at : (w : World) → SameTables w (m w).1

module _ {A : Type 0} where
  pub Keeps-pure : (a : A) → Keeps {A = A} (pure a)
  Keeps-pure a = record { at = SameTables-refl }

  pub Keeps-raise : (e : Exn) → Keeps {A = A} (raise e)
  Keeps-raise e = record { at = SameTables-refl }

  pub Keeps-lift : (r : Result Exn A) → Keeps {A = A} (lift r)
  Keeps-lift r = record { at = SameTables-refl }

module _ {A B : Type 0} where
  Keeps-continue :
      (r : Result Exn A) (f : A → App B) (w : World)
      → ((a : A) → Keeps (f a))
      → SameTables w (continue r f w).1
  Keeps-continue (ok a) f w kf = (kf a).at w
  Keeps-continue (err e) f w kf = SameTables-refl w

  pub Keeps-bind : (m : App A) (f : A → App B) → Keeps m → ((a : A) → Keeps (f a)) → Keeps (m >>= f)
  Keeps-bind m f km kf = record {
    at = λ w. SameTables-trans (km.at w) (Keeps-continue (m w).0 f (m w).1 kf);
  }

pub ruleset keeps_rules = (Keeps-pure, Keeps-raise, Keeps-lift, Keeps-bind)
