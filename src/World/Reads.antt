-- ===== src/World/Reads.antt =====
-- Actions that only read, and answer the same in two states: one rule for each way to build an
-- action.
use flyrank_capstone_meterin.Prelude.{◌≡◌, refl}
use flyrank_capstone_meterin.Result.{Result, ok, err}
use flyrank_capstone_meterin.Exec.{pure, raise, lift, gets, ◌>>=◌}
use flyrank_capstone_meterin.Errors.{Exn}
use flyrank_capstone_meterin.World.{World, App}

pub record Alike (w w' : World) {A : Type 0} (f : App A) : Type 0 where
  pub answer : Result Exn A
  pub here : f w ≡ (answer, w)
  pub there : f w' ≡ (answer, w')

module _ {w w' : World} {A : Type 0} where
  pub Alike-lift : (r : Result Exn A) → Alike w w' (lift r)
  Alike-lift r = record { answer = r; here = refl; there = refl }

  pub Alike-pure : (a : A) → Alike w w' (pure a)
  Alike-pure a = record { answer = ok a; here = refl; there = refl }

  pub Alike-raise : (e : Exn) → Alike w w' {A = A} (raise e)
  Alike-raise e = record { answer = err e; here = refl; there = refl }

  -- Of a read it is enough that what is read is the same.
  pub Alike-gets : (f : World → A) → f w ≡ f w' → Alike w w' (gets f)
  Alike-gets f same = record { answer = ok (f w); here = refl; there = rw same refl }

  pub Alike-reads : (f : World → Result Exn A) → f w ≡ f w' → Alike w w' (λ v. (f v, v))
  Alike-reads f same = record { answer = f w; here = refl; there = rw same refl }

  -- Actions that are alike return the same.
  pub same_answer : (f : App A) → Alike w w' f → (f w).0 ≡ (f w').0
  same_answer f a = rw (a.here, a.there) refl

module _ {w w' : World} {A B : Type 0} where
  bind_at :
      (f : App A) (k : A → App B) (r : Result Exn A)
      → f w ≡ (r, w)
      → f w' ≡ (r, w')
      → ((a : A) → Alike w w' (k a))
      → Alike w w' (f >>= k)
  bind_at f k (ok a) here there ks = record {
    answer = (ks a).answer;
    here = rw here (ks a).here;
    there = rw there (ks a).there;
  }
  bind_at f k (err e) here there ks = record {
    answer = err e;
    here = rw here refl;
    there = rw there refl;
  }

  pub Alike-bind :
      (f : App A) (k : A → App B)
      → Alike w w' f
      → ((a : A) → Alike w w' (k a))
      → Alike w w' (f >>= k)
  Alike-bind f k first ks = bind_at f k first.answer first.here first.there ks

pub ruleset alike_rules = (Alike-lift, Alike-pure, Alike-raise, Alike-bind)
