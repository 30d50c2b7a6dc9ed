-- ===== src/World/Session.antt =====
-- How a request's session ends (src/api/deps.py).
use flyrank_capstone_meterin.Prelude.{◌≡◌, inl, inr}
use flyrank_capstone_meterin.Result.{ok, err, Result-cases}
use flyrank_capstone_meterin.Errors.{Exn}
use flyrank_capstone_meterin.World.{World, App, get_db, commit, rollback}

module _ {A : Type 0} (body : App A) (w : World) where
  -- A request that returns has returned the body's value, and what the body wrote is committed.
  pub get_db_ok :
      (a : A)
      → (get_db body w).0 ≡ ok a
      → ((body (rollback w)).0 ≡ ok a) × ((get_db body w).1 ≡ commit (body (rollback w)).1)
  get_db_ok a h = elim (Result-cases (body (rollback w)).0) [
    | inl (b, p) ↦ (unfold get_db in cc (p, rw p at h), unfold get_db in rw p)
    | inr (e, p) ↦ absurd (unfold get_db in cc (rw p at h))
  ]

  pub get_db_err :
      (e : Exn)
      → (get_db body w).0 ≡ err e
      → ((body (rollback w)).0 ≡ err e) × ((get_db body w).1 ≡ rollback (body (rollback w)).1)
  get_db_err e h = elim (Result-cases (body (rollback w)).0) [
    | inl (b, p) ↦ absurd (unfold get_db in cc (rw p at h))
    | inr (e', p) ↦ (unfold get_db in cc (p, rw p at h), unfold get_db in rw p)
  ]
