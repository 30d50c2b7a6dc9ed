-- ===== src/Migrations/Plans.antt =====
-- src/alembic/versions/a4743ba2a4bc_seed_plans.py: its `upgrade` and `downgrade`, on the tables that
-- the application reads.
pub mod Laws
use flyrank_capstone_meterin.Prelude.{
  Bool, true, ◌||◌, not, none, some, List, [], ◌∷◌, ◌++◌, if◌then◌else◌, select, exists,
}
use flyrank_capstone_meterin.Result.{Result, ok, err, ◌>>=◌}
use flyrank_capstone_meterin.Errors.{Exn, external, integrity_error, plan_exists}
use flyrank_capstone_meterin.Models.{Plan, PlanTier, free, pro, Subscription, same_tier}
use flyrank_capstone_meterin.World.{App, set_db}

abbrev pub free_row : Plan
free_row = record {
  id = free;
  name = "Free";
  api_call_quota = 5000;
  ai_token_quota = 500000;
  price_cents = 0;
  stripe_price_id = none;
  is_active = true;
}

abbrev pub pro_row : Plan
pro_row = record {
  id = pro;
  name = "Pro";
  api_call_quota = 100000;
  ai_token_quota = 10000000;
  price_cents = 4900;
  stripe_price_id = some "price_PRO_ID_FROM_STRIPE_DASHBOARD";
  is_active = true;
}

-- The table with one more row, whose id is the primary key.
unfoldable pub insert_plan : Plan → List Plan → Result Exn (List Plan)
insert_plan row plans =
    if exists (λ (p : Plan). same_tier p.id row.id) plans
    then err (external "UniqueViolation")
    else ok (plans ++ row ∷ [])

unfoldable pub bulk_insert : List Plan → List Plan → Result Exn (List Plan)
unfolding insert_plan
bulk_insert [] plans = ok plans
bulk_insert (row ∷ rows) plans = do more ← insert_plan row plans; bulk_insert rows more

with_plans : Result Exn (List Plan) → App (Unit {0})
with_plans (ok plans) w = (ok tt, set_db (record w.db { plans = plans }) w)
with_plans (err e) w = (err e, w)

unfoldable pub upgrade : App (Unit {0})
unfolding with_plans bulk_insert
upgrade w = with_plans (bulk_insert (free_row ∷ pro_row ∷ []) w.db.plans) w

-- `id IN ('FREE', 'PRO')`
unfoldable pub is_seeded : PlanTier → Bool
unfolding same_tier
is_seeded tier = same_tier tier free || same_tier tier pro

-- The foreign key of the subscriptions refuses to leave one without its plan.
unfoldable pub downgrade : App (Unit {0})
unfolding is_seeded
downgrade w =
    if exists (λ (s : Subscription). is_seeded s.plan_id) w.db.subscriptions
    then (err (integrity_error plan_exists), w)
    else (
      ok tt,
      set_db (record w.db { plans = select (λ (p : Plan). not (is_seeded p.id)) w.db.plans }) w,
    )
