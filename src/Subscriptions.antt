-- ===== src/Subscriptions.antt =====
-- src/repositories/subscription_repo.py and src/repositories/plan_repo.py. The constraints are those
-- of src/models/subscription.py: `tenant_id` and `stripe_subscription_id` are unique, and the tenant
-- and the plan are foreign keys.
use flyrank_capstone_meterin.Prelude.{
  ℕ, String, Bool, true, false, not, is_some, ◌&&◌, Option, none, some, List, [], ◌∷◌, ◌++◌, ◌==◌,
  str_eq, if◌then◌else◌, select, exists, update_where,
}
use flyrank_capstone_meterin.Result.{Result, ok, err}
use flyrank_capstone_meterin.Errors.{
  Exn, integrity_error, no_result, tenant_exists, plan_exists, unique_subscription_tenant,
  unique_stripe_subscription, tenant_not_null,
}
use flyrank_capstone_meterin.Models.{
  Tenant, Plan, PlanTier, Subscription, SubscriptionStatus, active, incomplete, trialing, same_tier,
}
use flyrank_capstone_meterin.World.{Db, App, set_db, scalar_one_or_none}

-- The statuses of the IN list in `get_active_by_tenant`.
unfoldable pub is_metered : SubscriptionStatus → Bool
is_metered active = true
is_metered trialing = true
is_metered incomplete = true
is_metered _ = false

unfoldable pub get_active_by_tenant : ℕ → App (Option Subscription)
get_active_by_tenant tenant_id w = (
  scalar_one_or_none (
      select (λ (s : Subscription). s.tenant_id == tenant_id && is_metered s.status)
        w.db.subscriptions),
  w,
)

-- A column that may be NULL equals a value only if it holds it.
unfoldable pub equals_text : Option String → String → Bool
equals_text none text = false
equals_text (some s) text = str_eq s text

abbrev pub has_stripe_id : String → Subscription → Bool
has_stripe_id id s = equals_text s.stripe_subscription_id id

-- `column == None` is `IS NULL` in SQLAlchemy.
unfoldable pub matches_stripe_id : Option String → Subscription → Bool
matches_stripe_id none s = not (is_some s.stripe_subscription_id)
matches_stripe_id (some id) s = has_stripe_id id s

unfoldable pub get_by_stripe_id : Option String → App (Option Subscription)
get_by_stripe_id id w = (scalar_one_or_none (select (matches_stripe_id id) w.db.subscriptions), w)

-- A unique index does not compare NULLs.
unfoldable pub stripe_id_taken : Option String → List Subscription → Bool
stripe_id_taken none rows = false
stripe_id_taken (some id) rows = exists (has_stripe_id id) rows

unfoldable pub has_tenant : ℕ → Db → Bool
has_tenant tenant_id db = exists (λ (t : Tenant). t.id == tenant_id) db.tenants

unfoldable pub has_plan : PlanTier → Db → Bool
has_plan tier db = exists (λ (p : Plan). same_tier p.id tier) db.plans

-- INSERT of a row: the unique indexes, then the foreign keys.
unfoldable pub insert_subscription : Subscription → App Subscription
insert_subscription row w =
    if exists (λ (s : Subscription). s.tenant_id == row.tenant_id) w.db.subscriptions
    then (err (integrity_error unique_subscription_tenant), w)
    else if stripe_id_taken row.stripe_subscription_id w.db.subscriptions
    then (err (integrity_error unique_stripe_subscription), w)
    else if has_tenant row.tenant_id w.db
    then (if has_plan row.plan_id w.db
        then (ok row, set_db (record w.db { subscriptions = w.db.subscriptions ++ row ∷ [] }) w)
        else (err (integrity_error plan_exists), w))
    else (err (integrity_error tenant_exists), w)

-- `create`: the row's tenant may be missing, which the column does not allow.
unfoldable pub create : Option ℕ → (ℕ → Subscription) → App Subscription
unfolding insert_subscription
create none row w = (err (integrity_error tenant_not_null), w)
create (some tenant_id) row w = insert_subscription (row tenant_id) w

-- `update`: the changed object is written to its row.
unfoldable pub update : Subscription → App Subscription
update row w =
    if has_plan row.plan_id w.db
    then (
      ok row,
      set_db
          (record w.db {
            subscriptions =
                update_where (λ (s : Subscription). s.id == row.id) (λ _. row) w.db.subscriptions;
          })
          w,
    )
    else (err (integrity_error plan_exists), w)

-- DO UPDATE SET of `upsert_from_stripe`.
abbrev pub overwrite : Subscription → Subscription → Subscription
overwrite new old = record old {
  status = new.status;
  current_period_start = new.current_period_start;
  current_period_end = new.current_period_end;
  plan_id = new.plan_id;
  cancel_at_period_end = new.cancel_at_period_end;
}

first_row : List Subscription → Result Exn Subscription
first_row [] = err no_result
first_row (s ∷ rest) = ok s

unfoldable pub overwrite_by_stripe_id : String → Subscription → App Subscription
unfolding first_row
overwrite_by_stripe_id id row w =
    if has_plan row.plan_id w.db
    then (
      first_row (
          select (has_stripe_id id)
            (update_where (has_stripe_id id) (overwrite row) w.db.subscriptions)),
      set_db
          (record w.db {
            subscriptions = update_where (has_stripe_id id) (overwrite row) w.db.subscriptions;
          })
          w,
    )
    else (err (integrity_error plan_exists), w)

unfoldable pub upsert_by : Option String → Subscription → App Subscription
unfolding overwrite_by_stripe_id insert_subscription
upsert_by none row w = insert_subscription row w
upsert_by (some id) row w =
    if exists (has_stripe_id id) w.db.subscriptions
    then overwrite_by_stripe_id id row w
    else insert_subscription row w

-- ON CONFLICT (stripe_subscription_id) DO UPDATE … RETURNING. `row` holds the arguments and the id of
-- a new row; only that one index is the conflict's target.
unfoldable pub upsert_from_stripe : Subscription → App Subscription
unfolding upsert_by
upsert_from_stripe row = upsert_by row.stripe_subscription_id row

-- PlanRepository.get_by_id
unfoldable pub get_plan : PlanTier → App (Option Plan)
get_plan tier w = (scalar_one_or_none (select (λ (p : Plan). same_tier p.id tier) w.db.plans), w)
