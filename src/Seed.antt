-- ===== src/Seed.antt =====
-- src/seed.py, on the tables with the texts that it writes, in a database whose schema may lack what
-- the statements name. Ids of rows that nothing refers to, which are fresh UUIDs, are left out; `str`
-- is the text of a number, and `month_later` is the database's NOW() + INTERVAL '1 month'. The
-- statements break no constraint of src/models.
pub mod Keys
pub mod Laws
pub mod Migrated
use Prim.Native.String.{◌++◌ as cat}
use flyrank_capstone_meterin.Prelude.{
  ℕ, zero, suc, ◌-◌, ◌/◌, ◌%◌, String, Bool, true, false, ◌&&◌, none, some, List, [], ◌∷◌, ◌++◌,
  ◌==◌, str_eq, if◌then◌else◌, exists, update_where,
}
use flyrank_capstone_meterin.Result.{Result, ok, err, ◌>>=◌}
use flyrank_capstone_meterin.Exec.{Exec, ◌>>◌}
use flyrank_capstone_meterin.Errors.{Exn, external}
use flyrank_capstone_meterin.Clock.{DateTime}
use flyrank_capstone_meterin.Migrations.Schema.{Table}
use flyrank_capstone_meterin.Migrations.Columns.{has_column}
use flyrank_capstone_meterin.Models.{Tenant, Plan, PlanTier, free, pro, same_tier}

-- The rows as texts: the script writes them without the classes of src/models.
pub record RawSubscription : Type 0 where
  pub tenant_id : ℕ
  pub plan_id : String
  pub status : String
  pub current_period_start : DateTime
  pub current_period_end : DateTime

pub record RawEvent : Type 0 where
  pub tenant_id : ℕ
  pub idempotency_key : String
  pub usage_type : String
  pub quantity : ℕ
  pub cost_microunits : ℕ
  pub created_at : DateTime

pub record RawTables : Type 0 where
  pub plans : List Plan
  pub tenants : List Tenant
  pub subscriptions : List RawSubscription
  pub usage_events : List RawEvent

pub record SeedEnv : Type 0 where
  pub tenant_id : ℕ
  pub str : ℕ → String
  pub now : DateTime
  pub db_now : DateTime
  pub month_later : DateTime

abbrev pub free_api_quota : ℕ
free_api_quota = 5000

abbrev pub free_token_quota : ℕ
free_token_quota = 500000

abbrev seeded_plan : PlanTier → String → ℕ → ℕ → ℕ → Plan
seeded_plan id name api_call_quota ai_token_quota price_cents = record {
  id = id;
  name = name;
  api_call_quota = api_call_quota;
  ai_token_quota = ai_token_quota;
  price_cents = price_cents;
  stripe_price_id = none;
  is_active = true;
}

-- ON CONFLICT (id) DO UPDATE, which leaves the price's id alone.
unfoldable pub upsert_plan : Plan → List Plan → List Plan
upsert_plan row plans =
    if exists (λ (p : Plan). same_tier p.id row.id) plans
    then update_where (λ (p : Plan). same_tier p.id row.id)
        (λ p. record row { stripe_price_id = p.stripe_price_id }) plans
    else plans ++ row ∷ []

unfoldable pub seed_plans : List Plan → List Plan
unfolding upsert_plan
seed_plans plans =
    upsert_plan (seeded_plan pro "Pro Plan" 100000 10000000 4900)
      (upsert_plan (seeded_plan free "Free Plan" free_api_quota free_token_quota 0) plans)

-- ON CONFLICT DO NOTHING; a row without a Stripe customer conflicts on the id only.
unfoldable pub seed_tenant : SeedEnv → List Tenant → List Tenant
seed_tenant env tenants =
    if exists (λ (t : Tenant). t.id == env.tenant_id) tenants
    then tenants
    else tenants
      ++ record {
        id = env.tenant_id;
        name = "Demo User";
        email = "demo@flyrank.test";
        stripe_customer_id = none;
        api_key_hash = some "demo_key_hash_not_for_production";
        created_at = some env.db_now;
      }
        ∷ []

-- ON CONFLICT (tenant_id) DO UPDATE
unfoldable pub seed_subscription : SeedEnv → List RawSubscription → List RawSubscription
seed_subscription env rows =
    let row : RawSubscription = record {
      tenant_id = env.tenant_id;
      plan_id = "FREE";
      status = "active";
      current_period_start = env.db_now;
      current_period_end = env.month_later;
    } in
    if exists (λ (s : RawSubscription). s.tenant_id == env.tenant_id) rows
    then update_where (λ (s : RawSubscription). s.tenant_id == env.tenant_id)
        (λ s. record s {
          plan_id = row.plan_id;
          status = row.status;
          current_period_end = row.current_period_end;
        })
        rows
    else rows ++ row ∷ []

unfoldable pub same_key : RawEvent → RawEvent → Bool
same_key e other =
    other.tenant_id == e.tenant_id
    && (str_eq other.idempotency_key e.idempotency_key && str_eq other.usage_type e.usage_type)

-- ON CONFLICT DO NOTHING
unfoldable pub insert_event : RawEvent → List RawEvent → List RawEvent
unfolding same_key
insert_event row rows = if exists (same_key row) rows then rows else rows ++ row ∷ []

-- `for i in range(n)`, with an INSERT of a row of each `i`.
unfoldable pub insert_range : ℕ → (ℕ → RawEvent) → List RawEvent → List RawEvent
unfolding insert_event
insert_range zero row rows = rows
insert_range (suc i) row rows = insert_event (row i) (insert_range i row rows)

abbrev pub api_key : SeedEnv → ℕ → String
api_key env i = cat "seed-api-" (env.str i)

abbrev pub token_key : SeedEnv → ℕ → ℕ → String
token_key env batch j = cat "seed-token-" (cat (env.str batch) (cat "-" (env.str j)))

abbrev pub api_event : SeedEnv → ℕ → RawEvent
api_event env i = record {
  tenant_id = env.tenant_id;
  idempotency_key = api_key env i;
  usage_type = "api_call";
  quantity = 1;
  cost_microunits = 1000;
  created_at = env.now;
}

-- The list of types at `batch % 4`.
unfoldable pub token_type : ℕ → String
token_type batch =
    if batch % 4 == 0
    then "input_tokens"
    else if batch % 4 == 1
    then "cached_input_tokens"
    else if batch % 4 == 2
    then "output_tokens"
    else "reasoning_tokens"

abbrev pub token_event : SeedEnv → ℕ → ℕ → RawEvent
token_event env batch j = record {
  tenant_id = env.tenant_id;
  idempotency_key = token_key env batch j;
  usage_type = token_type batch;
  quantity = 100;
  cost_microunits = if batch % 4 == 0 then 15 else 7;
  created_at = env.now;
}

-- `for batch in range(n)`, and in each batch the tokens.
unfoldable pub insert_batches : SeedEnv → ℕ → ℕ → List RawEvent → List RawEvent
unfolding insert_range
insert_batches env tokens_per_batch zero rows = rows
insert_batches env tokens_per_batch (suc batch) rows =
    insert_range tokens_per_batch (token_event env batch)
      (insert_batches env tokens_per_batch batch rows)

abbrev pub api_calls_to_insert : ℕ
api_calls_to_insert = free_api_quota - 1

abbrev pub token_batches : ℕ
token_batches = 10

abbrev pub tokens_per_batch : ℕ
tokens_per_batch = (free_token_quota - 1) / token_batches

-- The columns that each INSERT names.
abbrev pub plan_columns : List String
plan_columns =
    "id" ∷ "name" ∷ "api_call_quota" ∷ "ai_token_quota" ∷ "price_cents" ∷ "is_active" ∷ []

abbrev pub tenant_columns : List String
tenant_columns = "id" ∷ "name" ∷ "email" ∷ "api_key_hash" ∷ "created_at" ∷ "updated_at" ∷ []

abbrev pub subscription_columns : List String
subscription_columns =
    "id" ∷ "tenant_id" ∷ "plan_id" ∷ "status" ∷ "current_period_start" ∷ "current_period_end"
    ∷ "cancel_at_period_end" ∷ "created_at" ∷ "updated_at" ∷ []

abbrev pub event_columns : List String
event_columns =
    "id" ∷ "tenant_id" ∷ "idempotency_key" ∷ "usage_type" ∷ "quantity" ∷ "cost_microunits"
    ∷ "created_at" ∷ "updated_at" ∷ []

unfoldable pub has_columns : String → List String → List Table → Bool
unfolding has_column
has_columns table [] schema = true
has_columns table (c ∷ columns) schema =
    has_column table c schema && has_columns table columns schema

-- `db.execute` of an INSERT: a table or column that the schema lacks is an error.
unfoldable pub execute :
    List Table → String → List String → (RawTables → RawTables) → RawTables → Result Exn RawTables
unfolding has_columns
execute schema table columns change t =
    if has_columns table columns schema then ok (change t) else err (external "ProgrammingError")

-- The statements up to each `db.commit()`. Neither loop is empty, and all its statements name the same
-- columns, so that the first one decides whether they can be executed.
unfoldable pub insert_account : SeedEnv → List Table → RawTables → Result Exn RawTables
unfolding execute
insert_account env schema start = do
  planned ← execute schema "plans" plan_columns (λ t. record t { plans = seed_plans t.plans }) start
  known ←
      execute schema "tenants" tenant_columns
        (λ t. record t { tenants = seed_tenant env t.tenants }) planned
  execute schema "subscriptions" subscription_columns
      (λ t. record t { subscriptions = seed_subscription env t.subscriptions }) known

unfoldable pub insert_api_calls : SeedEnv → List Table → RawTables → Result Exn RawTables
unfolding execute
insert_api_calls env schema =
    execute schema "usage_events" event_columns λ t. record t {
      usage_events = insert_range api_calls_to_insert (api_event env) t.usage_events;
    }

unfoldable pub insert_tokens : SeedEnv → List Table → RawTables → Result Exn RawTables
unfolding execute
insert_tokens env schema = execute schema "usage_events" event_columns λ t. record t {
  usage_events = insert_batches env tokens_per_batch token_batches t.usage_events;
}

-- What is committed: the new tables, or where a statement raised those of the commit before.
or_before : RawTables → Result Exn RawTables → Result Exn (Unit {0}) × RawTables
or_before before (ok t) = (ok tt, t)
or_before before (err e) = (err e, before)

unfoldable pub commit_after : (RawTables → Result Exn RawTables) → Exec RawTables Exn (Unit {0})
unfolding or_before
commit_after statements t = or_before t (statements t)

-- `seed` on a database with the tables of `schema`; its state is what is committed.
unfoldable pub seed : SeedEnv → List Table → Exec RawTables Exn (Unit {0})
seed env schema = do
  commit_after (insert_account env schema)
  commit_after (insert_api_calls env schema)
  commit_after (insert_tokens env schema)
