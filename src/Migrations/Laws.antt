-- ===== src/Migrations/Laws.antt =====
-- Undoing the migration of src/alembic/versions/3b17d2cce51c_initial_schema.py, and the columns of
-- src/models that it does not make.
use flyrank_capstone_meterin.Prelude.{
  String, ◌≡◌, refl, ap, true, false, List, [], ◌∷◌, select, exists, map,
}
use flyrank_capstone_meterin.Result.{ok}
use flyrank_capstone_meterin.Migrations.Schema.{Schema, is_dangling, lacks_columns}
use flyrank_capstone_meterin.Migrations.Initial.{
  plans, processed_stripe_events, tenants, subscriptions, usage_events, index_on, upgrade,
  downgrade,
}
use flyrank_capstone_meterin.Migrations.Columns.{mapped_classes, has_column, missing_columns}
use flyrank_capstone_meterin.Migrations.Undo.{Creation, table, index, IsClosed, all_undone}
use flyrank_capstone_meterin.Migrations.Ready.{name_of, AreFree, are_ready, built, over, all_done}

abbrev creations : List Creation
creations =
    table plans
    ∷ table processed_stripe_events
    ∷ index (
        index_on "ix_processed_stripe_events_event_type" "processed_stripe_events"
          ("event_type" ∷ []) false)
    ∷ index (
        index_on "ix_processed_stripe_events_type_time" "processed_stripe_events"
          ("event_type" ∷ "processed_at" ∷ []) false)
    ∷ table tenants
    ∷ index (index_on "ix_tenants_name" "tenants" ("name" ∷ []) false)
    ∷ index (index_on "ix_tenants_stripe_customer_id" "tenants" ("stripe_customer_id" ∷ []) true)
    ∷ table subscriptions
    ∷ index (index_on "ix_subscriptions_status" "subscriptions" ("status" ∷ []) false)
    ∷ index (
        index_on "ix_subscriptions_stripe_id" "subscriptions" ("stripe_subscription_id" ∷ []) false)
    ∷ index (
        index_on "ix_subscriptions_stripe_subscription_id" "subscriptions"
          ("stripe_subscription_id" ∷ []) true)
    ∷ index (index_on "ix_subscriptions_tenant_id" "subscriptions" ("tenant_id" ∷ []) true)
    ∷ table usage_events
    ∷ index (index_on "ix_usage_events_tenant_id" "usage_events" ("tenant_id" ∷ []) false)
    ∷ index (
        index_on "ix_usage_events_tenant_month" "usage_events" ("tenant_id" ∷ "created_at" ∷ [])
          false)
    ∷ index (
        index_on "ix_usage_events_tenant_type_month" "usage_events"
          ("tenant_id" ∷ "usage_type" ∷ "created_at" ∷ []) false)
    ∷ index (index_on "ix_usage_events_usage_type" "usage_events" ("usage_type" ∷ []) false)
    ∷ []

abbrev nothing : Schema
nothing = record { tables = []; indexes = [] }

-- The names of the migration's tables and indexes.
abbrev pub new_names : List String
new_names = map name_of creations

-- What the migration makes.
abbrev pub initial_schema : Schema
initial_schema = built creations nothing

creations_ready : are_ready nothing creations ≡ true
unfolding exists is_dangling lacks_columns
creations_ready = refl

pub upgrade_done : (s : Schema) → AreFree new_names s → upgrade s ≡ (ok tt, over initial_schema s)
unfolding upgrade
upgrade_done s free = all_done creations nothing s creations_ready free

upgrade_misses :
    (s : Schema)
    → AreFree new_names s
    → missing_columns mapped_classes (upgrade s).1
      ≡ ("tenants", "email")
        ∷ ("subscriptions", "canceled_at")
        ∷ ("processed_stripe_events", "event_id")
        ∷ ("processed_stripe_events", "payload")
        ∷ ("processed_stripe_events", "tenant_id")
        ∷ []
unfolding missing_columns has_column select exists
upgrade_misses s free = rw (upgrade_done s free) refl

-- In a database in which every foreign key and index speaks of a table that is there, and none of
-- the names of the migration's five tables and twelve indexes is in use: the upgrade succeeds and
-- adds these to the schema; the downgrade after it succeeds and gives back the schema as it was. Of
-- the columns that the classes of src/models map, the upgraded schema lacks five and has all others.
pub upgrade-downgrade :
    (s : Schema)
    → IsClosed s
    → AreFree new_names s
    → (upgrade s ≡ (ok tt, over initial_schema s))
      × (downgrade (upgrade s).1 ≡ (ok tt, s))
      × (missing_columns mapped_classes (upgrade s).1
          ≡ ("tenants", "email")
            ∷ ("subscriptions", "canceled_at")
            ∷ ("processed_stripe_events", "event_id")
            ∷ ("processed_stripe_events", "payload")
            ∷ ("processed_stripe_events", "tenant_id")
            ∷ [])
upgrade-downgrade s closed free =
    let done = upgrade_done s free in
    (
      done,
      (unfold upgrade in unfold downgrade in all_undone creations s closed (ap (λ r. r.0) done)),
      upgrade_misses s free,
    )
