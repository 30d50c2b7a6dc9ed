-- ===== src/Migrations/Initial.antt =====
-- src/alembic/versions/3b17d2cce51c_initial_schema.py: its `upgrade` and `downgrade`.
use flyrank_capstone_meterin.Prelude.{String, Bool, true, false, none, some, List, [], ◌∷◌}
use flyrank_capstone_meterin.Exec.{Exec}
use flyrank_capstone_meterin.Errors.{Exn}
use flyrank_capstone_meterin.Migrations.Schema.{
  ColumnType, string, text, big_integer, integer, boolean, uuid, date_time, enum, Column,
  primary_key, foreign_key, unique, Table, Index, Schema, Operation, create_table, create_index,
  drop_index, drop_table, apply_all,
}

abbrev required : String → ColumnType → Column
required name type = record { name = name; type = type; server_default = none; nullable = false }

abbrev optional : String → ColumnType → Column
optional name type = record { name = name; type = type; server_default = none; nullable = true }

-- A timestamp with the time of the insert as its default.
abbrev stamped : String → Column
stamped name = record {
  name = name;
  type = date_time;
  server_default = some "now()";
  nullable = false;
}

abbrev pub index_on : String → String → List String → Bool → Index
index_on name table columns is_unique = record {
  name = name;
  table = table;
  columns = columns;
  unique = is_unique;
}

abbrev pub plans : Table
plans = record {
  name = "plans";
  columns =
      required "id" (enum ("FREE" ∷ "PRO" ∷ []) "plantier")
      ∷ required "name" (string 50)
      ∷ required "api_call_quota" big_integer
      ∷ required "ai_token_quota" big_integer
      ∷ required "price_cents" integer
      ∷ optional "stripe_price_id" (string 255)
      ∷ required "is_active" boolean
      ∷ stamped "created_at"
      ∷ stamped "updated_at"
      ∷ [];
  constraints = primary_key ("id" ∷ []) ∷ [];
}

abbrev pub processed_stripe_events : Table
processed_stripe_events = record {
  name = "processed_stripe_events";
  columns =
      required "id" (string 255)
      ∷ required "event_type" (string 100)
      ∷ stamped "processed_at"
      ∷ stamped "created_at"
      ∷ stamped "updated_at"
      ∷ [];
  constraints = primary_key ("id" ∷ []) ∷ [];
}

abbrev pub tenants : Table
tenants = record {
  name = "tenants";
  columns =
      required "name" (string 255)
      ∷ optional "stripe_customer_id" (string 255)
      ∷ optional "api_key_hash" (string 255)
      ∷ required "id" uuid
      ∷ stamped "created_at"
      ∷ stamped "updated_at"
      ∷ [];
  constraints = primary_key ("id" ∷ []) ∷ [];
}

abbrev pub subscriptions : Table
subscriptions = record {
  name = "subscriptions";
  columns =
      required "tenant_id" uuid
      ∷ required "plan_id" (enum ("FREE" ∷ "PRO" ∷ []) "plantier")
      ∷ optional "stripe_subscription_id" (string 255)
      ∷ required "status" (
          enum ("ACTIVE" ∷ "PAST_DUE" ∷ "CANCELED" ∷ "INCOMPLETE" ∷ "TRIALING" ∷ [])
            "subscriptionstatus")
      ∷ optional "current_period_start" date_time
      ∷ optional "current_period_end" date_time
      ∷ required "cancel_at_period_end" boolean
      ∷ required "id" uuid
      ∷ stamped "created_at"
      ∷ stamped "updated_at"
      ∷ [];
  constraints =
      foreign_key ("plan_id" ∷ []) "plans" ("id" ∷ []) none
      ∷ foreign_key ("tenant_id" ∷ []) "tenants" ("id" ∷ []) (some "CASCADE")
      ∷ primary_key ("id" ∷ [])
      ∷ [];
}

abbrev pub usage_events : Table
usage_events = record {
  name = "usage_events";
  columns =
      required "tenant_id" uuid
      ∷ required "idempotency_key" (string 255)
      ∷ required "usage_type" (
          enum
            ("API_CALL" ∷ "INPUT_TOKENS" ∷ "CACHED_INPUT_TOKENS" ∷ "OUTPUT_TOKENS"
              ∷ "REASONING_TOKENS" ∷ [])
            "usagetype")
      ∷ required "quantity" big_integer
      ∷ required "cost_microunits" big_integer
      ∷ optional "request_ip" (string 45)
      ∷ optional "user_agent" text
      ∷ required "id" uuid
      ∷ stamped "created_at"
      ∷ stamped "updated_at"
      ∷ [];
  constraints =
      foreign_key ("tenant_id" ∷ []) "tenants" ("id" ∷ []) (some "CASCADE")
      ∷ primary_key ("id" ∷ [])
      ∷ unique ("tenant_id" ∷ "idempotency_key" ∷ "usage_type" ∷ [])
          "uq_tenant_idempotency_usage_type"
      ∷ [];
}

abbrev pub upgrade_operations : List Operation
upgrade_operations =
    create_table plans
    ∷ create_table processed_stripe_events
    ∷ create_index (
        index_on "ix_processed_stripe_events_event_type" "processed_stripe_events"
          ("event_type" ∷ []) false)
    ∷ create_index (
        index_on "ix_processed_stripe_events_type_time" "processed_stripe_events"
          ("event_type" ∷ "processed_at" ∷ []) false)
    ∷ create_table tenants
    ∷ create_index (index_on "ix_tenants_name" "tenants" ("name" ∷ []) false)
    ∷ create_index
        (index_on "ix_tenants_stripe_customer_id" "tenants" ("stripe_customer_id" ∷ []) true)
    ∷ create_table subscriptions
    ∷ create_index (index_on "ix_subscriptions_status" "subscriptions" ("status" ∷ []) false)
    ∷ create_index (
        index_on "ix_subscriptions_stripe_id" "subscriptions" ("stripe_subscription_id" ∷ []) false)
    ∷ create_index (
        index_on "ix_subscriptions_stripe_subscription_id" "subscriptions"
          ("stripe_subscription_id" ∷ []) true)
    ∷ create_index (index_on "ix_subscriptions_tenant_id" "subscriptions" ("tenant_id" ∷ []) true)
    ∷ create_table usage_events
    ∷ create_index (index_on "ix_usage_events_tenant_id" "usage_events" ("tenant_id" ∷ []) false)
    ∷ create_index (
        index_on "ix_usage_events_tenant_month" "usage_events" ("tenant_id" ∷ "created_at" ∷ [])
          false)
    ∷ create_index (
        index_on "ix_usage_events_tenant_type_month" "usage_events"
          ("tenant_id" ∷ "usage_type" ∷ "created_at" ∷ []) false)
    ∷ create_index (index_on "ix_usage_events_usage_type" "usage_events" ("usage_type" ∷ []) false)
    ∷ []

abbrev pub downgrade_operations : List Operation
downgrade_operations =
    drop_index "ix_usage_events_usage_type" "usage_events"
    ∷ drop_index "ix_usage_events_tenant_type_month" "usage_events"
    ∷ drop_index "ix_usage_events_tenant_month" "usage_events"
    ∷ drop_index "ix_usage_events_tenant_id" "usage_events"
    ∷ drop_table "usage_events"
    ∷ drop_index "ix_subscriptions_tenant_id" "subscriptions"
    ∷ drop_index "ix_subscriptions_stripe_subscription_id" "subscriptions"
    ∷ drop_index "ix_subscriptions_stripe_id" "subscriptions"
    ∷ drop_index "ix_subscriptions_status" "subscriptions"
    ∷ drop_table "subscriptions"
    ∷ drop_index "ix_tenants_stripe_customer_id" "tenants"
    ∷ drop_index "ix_tenants_name" "tenants"
    ∷ drop_table "tenants"
    ∷ drop_index "ix_processed_stripe_events_type_time" "processed_stripe_events"
    ∷ drop_index "ix_processed_stripe_events_event_type" "processed_stripe_events"
    ∷ drop_table "processed_stripe_events"
    ∷ drop_table "plans"
    ∷ []

unfoldable pub upgrade : Exec Schema Exn (Unit {0})
upgrade = apply_all upgrade_operations

unfoldable pub downgrade : Exec Schema Exn (Unit {0})
downgrade = apply_all downgrade_operations
