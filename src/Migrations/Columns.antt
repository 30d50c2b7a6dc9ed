-- ===== src/Migrations/Columns.antt =====
-- The columns that the classes of src/models map, and which of them a schema lacks.
use flyrank_capstone_meterin.Prelude.{
  String, Bool, false, not, List, [], ◌∷◌, ◌++◌, str_eq, if◌then◌else◌, select, exists, map,
}
use flyrank_capstone_meterin.Migrations.Schema.{Table, Schema, column_named}

-- A mapped class: its table and the columns.
pub record Mapped : Type 0 where
  pub table : String
  pub columns : List String

-- The columns that `Base` gives to each class.
abbrev base_columns : List String
base_columns = "id" ∷ "created_at" ∷ "updated_at" ∷ []

abbrev plan_class : Mapped
plan_class = record {
  table = "plans";
  columns =
      base_columns
      ++ "name" ∷ "api_call_quota" ∷ "ai_token_quota" ∷ "price_cents" ∷ "stripe_price_id"
        ∷ "is_active" ∷ [];
}

abbrev tenant_class : Mapped
tenant_class = record {
  table = "tenants";
  columns = base_columns ++ "name" ∷ "email" ∷ "stripe_customer_id" ∷ "api_key_hash" ∷ [];
}

abbrev subscription_class : Mapped
subscription_class = record {
  table = "subscriptions";
  columns =
      base_columns
      ++ "tenant_id" ∷ "plan_id" ∷ "stripe_subscription_id" ∷ "status" ∷ "current_period_start"
        ∷ "current_period_end" ∷ "cancel_at_period_end" ∷ "canceled_at" ∷ [];
}

abbrev usage_event_class : Mapped
usage_event_class = record {
  table = "usage_events";
  columns =
      base_columns
      ++ "tenant_id" ∷ "idempotency_key" ∷ "usage_type" ∷ "quantity" ∷ "cost_microunits"
        ∷ "request_ip" ∷ "user_agent" ∷ [];
}

abbrev stripe_event_class : Mapped
stripe_event_class = record {
  table = "processed_stripe_events";
  columns =
      base_columns ++ "event_id" ∷ "event_type" ∷ "payload" ∷ "processed_at" ∷ "tenant_id" ∷ [];
}

abbrev pub mapped_classes : List Mapped
mapped_classes =
    plan_class ∷ tenant_class ∷ subscription_class ∷ usage_event_class ∷ stripe_event_class ∷ []

-- A table of that name has the column.
unfoldable pub has_column : String → String → List Table → Bool
has_column table column [] = false
has_column table column (t ∷ rest) =
    let others = has_column table column rest in
    if str_eq t.name table then exists (column_named column) t.columns else others

abbrev lacking : Schema → Mapped → List (String × String)
lacking s c =
    map (λ column. (c.table, column))
      (select (λ column. not (has_column c.table column s.tables)) c.columns)

-- The mapped columns that the schema lacks, each with its table.
unfoldable pub missing_columns : List Mapped → Schema → List (String × String)
unfolding has_column
missing_columns [] s = []
missing_columns (c ∷ cs) s = lacking s c ++ missing_columns cs s
