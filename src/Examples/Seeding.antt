-- ===== src/Examples/Seeding.antt =====
-- The seed script on empty tables, with the texts of numbers in unary.
use flyrank_capstone_meterin.Prelude.{
  ℕ, zero, suc, ◌+◌, ◌<◌, String, false, ◌≡◌, refl, sym, ap, ◌∙◌, none, [], map, exists, sum_where,
}
use flyrank_capstone_meterin.Result.{ok, err}
use flyrank_capstone_meterin.Errors.{external}
use flyrank_capstone_meterin.Migrations.Schema.{Schema, Table, text}
use flyrank_capstone_meterin.Migrations.Columns.{Mapped, mapped_classes, has_column}
use flyrank_capstone_meterin.Migrations.Initial.{upgrade}
use flyrank_capstone_meterin.Migrations.Ready.{AreFree}
use flyrank_capstone_meterin.Migrations.Laws.{new_names}
use flyrank_capstone_meterin.Seed.{
  SeedEnv, RawTables, seed, has_columns, free_api_quota, free_token_quota,
}
use flyrank_capstone_meterin.Seed.Migrated.{seed_after_upgrade}
use flyrank_capstone_meterin.Seed.Keys.{has_dash, IsNumbering}
use flyrank_capstone_meterin.Seed.Laws.{
  HasColumns, is_seeded_event, is_api_call, is_token, seed_totals,
}
use flyrank_capstone_meterin.Examples.{june}

unary : ℕ → String
unary zero = ""
unary (suc n) = String.◌∷◌ "1" (unary n)

count : String → ℕ
count String.[] = 0
count (String.◌∷◌ c s) = suc (count s)

count-unary : (n : ℕ) → count (unary n) ≡ n
unfolding count unary
count-unary zero = refl
count-unary (suc n) = ap suc (count-unary n)

unary_plain : (n : ℕ) → has_dash (unary n) ≡ false
unfolding has_dash unary
unary_plain zero = refl
unary_plain (suc n) = unary_plain n

unary-IsNumbering : IsNumbering unary
unary-IsNumbering = record {
  apart = λ i j h. sym (count-unary i) ∙ ap count h ∙ count-unary j;
  plain = unary_plain;
}

abbrev demo : SeedEnv
demo = record { tenant_id = 7; str = unary; now = june; db_now = june; month_later = june }

abbrev nothing : RawTables
nothing = record { plans = []; tenants = []; subscriptions = []; usage_events = [] }

nothing_fresh : exists (is_seeded_event demo) nothing.usage_events ≡ false
unfolding exists
nothing_fresh = refl

-- The tables of src/models, by the names of their columns.
table_of : Mapped → Table
table_of c = record {
  name = c.table;
  columns =
      map (λ name. record { name = name; type = text; server_default = none; nullable = false })
        c.columns;
  constraints = [];
}

full-HasColumns : HasColumns (map table_of mapped_classes)
unfolding has_columns has_column exists table_of
full-HasColumns = (refl, refl, refl, refl)

seed_totals_example :
    let (r, t') = seed demo (map table_of mapped_classes) nothing in
    (r ≡ ok tt)
    × (sum_where (is_seeded_event demo) (λ _. 1) t'.usage_events ≡ 504989)
    × (sum_where (is_api_call demo) (λ e. e.quantity) t'.usage_events + 1 ≡ free_api_quota)
    × (sum_where (is_token demo) (λ e. e.quantity) t'.usage_events ≡ 49999000)
    × (free_token_quota < sum_where (is_token demo) (λ e. e.quantity) t'.usage_events)
seed_totals_example =
    seed_totals demo unary-IsNumbering nothing nothing_fresh (map table_of mapped_classes)
      full-HasColumns

abbrev blank : Schema
blank = record { tables = []; indexes = [] }

blank-AreFree : AreFree new_names blank
unfolding exists
blank-AreFree = refl

seed_after_upgrade_example :
    seed demo (upgrade blank).1.tables nothing ≡ (err (external "ProgrammingError"), nothing)
seed_after_upgrade_example = seed_after_upgrade demo blank nothing blank-AreFree
