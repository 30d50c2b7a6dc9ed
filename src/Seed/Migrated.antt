-- ===== src/Seed/Migrated.antt =====
-- src/seed.py after the migrations of src/alembic/versions, which it asks to be run first.
use flyrank_capstone_meterin.Prelude.{◌≡◌, refl, exists}
use flyrank_capstone_meterin.Result.{err}
use flyrank_capstone_meterin.Errors.{external}
use flyrank_capstone_meterin.Migrations.Schema.{Schema}
use flyrank_capstone_meterin.Migrations.Columns.{has_column}
use flyrank_capstone_meterin.Migrations.Initial.{upgrade}
use flyrank_capstone_meterin.Migrations.Ready.{AreFree}
use flyrank_capstone_meterin.Migrations.Laws.{new_names, upgrade_done}
use flyrank_capstone_meterin.Seed.{
  SeedEnv, RawTables, has_columns, execute, insert_account, commit_after, seed,
}

-- In the schema that the first migration makes, in a database where its names are not in use, the
-- script raises, and every table is as it was: no plan, tenant, subscription or event is left.
pub seed_after_upgrade :
    (env : SeedEnv) (s : Schema) (t : RawTables)
    → AreFree new_names s
    → seed env (upgrade s).1.tables t ≡ (err (external "ProgrammingError"), t)
unfolding seed commit_after insert_account execute has_columns has_column exists
seed_after_upgrade env s t free = rw (upgrade_done s free) refl
