-- ===== src/Examples/Migrating.antt =====
-- The migrations in a database that has alembic's own table.
use flyrank_capstone_meterin.Prelude.{◌≡◌, refl, false, none, [], ◌∷◌, exists}
use flyrank_capstone_meterin.Result.{ok}
use flyrank_capstone_meterin.World.{World}
use flyrank_capstone_meterin.Migrations.Schema.{Schema, string, primary_key, refers_to}
use flyrank_capstone_meterin.Migrations.Columns.{mapped_classes, missing_columns}
use flyrank_capstone_meterin.Migrations.Initial.{upgrade, downgrade}
use flyrank_capstone_meterin.Migrations.Ready.{AreFree, over}
use flyrank_capstone_meterin.Migrations.Undo.{IsClosed}
use flyrank_capstone_meterin.Migrations.Laws.{new_names, initial_schema, upgrade-downgrade}
use flyrank_capstone_meterin.Migrations.Plans
use flyrank_capstone_meterin.Examples.{installation, tables}

abbrev versioned : Schema
versioned = record {
  tables =
      record {
        name = "alembic_version";
        columns =
            record {
              name = "version_num";
              type = string 32;
              server_default = none;
              nullable = false;
            }
            ∷ [];
        constraints = primary_key ("version_num" ∷ []) ∷ [];
      }
      ∷ [];
  indexes = [];
}

versioned-IsClosed : IsClosed versioned
unfolding exists refers_to
versioned-IsClosed name absent = (refl, refl)

versioned-AreFree : AreFree new_names versioned
unfolding exists
versioned-AreFree = refl

upgrade-downgrade_example :
    (upgrade versioned ≡ (ok tt, over initial_schema versioned))
    × (downgrade (upgrade versioned).1 ≡ (ok tt, versioned))
    × (missing_columns mapped_classes (upgrade versioned).1
        ≡ ("tenants", "email")
          ∷ ("subscriptions", "canceled_at")
          ∷ ("processed_stripe_events", "event_id")
          ∷ ("processed_stripe_events", "payload")
          ∷ ("processed_stripe_events", "tenant_id")
          ∷ [])
upgrade-downgrade_example = upgrade-downgrade versioned versioned-IsClosed versioned-AreFree

abbrev no_plans : World
no_plans = record installation { db = record tables { plans = []; subscriptions = [] } }
