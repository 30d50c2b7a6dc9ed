-- ===== src/Migrations/Plans/Laws.antt =====
-- The plans after src/alembic/versions/a4743ba2a4bc_seed_plans.py, and undoing it.
use flyrank_capstone_meterin.Models.{Plan, PlanTier, free, pro}
use flyrank_capstone_meterin.World.{World}
use flyrank_capstone_meterin.Migrations.Plans.{free_row, pro_row}

abbrev pub row_of : PlanTier → Plan
row_of free = free_row
row_of pro = pro_row
