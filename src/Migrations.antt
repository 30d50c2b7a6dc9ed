-- ===== src/Migrations.antt =====
-- src/alembic/versions: the schema that the migrations build, and the plans that they insert.
pub mod Schema
pub mod Initial
pub mod Columns
pub mod Undo
pub mod Ready
pub mod Plans
pub mod Laws
