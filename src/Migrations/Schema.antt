-- ===== src/Migrations/Schema.antt =====
-- The operations of alembic's `op` that src/alembic/versions calls, on the tables and indexes of a
-- database, the newest first. A refused operation changes nothing. The indexes that the database
-- makes for keys and unique constraints are not listed.
use flyrank_capstone_meterin.Prelude.{
  ℕ, String, Bool, true, false, not, ◌||◌, Option, List, [], ◌∷◌, str_eq, if◌then◌else◌, select,
  exists,
}
use flyrank_capstone_meterin.Result.{ok, err}
use flyrank_capstone_meterin.Exec.{Exec, pure, ◌>>◌}
use flyrank_capstone_meterin.Errors.{Exn, external}

pub data ColumnType : Type 0 where
  string : ℕ → ColumnType
  text big_integer integer boolean uuid date_time : ColumnType
  enum : List String → String → ColumnType

pub record Column : Type 0 where
  pub name : String
  pub type : ColumnType
  pub server_default : Option String
  pub nullable : Bool

-- A foreign key says its columns, the table it refers to, that table's columns and ON DELETE.
pub data TableConstraint : Type 0 where
  primary_key : List String → TableConstraint
  foreign_key : List String → String → List String → Option String → TableConstraint
  unique : List String → String → TableConstraint

pub record Table : Type 0 where
  pub name : String
  pub columns : List Column
  pub constraints : List TableConstraint

pub record Index : Type 0 where
  pub name : String
  pub table : String
  pub columns : List String
  pub unique : Bool

pub record Schema : Type 0 where
  pub tables : List Table
  pub indexes : List Index

-- `op.create_table`, `op.create_index`, `op.drop_index` and `op.drop_table`.
pub data Operation : Type 0 where
  create_table : Table → Operation
  create_index : Index → Operation
  drop_index : String → String → Operation
  drop_table : String → Operation

abbrev pub is_named : String → Table → Bool
is_named name t = str_eq t.name name

abbrev pub index_named : String → Index → Bool
index_named name i = str_eq i.name name

abbrev pub is_on : String → Index → Bool
is_on name i = str_eq i.table name

abbrev pub column_named : String → Column → Bool
column_named name c = str_eq c.name name

-- Tables and indexes share one space of names.
abbrev pub is_taken : String → Schema → Bool
is_taken name s = exists (is_named name) s.tables || exists (index_named name) s.indexes

unfoldable pub refers_to : String → TableConstraint → Bool
refers_to name (foreign_key columns target target_columns ondelete) = str_eq target name
refers_to name _ = false

abbrev pub references : String → Table → Bool
references name t = exists (refers_to name) t.constraints

-- A foreign key to a table that is not there.
unfoldable pub is_dangling : List Table → TableConstraint → Bool
is_dangling tables (foreign_key columns target target_columns ondelete) =
    not (exists (is_named target) tables)
is_dangling tables _ = false

-- The columns of the index are among those of its table, which is there.
unfoldable pub lacks_columns : Index → List Table → Bool
lacks_columns i [] = true
lacks_columns i (t ∷ rest) =
    let others = lacks_columns i rest in
    if str_eq t.name i.table
    then exists (λ column. not (exists (column_named column) t.columns)) i.columns
    else others

unfoldable pub apply : Operation → Exec Schema Exn (Unit {0})
unfolding is_dangling lacks_columns refers_to
apply (create_table t) s =
    if is_taken t.name s
    then (err (external "DuplicateTable"), s)
    else if exists (is_dangling (t ∷ s.tables)) t.constraints
    then (err (external "UndefinedTable"), s)
    else (ok tt, record s { tables = t ∷ s.tables })
apply (create_index i) s =
    if is_taken i.name s
    then (err (external "DuplicateTable"), s)
    else if lacks_columns i s.tables
    then (err (external "UndefinedColumn"), s)
    else (ok tt, record s { indexes = i ∷ s.indexes })
apply (drop_index name table_name) s =
    if exists (index_named name) s.indexes
    then (ok tt, record s { indexes = select (λ i. not (index_named name i)) s.indexes })
    else (err (external "UndefinedObject"), s)
apply (drop_table name) s =
    let rest = select (λ t. not (is_named name t)) s.tables in
    if not (exists (is_named name) s.tables)
    then (err (external "UndefinedTable"), s)
    else if exists (references name) rest
    then (err (external "DependentObjectsStillExist"), s)
    else (ok tt, record { tables = rest; indexes = select (λ i. not (is_on name i)) s.indexes })

unfoldable pub apply_all : List Operation → Exec Schema Exn (Unit {0})
unfolding apply
apply_all [] = pure tt
apply_all (o ∷ rest) = do apply o; apply_all rest
