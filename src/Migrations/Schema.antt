-- ===== src/Migrations/Schema.antt =====
-- The statements of internal/store/migrations/migrations.go, and what they do to a database's
-- tables. A row is the list of its columns' values; a statement that the database refuses is none.
use ky_server_base.Prelude.{
  String, Bool, true, false, not, ◌&&◌, ◌||◌, Option, none, some, List, [], ◌∷◌, ◌++◌, ◌==◌,
  if◌then◌else◌,
}
use ky_server_base.Sql.{any, update_where, delete_where}
use ky_server_base.Dict.{Dict, insert}

-- `references` names the table whose row a row goes with (ON DELETE CASCADE).
pub data Constraint : Type 0 where
  primary_key auto_increment not_null unique : Constraint
  default : String → Constraint
  references : String → Constraint

pub record Column : Type 0 where
  pub name : String
  pub sql_type : String
  pub constraints : List Constraint

abbrev pub col : String → String → List Constraint → Column
col name sql_type constraints = record {
  name = name;
  sql_type = sql_type;
  constraints = constraints;
}

abbrev pub Row : Type 0
Row = Dict String

pub record Table : Type 0 where
  pub name : String
  pub columns : List Column
  -- the columns of a composite primary key
  pub key : List String
  pub rows : List Row

pub record Index : Type 0 where
  pub name : String
  pub table : String
  pub columns : List String

pub record Schema : Type 0 where
  pub tables : List Table
  pub indexes : List Index

-- The Boolean is IF NOT EXISTS. A test of rows may read the other tables.
pub data Statement : Type 0 where
  create_table : Bool → String → List Column → List String → Statement
  create_index : Bool → String → String → List String → Statement
  add_column : Bool → String → Column → Statement
  drop_table_if_exists : String → Statement
  delete_rows : String → (List Table → Row → Bool) → Statement
  update_rows : String → (Row → Bool) → String → String → Statement

abbrev pub is_table : String → Table → Bool
is_table name t = t.name == name

abbrev pub is_index : String → Index → Bool
is_index name i = i.name == name

abbrev pub has_column : String → Table → Bool
has_column name t = any (λ c. c.name == name) t.columns

-- The value that a new column gives to the rows that are there.
unfoldable pub default_of : List Constraint → String
default_of [] = ""
default_of (default value ∷ rest) = value
default_of (_ ∷ rest) = default_of rest

unfoldable pub extend_rows : Column → List Row → List Row
unfolding default_of
extend_rows c [] = []
extend_rows c (r ∷ rs) = insert c.name (default_of c.constraints) r ∷ extend_rows c rs

unfoldable pub set_rows : (Row → Bool) → String → String → List Row → List Row
set_rows test column value [] = []
set_rows test column value (r ∷ rs) =
    (if test r then insert column value r else r) ∷ set_rows test column value rs

abbrev pub append_column : Column → Table → Table
append_column c t = record t { columns = t.columns ++ (c ∷ []); rows = extend_rows c t.rows }

abbrev is_not_null : Constraint → Bool
is_not_null not_null = true
is_not_null _ = false

abbrev is_default : Constraint → Bool
is_default (default value) = true
is_default _ = false

abbrev is_key : Constraint → Bool
is_key primary_key = true
is_key unique = true
is_key _ = false

-- A column that a table with any rows takes: one that is NOT NULL has a default, and none is a key.
-- SQLite refuses any other for every table, PostgreSQL for a table with rows.
unfoldable pub can_add : Column → Bool
unfolding any
can_add c =
    (not (any is_not_null c.constraints) || any is_default c.constraints)
    && not (any is_key c.constraints)

-- CREATE, ALTER and DROP, DELETE and UPDATE on the schema. ADD COLUMN is refused for a column that
-- some table of either driver would not take.
unfoldable pub exec : Statement → Schema → Option Schema
unfolding can_add any update_where delete_where extend_rows set_rows
exec (create_table if_absent name columns key) s =
    if any (is_table name) s.tables
    then (if if_absent then some s else none)
    else some (record s {
      tables = s.tables ++ (record { name = name; columns = columns; key = key; rows = [] } ∷ []);
    })
exec (create_index if_absent name table columns) s =
    if not (any (is_table table) s.tables)
    then none
    else if any (is_index name) s.indexes
    then (if if_absent then some s else none)
    else some (record s {
      indexes = s.indexes ++ (record { name = name; table = table; columns = columns } ∷ []);
    })
exec (add_column if_absent table c) s =
    if not (any (is_table table) s.tables)
    then none
    else if any (λ t. is_table table t && has_column c.name t) s.tables
    then (if if_absent then some s else none)
    else if not (can_add c)
    then none
    else some (record s { tables = update_where (is_table table) (append_column c) s.tables })
exec (drop_table_if_exists name) s = some (record s {
  tables = delete_where (is_table name) s.tables;
  indexes = delete_where (λ i. i.table == name) s.indexes;
})
exec (delete_rows table test) s =
    if not (any (is_table table) s.tables)
    then none
    else some (record s {
      tables =
          update_where (is_table table)
            (λ t. record t { rows = delete_where (test s.tables) t.rows }) s.tables;
    })
exec (update_rows table test column value) s =
    if not (any (is_table table) s.tables)
    then none
    else some (record s {
      tables =
          update_where (is_table table) (λ t. record t { rows = set_rows test column value t.rows })
            s.tables;
    })

abbrev pub then_exec : Option Schema → (Schema → Option Schema) → Option Schema
then_exec none f = none
then_exec (some s) f = f s

-- The statements of one migration, in order.
unfoldable pub exec_all : List Statement → Schema → Option Schema
unfolding exec
exec_all [] s = some s
exec_all (st ∷ rest) s = then_exec (exec st s) (exec_all rest)
