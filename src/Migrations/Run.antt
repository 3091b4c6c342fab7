-- ===== src/Migrations/Run.antt =====
-- Run of internal/store/migrations/migrations.go.
use ky_server_base.Prelude.{
  ℕ, String, Bool, ◌&&◌, ◌||◌, Option, none, some, List, [], ◌∷◌, ◌==◌, leb, if◌then◌else◌,
}
use ky_server_base.Sql.{any}
use ky_server_base.Migrations.Schema.{Schema, Statement, exec_all}
use ky_server_base.Migrations.Registry.{Migration, registry}

-- The database: its schema, and the versions and names of `schema_migrations`, whose times are left
-- out. Before the first start there are none.
pub record MigratedDb : Type 0 where
  pub schema : Schema
  pub applied : List (ℕ × String)

-- The calls that may fail, of one migration by its version; the SQL of a migration may be refused
-- for what the database holds as well.
pub data Call : Type 0 where
  init_table : Call
  count_dollar count_question begin_tx exec_ddl record_version commit_tx : ℕ → Call

abbrev pub Faults : Type 0
Faults = Call → Bool

pub data RunError : Type 0 where
  init_failed : RunError
  check_failed begin_failed ddl_failed record_failed commit_failed : ℕ → RunError

abbrev pub has_version : ℕ → ℕ × String → Bool
has_version v a = leb a.0 v && leb v a.0

abbrev pub is_applied : ℕ → MigratedDb → Bool
is_applied v db = any (has_version v) db.applied

abbrev pub ddl_of : Bool → Migration → List Statement
ddl_of postgres m = if postgres then m.postgres else m.sqlite

-- The SQL and the record of one migration; what fails rolls the transaction back. The version is
-- the primary key of the records.
abbrev pub recorded : Faults → Migration → MigratedDb → Option Schema → Option RunError × MigratedDb
recorded faults m db none = (some (ddl_failed m.version), db)
recorded faults m db (some schema) =
    if faults (record_version m.version)
    then (some (record_failed m.version), db)
    else if faults (commit_tx m.version)
    then (some (commit_failed m.version), db)
    else (none, record { schema = schema; applied = (m.version, m.name) ∷ db.applied })

unfoldable pub apply : Faults → Bool → Migration → MigratedDb → Option RunError × MigratedDb
unfolding exec_all
apply faults postgres m db =
    if faults (begin_tx m.version)
    then (some (begin_failed m.version), db)
    else if faults (exec_ddl m.version)
    then (some (ddl_failed m.version), db)
    else recorded faults m db (exec_all (ddl_of postgres m) db.schema)

abbrev pub go_on :
    Option RunError × MigratedDb
    → (MigratedDb → Option RunError × MigratedDb)
    → Option RunError × MigratedDb
go_on (some e, db) rest = (some e, db)
go_on (none, db) rest = rest db

-- A version that cannot be counted with $1 is counted with ?; an applied one is skipped.
unfoldable pub step : Faults → Bool → Migration → MigratedDb → Option RunError × MigratedDb
unfolding apply any
step faults postgres m db =
    if faults (count_dollar m.version) && faults (count_question m.version)
    then (some (check_failed m.version), db)
    else if is_applied m.version db
    then (none, db)
    else apply faults postgres m db

-- The loop over the registry; the first error ends it.
unfoldable pub run_all : Faults → Bool → List Migration → MigratedDb → Option RunError × MigratedDb
unfolding step
run_all faults postgres [] db = (none, db)
run_all faults postgres (m ∷ ms) db = go_on (step faults postgres m db) (run_all faults postgres ms)

abbrev pub is_postgres : String → Bool
is_postgres driver = driver == "postgresql" || driver == "postgres"

-- `driver` is lowered.
unfoldable pub run : Faults → String → MigratedDb → Option RunError × MigratedDb
unfolding run_all registry
run faults driver db =
    if faults init_table
    then (some init_failed, db)
    else run_all faults (is_postgres driver) registry db
