-- ===== src/Migrations/Erase.antt =====
-- The shape of a schema, its rows left out: what a statement makes of the shape does not depend on
-- the rows (internal/store/migrations/migrations.go).
use ky_server_base.Prelude.{
  String, ◌≡◌, refl, ap, ◌∙◌, inl, inr, Bool, ◌&&◌, Option, none, some, List, [], ◌∷◌, ◌++◌, arith,
  Bool-cases,
}
use ky_server_base.Sql.{any, update_where, delete_where}
use ky_server_base.Migrations.Schema.{
  Schema, Table, Statement, create_table, create_index, add_column, drop_table_if_exists,
  delete_rows, update_rows, exec, exec_all, then_exec, is_table, has_column, append_column,
  extend_rows, set_rows,
}
use ky_server_base.Migrations.Registry.{Migration}
use ky_server_base.Migrations.Run.{
  MigratedDb, Faults, RunError, go_on, step, apply, run_all, recorded, ddl_of,
}

abbrev pub emptied : Table → Table
emptied t = record t { rows = [] }

unfoldable pub erase_tables : List Table → List Table
erase_tables [] = []
erase_tables (t ∷ ts) = emptied t ∷ erase_tables ts

unfoldable pub erase : Schema → Schema
unfolding erase_tables
erase s = record s { tables = erase_tables s.tables }

abbrev erase_option : Option Schema → Option Schema
erase_option none = none
erase_option (some s) = some (erase s)

any-erase :
    (p : Table → Bool) (ts : List Table)
    → ((t : Table) → p (emptied t) ≡ p t)
    → any p (erase_tables ts) ≡ any p ts
unfolding any erase_tables
any-erase p [] h = refl
any-erase p (t ∷ ts) h = ground (arith, any-erase p ts h, h t)

append-erase : (ts us : List Table) → erase_tables (ts ++ us) ≡ erase_tables ts ++ erase_tables us
unfolding erase_tables
append-erase [] us = refl
append-erase (t ∷ ts) us = ap (λ (l : List Table). emptied t ∷ l) (append-erase ts us)

delete-erase :
    (name : String) (ts : List Table)
    → erase_tables (delete_where (is_table name) ts)
      ≡ delete_where (is_table name) (erase_tables ts)
unfolding erase_tables delete_where
delete-erase name [] = refl
delete-erase name (t ∷ ts) = ground (arith, delete-erase name ts)

-- Two changes that agree on the shape of a table.
update-erase :
    (name : String) (f g : Table → Table) (ts : List Table)
    → ((t : Table) → emptied (f t) ≡ g (emptied t))
    → erase_tables (update_where (is_table name) f ts)
      ≡ update_where (is_table name) g (erase_tables ts)
unfolding erase_tables update_where
update-erase name f g [] h = refl
update-erase name f g (t ∷ ts) h = elim (Bool-cases (is_table name t)) [
  | inl hit ↦ rw hit (cc (h t, update-erase name f g ts h))
  | inr miss ↦ rw miss (cc (update-erase name f g ts h))
]

exec-erase : (st : Statement) (s : Schema) → exec st (erase s) ≡ erase_option (exec st s)
unfolding exec erase extend_rows set_rows delete_where
exec-erase (create_table if_absent name columns key) s = ground (
  arith,
  any-erase (is_table name) s.tables (λ t. refl),
  append-erase s.tables (record { name = name; columns = columns; key = key; rows = [] } ∷ []),
)
exec-erase (create_index if_absent name table columns) s =
    ground (arith, any-erase (is_table table) s.tables (λ t. refl))
exec-erase (add_column if_absent table c) s = ground (
  arith,
  any-erase (is_table table) s.tables (λ t. refl),
  any-erase (λ t. is_table table t && has_column c.name t) s.tables (λ t. refl),
  update-erase table (append_column c) (append_column c) s.tables (λ t. refl),
)
exec-erase (drop_table_if_exists name) s = ground (arith, delete-erase name s.tables)
exec-erase (delete_rows table test) s = ground (
  arith,
  any-erase (is_table table) s.tables (λ t. refl),
  update-erase table (λ t. record t { rows = delete_where (test s.tables) t.rows })
      (λ t. record t { rows = delete_where (test (erase_tables s.tables)) t.rows }) s.tables
      (λ t. refl),
)
exec-erase (update_rows table test column value) s = ground (
  arith,
  any-erase (is_table table) s.tables (λ t. refl),
  update-erase table (λ t. record t { rows = set_rows test column value t.rows })
      (λ t. record t { rows = set_rows test column value t.rows }) s.tables (λ t. refl),
)

then_exec-erase :
    (o : Option Schema) (f : Schema → Option Schema)
    → ((s : Schema) → f (erase s) ≡ erase_option (f s))
    → then_exec (erase_option o) f ≡ erase_option (then_exec o f)
then_exec-erase none f h = refl
then_exec-erase (some s) f h = h s

exec_all-erase :
    (sts : List Statement) (s : Schema) → exec_all sts (erase s) ≡ erase_option (exec_all sts s)
unfolding exec_all
exec_all-erase [] s = refl
exec_all-erase (st ∷ rest) s =
    rw (exec-erase st s) (then_exec-erase (exec st s) (exec_all rest) (exec_all-erase rest))

abbrev pub erase_db : MigratedDb → MigratedDb
erase_db db = record db { schema = erase db.schema }

abbrev pub erase_answer : Option RunError × MigratedDb → Option RunError × MigratedDb
erase_answer (e, db) = (e, erase_db db)

recorded-erase :
    (faults : Faults) (m : Migration) (db : MigratedDb) (o : Option Schema)
    → recorded faults m (erase_db db) (erase_option o) ≡ erase_answer (recorded faults m db o)
recorded-erase faults m db none = refl
recorded-erase faults m db (some s) = ground arith

step-erase :
    (faults : Faults) (postgres : Bool) (m : Migration) (db : MigratedDb)
    → step faults postgres m (erase_db db) ≡ erase_answer (step faults postgres m db)
unfolding step apply
step-erase faults postgres m db = ground (
  arith,
  exec_all-erase (ddl_of postgres m) db.schema,
  recorded-erase faults m db (exec_all (ddl_of postgres m) db.schema),
)

go_on-erase :
    (x : Option RunError × MigratedDb) (rest : MigratedDb → Option RunError × MigratedDb)
    → ((db : MigratedDb) → rest (erase_db db) ≡ erase_answer (rest db))
    → go_on (erase_answer x) rest ≡ erase_answer (go_on x rest)
go_on-erase (some e, db) rest h = refl
go_on-erase (none, db) rest h = h db

-- A run makes the same of the shape of the database, whatever the rows.
pub run_all-erase :
    (faults : Faults) (postgres : Bool) (ms : List Migration) (db : MigratedDb)
    → run_all faults postgres ms (erase_db db) ≡ erase_answer (run_all faults postgres ms db)
unfolding run_all
run_all-erase faults postgres [] db = refl
run_all-erase faults postgres (m ∷ ms) db =
    ap (λ (x : Option RunError × MigratedDb). go_on x (run_all faults postgres ms))
      (step-erase faults postgres m db)
    ∙ go_on-erase (step faults postgres m db) (run_all faults postgres ms)
        (run_all-erase faults postgres ms)
