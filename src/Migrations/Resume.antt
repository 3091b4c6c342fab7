-- ===== src/Migrations/Resume.antt =====
-- A run that stopped, and the run of the next start (internal/store/migrations/migrations.go).
use ky_server_base.Prelude.{
  zero, suc, take, take, ℕ, String, ◌≡◌, refl, sym, ap, ◌∙◌, ◌⊎◌, inl, inr, Bool, true, false, ◌&&◌,
  Option, none, some, List, [], ◌∷◌, arith, Bool-cases,
}
use ky_server_base.Sql.{any}
use ky_server_base.Migrations.Schema.{Schema, exec_all}
use ky_server_base.Migrations.Registry.{Migration, registry}
use ky_server_base.Migrations.Run.{
  commit_failed, commit_tx, record_failed, check_failed, exec_ddl, record_version, begin_failed,
  count_question, ddl_failed, is_postgres, begin_tx, count_dollar, init_table, MigratedDb, Faults,
  RunError, is_applied, go_on, step, apply, run_all, run, recorded, ddl_of,
}

abbrev pub no_faults : Faults
no_faults _ = false

-- A step either does what a step without faults does, and records the version, or reports an error
-- and leaves the database as it was.
abbrev IsStep :
    Migration → MigratedDb → Option RunError × MigratedDb → Option RunError × MigratedDb → Type 0
IsStep m db x without =
    ((x.0 ≡ none)
      × (x ≡ without)
      × (is_applied m.version x.1 ≡ true)
      × ((v : ℕ) → is_applied v db ≡ true → is_applied v x.1 ≡ true))
    ⊎ ((e : RunError) × (x ≡ (some e, db)))

recorded-IsStep :
    (faults : Faults) (m : Migration) (db : MigratedDb) (o : Option Schema)
    → IsStep m db (recorded faults m db o) (recorded no_faults m db o)
unfolding any
recorded-IsStep faults m db none = inr (ddl_failed m.version, refl)
recorded-IsStep faults m db (some schema) = elim (Bool-cases (faults (record_version m.version))) [
  | inl unrecorded ↦ rw unrecorded (inr (record_failed m.version, refl))
  | inr written ↦ elim (Bool-cases (faults (commit_tx m.version))) [
    | inl undone ↦ rw (written, undone) (inr (commit_failed m.version, refl))
    | inr done ↦ rw (written, done) (inl (refl, refl, ground arith, λ v h. ground arith))
  ]
]

apply-IsStep :
    (faults : Faults) (postgres : Bool) (m : Migration) (db : MigratedDb)
    → IsStep m db (apply faults postgres m db) (apply no_faults postgres m db)
unfolding apply
apply-IsStep faults postgres m db = elim (Bool-cases (faults (begin_tx m.version))) [
  | inl unbegun ↦ rw unbegun (inr (begin_failed m.version, refl))
  | inr begun ↦ elim (Bool-cases (faults (exec_ddl m.version))) [
    | inl failed ↦ rw (begun, failed) (inr (ddl_failed m.version, refl))
    | inr ran ↦
        rw (begun, ran) (recorded-IsStep faults m db (exec_all (ddl_of postgres m) db.schema))
  ]
]

step-IsStep :
    (faults : Faults) (postgres : Bool) (m : Migration) (db : MigratedDb)
    → IsStep m db (step faults postgres m db) (step no_faults postgres m db)
unfolding step
step-IsStep faults postgres m db =
    elim (Bool-cases (faults (count_dollar m.version) && faults (count_question m.version))) [
      | inl unread ↦ rw unread (inr (check_failed m.version, refl))
      | inr read ↦ elim (Bool-cases (is_applied m.version db)) [
        | inl old ↦ rw (read, old) (inl (refl, refl, old, λ v h. h))
        | inr new ↦ rw (read, new) (apply-IsStep faults postgres m db)
      ]
    ]

skip :
    (postgres : Bool) (m : Migration) (db : MigratedDb)
    → is_applied m.version db ≡ true
    → step no_faults postgres m db ≡ (none, db)
unfolding step
skip postgres m db h = rw h refl

-- What is recorded stays recorded.
run_all-keeps :
    (faults : Faults) (postgres : Bool) (ms : List Migration) (v : ℕ) (db : MigratedDb)
    → is_applied v db ≡ true
    → is_applied v (run_all faults postgres ms db).1 ≡ true
unfolding run_all
run_all-keeps faults postgres [] v db h = h
run_all-keeps faults postgres (m ∷ ms) v db h = elim (step-IsStep faults postgres m db) [
  | inl (fine, same, here, kept) ↦
      keeps_on (step faults postgres m db) fine
        (run_all-keeps faults postgres ms v (step faults postgres m db).1 (kept v h))
  | inr (e, stopped) ↦ rw stopped h
]
  where
    keeps_on :
        (x : Option RunError × MigratedDb)
        → x.0 ≡ none
        → is_applied v (run_all faults postgres ms x.1).1 ≡ true
        → is_applied v (go_on x (run_all faults postgres ms)).1 ≡ true
    keeps_on (none, d) fine k = k
    keeps_on (some e, d) fine k = absurd (cc fine)

go_on-none :
    (x : Option RunError × MigratedDb) (rest : MigratedDb → Option RunError × MigratedDb)
    → x.0 ≡ none
    → go_on x rest ≡ rest x.1
go_on-none (none, db) rest e = refl
go_on-none (some x, db) rest e = absurd (cc e)

-- One migration of an earlier run over `first`, before a run over `ms`.
resume_step :
    (faults : Faults) (postgres : Bool) (m : Migration) (first ms : List Migration)
    (db : MigratedDb)
    → run_all no_faults postgres ms (run_all faults postgres first (step faults postgres m db).1).1
      ≡ run_all no_faults postgres ms (step faults postgres m db).1
    → run_all no_faults postgres (m ∷ ms) (run_all faults postgres (m ∷ first) db).1
      ≡ run_all no_faults postgres (m ∷ ms) db
unfolding run_all
resume_step faults postgres m first ms db later = elim (step-IsStep faults postgres m db) [
  | inr (e, stopped) ↦ rw stopped refl
  | inl (fine, same, here, kept) ↦
      let d = (step faults postgres m db).1 in
      let whole = go_on-none (step faults postgres m db) (run_all faults postgres first) fine in
      let stopped = (run_all faults postgres first d).1 in
      let skipped =
        skip postgres m stopped (run_all-keeps faults postgres first m.version d here) in
      let rest = run_all no_faults postgres ms in
      ap (λ (x : Option RunError × MigratedDb). go_on (step no_faults postgres m x.1) rest) whole
      ∙ ap (λ (x : Option RunError × MigratedDb). go_on x rest) skipped
      ∙ later
      ∙ sym (go_on-none (step faults postgres m db) rest fine)
      ∙ ap (λ (x : Option RunError × MigratedDb). go_on x rest) same
]

run_all-resumes :
    (faults : Faults) (postgres : Bool) (ms : List Migration) (db : MigratedDb)
    → run_all no_faults postgres ms (run_all faults postgres ms db).1
      ≡ run_all no_faults postgres ms db
unfolding run_all
run_all-resumes faults postgres [] db = refl
run_all-resumes faults postgres (m ∷ ms) db =
    resume_step faults postgres m ms ms db
      (run_all-resumes faults postgres ms (step faults postgres m db).1)

-- A run over a first part of the migrations, and one over all of them.
pub run_all-take :
    (postgres : Bool) (n : ℕ) (ms : List Migration) (db : MigratedDb)
    → run_all no_faults postgres ms (run_all no_faults postgres (take n ms) db).1
      ≡ run_all no_faults postgres ms db
unfolding run_all
run_all-take postgres zero ms db = refl
run_all-take postgres (suc n) [] db = refl
run_all-take postgres (suc n) (m ∷ ms) db =
    resume_step no_faults postgres m (take n ms) ms db
      (run_all-take postgres n ms (step no_faults postgres m db).1)

-- A start whose migrations stopped at any call, and the next start without a fault, leave what one
-- start without a fault leaves, and report what it reports.
pub run-resumes :
    (faults : Faults) (driver : String) (db : MigratedDb)
    → run no_faults driver (run faults driver db).1 ≡ run no_faults driver db
unfolding run
run-resumes faults driver db = elim (Bool-cases (faults init_table)) [
  | inl failed ↦ rw failed refl
  | inr fine ↦ rw fine (run_all-resumes faults (is_postgres driver) registry db)
]
