-- ===== src/Store/Tx.antt =====
-- Statements and transactions of database/sql, as internal/store/sqlstore.go uses them.
-- A statement may fail with an error of the database: `Io` says which statements of a call do.
-- A transaction that ends in an error is rolled back (`defer tx.Rollback()`).
use ky_server_base.Prelude.{arith, ◌≡◌, Bool, if◌then◌else◌}
use ky_server_base.Store.Models.{Db, Error, Result, ok, err, db_error}

pub data Stmt : Type 0 where
  begin_tx lock_name count_own count_taken write_row count_row delete_sessions write_audit : Stmt
  commit_tx check_hash read_fence prune_fences write_fence cleanup read_row read_members : Stmt

-- True at the statements that fail.
abbrev pub Io : Type 0
Io = Stmt → Bool

-- An operation on the database that may fail; what it wrote before it failed stays written.
abbrev pub Op {ℓ} : Type ℓ → Type ℓ
Op A = Db → Result A × Db

abbrev pub continue {ℓ κ} : {A : Type ℓ} {B : Type κ} → Result A × Db → (A → Op B) → Result B × Db
continue (ok a, db) f = f a db
continue (err e, db) f = (err e, db)

infixl 5 ◌>>=◌ ◌>>◌
abbrev pub ◌>>=◌ {ℓ κ} : {A : Type ℓ} {B : Type κ} → Op A → (A → Op B) → Op B
◌>>=◌ m f db = continue (m db) f

abbrev pub ◌>>◌ {ℓ} : {B : Type ℓ} → Op (Unit {0}) → Op B → Op B
m >> k = m >>= λ _. k

abbrev pub pure {ℓ} : {A : Type ℓ} → A → Op A
pure a db = (ok a, db)

abbrev pub fail {ℓ} : {A : Type ℓ} → Error → Op A
fail e db = (err e, db)

abbrev pub gets {ℓ} : {A : Type ℓ} → (Db → A) → Op A
gets f db = (ok (f db), db)

abbrev pub modify : (Db → Db) → Op (Unit {0})
modify f db = (ok tt, f db)

-- A statement that reports nothing: it may fail.
abbrev pub stmt : Io → Stmt → Op (Unit {0})
stmt io s db = ((if io s then err db_error else ok tt), db)

-- `if b { return e }`
abbrev pub refuse : Bool → Error → Op (Unit {0})
refuse b e db = ((if b then err e else ok tt), db)

abbrev settle {ℓ} : {A : Type ℓ} → Db → Result A × Db → Result A × Db
settle db (ok a, db') = (ok a, db')
settle db (err e, db') = (err e, db)

-- BeginTx, the body, Commit; `defer tx.Rollback()` undoes the body of every other return.
unfoldable pub transaction {ℓ} : {A : Type ℓ} → Io → Op A → Op A
transaction io body db = settle db ((do stmt io begin_tx; a ← body; stmt io commit_tx; pure a) db)

-- A transaction that reports an error leaves the database as it was.
pub transaction-rollback {ℓ} :
    {A : Type ℓ} (io : Io) (body : Op A) (db : Db) {e : Error}
    → (transaction io body db).0 ≡ err e
    → (transaction io body db).1 ≡ db
unfolding transaction
transaction-rollback io body db h = ground arith

-- A transaction that reports success did what its body did, and the body succeeded.
pub transaction-success {ℓ} :
    {A : Type ℓ} (io : Io) (body : Op A) (db : Db) {a : A}
    → (transaction io body db).0 ≡ ok a
    → body db ≡ (ok a, (transaction io body db).1)
unfolding transaction
transaction-success io body db h = ground arith
