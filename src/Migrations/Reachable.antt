-- ===== src/Migrations/Reachable.antt =====
-- Migration 7 of internal/store/migrations/migrations.go: the sessions that no back-channel logout
-- can reach.
use ky_server_base.Prelude.{
  String, ◌≡◌, refl, sym, ap, ◌∙◌, inl, inr, Bool, true, false, not, ◌&&◌, Option, none, some, List,
  [], ◌∷◌, arith, ◌==◌, eq_iff, if◌then◌else◌, Bool-cases,
}
use ky_server_base.Sql.{any, update_where, delete_where}
use ky_server_base.Migrations.Schema.{
  Statement, add_column, Schema, Table, Row, Column, exec, exec_all, is_table, append_column,
  then_exec, delete_rows,
}
use ky_server_base.Migrations.Registry.Later.{
  rows_of, is_unreachable, is_of_sso_user, drop_unreachable_sso_sessions_sqlite,
  drop_unreachable_sso_sessions_postgres, value,
}

-- A deletion of rows, seen from a table's rows.
abbrev cleared : String → (Row → Bool) → List Table → List Table
cleared name test = update_where (is_table name) (λ t. record t { rows = delete_where test t.rows })

rows_of-cleared :
    (name : String) (test : Row → Bool) (ts : List Table)
    → rows_of name (cleared name test ts) ≡ delete_where test (rows_of name ts)
unfolding update_where delete_where
rows_of-cleared name test [] = refl
rows_of-cleared name test (t ∷ ts) = elim (Bool-cases (is_table name t)) [
  | inl hit ↦ rw (hit, hit) refl
  | inr miss ↦ rw (miss, miss) (rows_of-cleared name test ts)
]

-- A change of other tables.
rows_of-other :
    (name other : String) (f : Table → Table) (ts : List Table)
    → ((t : Table) → (f t).name ≡ t.name)
    → (name == other) ≡ false
    → rows_of name (update_where (is_table other) f ts) ≡ rows_of name ts
unfolding update_where
rows_of-other name other f [] h apart = refl
rows_of-other name other f (t ∷ ts) h apart = ground (
  arith,
  rows_of-other name other f ts h apart,
  h t,
  eq_iff t.name name,
  eq_iff t.name other,
  eq_iff name other,
)

-- None of the rows that a deletion leaves passes its test.
none_left : (test : Row → Bool) (rows : List Row) → any test (delete_where test rows) ≡ false
unfolding any delete_where
none_left test [] = refl
none_left test (r ∷ rs) = ground (arith, none_left test rs)

some_inj : {x y : Schema} → some x ≡ some y → x ≡ y
some_inj e = cc e

then_exec-some :
    (o : Option Schema) (f : Schema → Option Schema) (s' : Schema)
    → then_exec o f ≡ some s'
    → (s : Schema) × (o ≡ some s) × (f s ≡ some s')
then_exec-some none f s' e = absurd (cc e)
then_exec-some (some s) f s' e = (s, refl, e)

delete_rows-tables :
    (name : String) (test : List Table → Row → Bool) (s s' : Schema)
    → exec (delete_rows name test) s ≡ some s'
    → s'.tables ≡ cleared name (test s.tables) s.tables
unfolding exec
delete_rows-tables name test s s' e = ground arith

-- A new column of one table leaves the rows of another.
add_column-rows :
    (if_absent : Bool) (table name : String) (c : Column) (s s' : Schema)
    → (name == table) ≡ false
    → exec (add_column if_absent table c) s ≡ some s'
    → rows_of name s'.tables ≡ rows_of name s.tables
unfolding exec
add_column-rows if_absent table name c s s' apart e =
    ground (arith, rows_of-other name table (append_column c) s.tables (λ t. refl) apart)

delete_rows-rows :
    (table name : String) (test : List Table → Row → Bool) (s s' : Schema)
    → (name == table) ≡ false
    → exec (delete_rows table test) s ≡ some s'
    → rows_of name s'.tables ≡ rows_of name s.tables
delete_rows-rows table name test s s' apart e =
    ap (rows_of name) (delete_rows-tables table test s s' e)
    ∙ rows_of-other name table _ s.tables (λ t. refl) apart

-- `is_unreachable`, over the accounts.
abbrev unreachable_by : List Row → Row → Bool
unreachable_by accounts r =
    value "sso_sid" r == ""
    && any (λ u. value "id" u == value "user_id" r && not (value "sso_provider" u == "local"))
        accounts

abbrev dropping : Bool → Column → List Statement
dropping if_absent c =
    delete_rows "sessions" is_unreachable
    ∷ delete_rows "device_pairings" is_of_sso_user
    ∷ add_column if_absent "device_pairings" c
    ∷ []

-- What is left of the sessions, and that the accounts are left alone.
abbrev pub IsReachable : Schema → Schema → Type 0
IsReachable before after =
    (any (is_unreachable after.tables) (rows_of "sessions" after.tables) ≡ false)
    × (rows_of "sessions" after.tables
        ≡ delete_where (is_unreachable before.tables) (rows_of "sessions" before.tables))
    × (rows_of "users" after.tables ≡ rows_of "users" before.tables)

dropping-IsReachable :
    (if_absent : Bool) (c : Column) (s s' : Schema)
    → exec_all (dropping if_absent c) s ≡ some s'
    → IsReachable s s'
unfolding exec_all
dropping-IsReachable if_absent c s s' e =
    let (s1, first, e1) = then_exec-some (exec (delete_rows "sessions" is_unreachable) s) _ s' e in
    let (s2, second, e2) =
      then_exec-some (exec (delete_rows "device_pairings" is_of_sso_user) s1) _ s' e1 in
    let (s3, third, e3) =
      then_exec-some (exec (add_column if_absent "device_pairings" c) s2) _ s' e2 in
    let last : s3 ≡ s' = some_inj e3 in
    let users : rows_of "users" s'.tables ≡ rows_of "users" s.tables =
      ap (λ (x : Schema). rows_of "users" x.tables) (sym last)
      ∙ add_column-rows if_absent "device_pairings" "users" c s2 s3 refl third
      ∙ delete_rows-rows "device_pairings" "users" is_of_sso_user s1 s2 refl second
      ∙ delete_rows-rows "sessions" "users" is_unreachable s s1 refl first in
    let sessions : rows_of "sessions" s'.tables
        ≡ delete_where (is_unreachable s.tables) (rows_of "sessions" s.tables) =
      ap (λ (x : Schema). rows_of "sessions" x.tables) (sym last)
      ∙ add_column-rows if_absent "device_pairings" "sessions" c s2 s3 refl third
      ∙ delete_rows-rows "device_pairings" "sessions" is_of_sso_user s1 s2 refl second
      ∙ ap (rows_of "sessions") (delete_rows-tables "sessions" is_unreachable s s1 first)
      ∙ rows_of-cleared "sessions" (is_unreachable s.tables) s.tables in
    let same : is_unreachable s'.tables ≡ is_unreachable s.tables =
      ap (λ (accounts : List Row). unreachable_by accounts) users in
    (
      ap (λ (test : Row → Bool). any test (rows_of "sessions" s'.tables)) same
          ∙ ap (any (is_unreachable s.tables)) sessions
          ∙ none_left (is_unreachable s.tables) (rows_of "sessions" s.tables),
      sessions,
      users,
    )

-- Migration 7, on either driver, ends exactly the sessions of single sign-on accounts that have no
-- sid, so that afterwards a back-channel logout can reach every session of such an account; the
-- other sessions and the accounts stay.
pub drop_unreachable-IsReachable :
    (postgres : Bool) (s s' : Schema)
    → exec_all
        (if postgres
          then drop_unreachable_sso_sessions_postgres
          else drop_unreachable_sso_sessions_sqlite)
        s
      ≡ some s'
    → IsReachable s s'
drop_unreachable-IsReachable true s s' e = dropping-IsReachable true _ s s' e
drop_unreachable-IsReachable false s s' e = dropping-IsReachable false _ s s' e
