-- ===== src/Migrations/Names.antt =====
-- EnsureUsernameIndex of internal/store/migrations/migrations.go, over the accounts of the store.
pub mod Listed
pub mod Indexed
use ky_server_base.Prelude.{
  ℕ, zero, suc, ◌+◌, String, Bool, true, not, ◌||◌, Option, none, some, List, [], ◌∷◌, ◌++◌, ◌==◌,
  ltb, if◌then◌else◌, length,
}
use ky_server_base.Dict.{Dict, lookup, insert}
use ky_server_base.Sql.{select_where, count_where, unique_by, order_by}
use ky_server_base.Store.Models.{User, Db, Backend, Result, ok, err, db_error}
use ky_server_base.Store.Tx.{Io, read_row, write_row}
use ky_server_base.Store.Users.{same_name}

-- LOWER(username) IN (SELECT LOWER(username) ... GROUP BY LOWER(username) HAVING COUNT(1) > 1)
abbrev pub is_shared : Backend → List User → User → Bool
is_shared b rows u = ltb 1 (count_where (same_name b u.username) rows)

-- ORDER BY LOWER(username), username
abbrev pub comes_before : Backend → User → User → Bool
comes_before b x y =
    if b.lower x.username == b.lower y.username
    then b.leq x.username y.username
    else b.leq (b.lower x.username) (b.lower y.username)

unfoldable pub names_of : List User → List String
names_of [] = []
names_of (u ∷ us) = u.username ∷ names_of us

unfoldable pub shared_names : Backend → List User → List String
unfolding names_of
shared_names b rows = names_of (order_by (comes_before b) (select_where (is_shared b rows) rows))

-- clashes[i] = append(clashes[i], name)
unfoldable pub append_at : ℕ → String → List (List String) → List (List String)
append_at i name [] = []
append_at zero name (names ∷ rest) = (names ++ (name ∷ [])) ∷ rest
append_at (suc i) name (names ∷ rest) = names ∷ append_at i name rest

-- One turn of the loop over the rows: a new key gets the next index.
abbrev pub place :
    Option ℕ → String → String → Dict ℕ → List (List String) → Dict ℕ × List (List String)
place (some i) key name groups clashes = (groups, append_at i name clashes)
place none key name groups clashes =
    (insert key (length clashes) groups, clashes ++ ((name ∷ []) ∷ []))

-- `to_lower` is strings.ToLower.
unfoldable pub group_names :
    (String → String) → List String → Dict ℕ → List (List String) → List (List String)
unfolding lookup insert append_at
group_names to_lower [] groups clashes = clashes
group_names to_lower (name ∷ names) groups clashes =
    let key = to_lower name in
    let placed = place (lookup key groups) key name groups clashes in
    group_names to_lower names placed.0 placed.1

-- CREATE UNIQUE INDEX, which the rows may break.
abbrev pub build_index : Backend → Io → Db → Result (List (List String)) × Db
build_index b io db =
    if io write_row || not (unique_by (λ u. b.lower u.username) db.users)
    then (err db_error, db)
    else (ok [], record db { username_index = true })

abbrev pub answer_clashes :
    Backend → Io → Db → List (List String) → Result (List (List String)) × Db
answer_clashes b io db [] = build_index b io db
answer_clashes b io db (names ∷ clashes) = (ok (names ∷ clashes), db)

unfoldable pub ensure_username_index :
    Backend → (String → String) → Io → Db → Result (List (List String)) × Db
unfolding shared_names group_names unique_by
ensure_username_index b to_lower io db =
    if io read_row
    then (err db_error, db)
    else answer_clashes b io db (group_names to_lower (shared_names b db.users) [] [])
