-- ===== src/Store/Users.antt =====
-- The user store of internal/store/sqlstore.go (userStore): names, writes and lookups.
-- `now` is time.Now().UTC() at the call.
pub mod Names
pub mod Cas
pub mod Access
use ky_server_base.Prelude.{
  ℕ, String, Bool, true, false, not, ◌&&◌, ◌==◌, Option, none, some, List, ◌∷◌, ltb, if◌then◌else◌,
}
use ky_server_base.Sql.{find_where, count_where, update_where, delete_where}
use ky_server_base.Store.Models.{
  User, Backend, ok, err, db_error, not_found, already_exists, conflict, users_ok,
}
use ky_server_base.Store.Tx.{
  Op, Io, lock_name, count_own, count_taken, write_row, count_row, delete_sessions, read_row, ◌>>=◌,
  ◌>>◌, pure, fail, gets, modify, stmt, refuse, transaction,
}

-- A statement that rewrites `users`: a row that breaks a constraint is refused (uniqueErr).
unfoldable pub put_users : Backend → Io → (List User → List User) → Op (Unit {0})
put_users b io f db =
    if io write_row
    then (err db_error, db)
    else if users_ok b.lower db.username_index (f db.users)
    then (ok tt, record db { users = f db.users })
    else (err already_exists, db)

abbrev pub same_name : Backend → String → User → Bool
same_name b username u = b.lower u.username == b.lower username

abbrev pub has_id : String → User → Bool
has_id id u = u.id == id

unfoldable pub check_username_free : Backend → Io → String → String → Op (Unit {0})
check_username_free b io username id = do
  if b.is_postgres then stmt io lock_name else pure tt
  stmt io count_own
  own ← gets (λ db. count_where (λ u. has_id id u && same_name b username u) db.users)
  if ltb 0 own then pure tt else do
    stmt io count_taken
    n ← gets (λ db. count_where (λ u. same_name b username u && not (has_id id u)) db.users)
    refuse (ltb 0 n) already_exists

-- `now` for a zero time
abbrev or_now : ℕ → ℕ → ℕ
or_now t now = if ltb 0 t then t else now

abbrev pub stamped : ℕ → User → User
stamped now user = record user {
  created_at = or_now user.created_at now;
  updated_at = or_now user.updated_at now;
}

unfoldable pub create_user : Backend → Io → ℕ → User → Op (Unit {0})
create_user b io now user =
    transaction io
      do check_username_free b io user.username ""; put_users b io (λ rows. stamped now user ∷ rows)

or_not_found {ℓ} : {A : Type ℓ} → Option A → Op A
or_not_found none = fail not_found
or_not_found (some a) = pure a

-- The first row that passes, or ErrNotFound.
get_user : Io → (User → Bool) → Op User
unfolding or_not_found
get_user io p = do stmt io read_row; found ← gets (λ db. find_where p db.users); or_not_found found

unfoldable pub get_user_by_id : Io → String → Op User
unfolding get_user
get_user_by_id io id = get_user io (has_id id)

unfoldable pub get_user_by_username : Backend → Io → String → Op User
unfolding get_user
get_user_by_username b io username = get_user io (same_name b username)

pub get_user_by_email : Backend → Io → String → Op User
unfolding get_user
get_user_by_email b io email = get_user io (λ u. b.lower u.email == b.lower email)

unfoldable pub get_user_by_sso : Io → String → String → Op User
unfolding get_user
get_user_by_sso io provider subject =
    get_user io (λ u. u.sso_provider == provider && u.sso_subject == subject)

-- The columns that UpdateUser writes.
abbrev set_user : ℕ → User → User → User
set_user now user u = record u {
  username = user.username;
  email = user.email;
  display_name = user.display_name;
  password_hash = user.password_hash;
  role = user.role;
  status = user.status;
  sso_provider = user.sso_provider;
  sso_subject = user.sso_subject;
  push_device_id = user.push_device_id;
  must_change_password = user.must_change_password;
  updated_at = now;
  last_login_at = user.last_login_at;
}

unfoldable pub update_user : Backend → Io → ℕ → User → Op (Unit {0})
update_user b io now user = transaction io do
  check_username_free b io user.username user.id
  rows ← gets (λ db. count_where (has_id user.id) db.users)
  put_users b io (update_where (has_id user.id) (set_user now user))
  refuse (not (ltb 0 rows)) not_found

-- The columns of profileSet.
abbrev pub set_profile : ℕ → User → User → User
set_profile now user u = record u {
  username = user.username;
  email = user.email;
  display_name = user.display_name;
  role = user.role;
  status = user.status;
  updated_at = now;
}

unfoldable pub revoke_sessions : Io → String → Op (Unit {0})
revoke_sessions io id = do
  stmt io delete_sessions
  modify (λ db. record db { sessions = delete_where (λ s. s.user_id == id) db.sessions })

-- `id = ? AND role = ? AND status = ?`
abbrev pub unchanged : String → String → String → User → Bool
unchanged id role status u = has_id id u && (u.role == role && u.status == status)

-- No row matched: the row is gone, or it changed.
unfoldable pub no_match : Io → String → Op (Unit {0})
no_match io id = do
  stmt io count_row
  n ← gets (λ db. count_where (has_id id) db.users)
  if ltb 0 n then fail conflict else fail not_found

-- The statements of updateProfile after the name check.
unfoldable pub swap_row :
    Backend → Io → User → String → String → (User → Bool) → (User → User) → Op (Unit {0})
unfolding revoke_sessions no_match put_users
swap_row b io user prev_role prev_status where_row set_row = do
  rows ← gets (λ db. count_where where_row db.users)
  put_users b io (update_where where_row set_row)
  if not (ltb 0 rows)
      then no_match io user.id
      else if user.role == prev_role && user.status == prev_status
      then pure tt
      else revoke_sessions io user.id

unfoldable pub update_profile :
    Backend → Io → User → String → String → Bool → (User → Bool) → (User → User) → Op (Unit {0})
update_profile b io user prev_role prev_status check_name where_row set_row = transaction io do
  if check_name then check_username_free b io user.username user.id else pure tt
  swap_row b io user prev_role prev_status where_row set_row

unfoldable pub update_user_profile : Backend → Io → ℕ → User → String → String → Op (Unit {0})
update_user_profile b io now user prev_role prev_status =
    update_profile b io user prev_role prev_status true (unchanged user.id prev_role prev_status)
      (set_profile now user)

abbrev pub set_scim_profile : ℕ → User → User → User
set_scim_profile now user u = record (set_profile now user u) {
  sso_subject = if u.sso_provider == "scim" then user.sso_subject else u.sso_subject;
}

unfoldable pub update_scim_profile :
    Backend → Io → ℕ → User → String → String → String → Op (Unit {0})
update_scim_profile b io now user prev_role prev_status prev_subject =
    update_profile b io user prev_role prev_status true
      (λ u. unchanged user.id prev_role prev_status u && u.sso_subject == prev_subject)
      (set_scim_profile now user)

abbrev pub may_take_over : User → String → String → User → Bool
may_take_over user prev_role prev_status u =
    unchanged user.id prev_role prev_status u
    && (u.sso_provider == "kysignon" && (u.sso_subject == user.sso_subject && not u.scim_managed))

unfoldable pub take_over_for_scim : Backend → Io → ℕ → User → String → String → Op (Unit {0})
take_over_for_scim b io now user prev_role prev_status =
    update_profile b io user prev_role prev_status true (may_take_over user prev_role prev_status)
      (λ u. record (set_profile now user u) { scim_managed = true })

unfoldable pub update_user_role : Backend → Io → ℕ → User → String → Op (Unit {0})
update_user_role b io now user prev_role =
    update_profile b io user prev_role user.status false (unchanged user.id prev_role user.status)
      (λ u. record u { role = user.role; updated_at = now })

unfoldable pub link_sso_identity : Io → ℕ → String → String → String → String → Op (Unit {0})
link_sso_identity io now id subject from_provider to_provider =
    let linked =
      λ (u : User). has_id id u && (u.sso_subject == subject && u.sso_provider == from_provider) in
    do
      stmt io write_row
      rows ← gets (λ db. count_where linked db.users)
      modify (λ db. record db {
        users =
            update_where linked (λ u. record u { sso_provider = to_provider; updated_at = now })
              db.users;
      })
      refuse (not (ltb 0 rows)) conflict

-- The rows of `sessions` and `group_members` go with the account (ON DELETE CASCADE).
unfoldable pub delete_user : Io → String → Op (Unit {0})
delete_user io id = do
  stmt io write_row
  rows ← gets (λ db. count_where (has_id id) db.users)
  modify (λ db. record db {
    users = delete_where (has_id id) db.users;
    sessions = delete_where (λ s. s.user_id == id) db.sessions;
    group_members = delete_where (λ m. m.user_id == id) db.group_members;
  })
  refuse (not (ltb 0 rows)) not_found

unfoldable pub count_users : Io → Op ℕ
count_users io = do stmt io count_row; gets (λ db. count_where (λ _. true) db.users)
