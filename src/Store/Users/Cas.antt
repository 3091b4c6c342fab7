-- ===== src/Store/Users/Cas.antt =====
-- The compare-and-swap writes of userStore.updateProfile: UpdateUserProfile, UpdateSCIMProfile,
-- TakeOverForSCIM, UpdateUserRole, and LinkSSOIdentity.
use ky_server_base.Prelude.{
  ℕ, ◌<◌, String, ◌≡◌, refl, ◌⊎◌, inl, inr, Bool, true, false, ◌&&◌, arith, ◌==◌, if◌then◌else◌,
}
use ky_server_base.Sql.{count_where, update_where, delete_where}
use ky_server_base.Store.Models.{User, Db, Backend, Result, ok, err, Error}
use ky_server_base.Store.Tx.{Op, Io, transaction, transaction-rollback}
use ky_server_base.Store.Users.{
  swap_row, check_username_free, swap_row, update_profile, update_user_profile, update_scim_profile,
  take_over_for_scim, update_user_role, unchanged, set_profile, set_scim_profile, may_take_over,
}
use ky_server_base.Store.Users.Names.{check_username_free-state}

-- Whether the write changes the role or the status.
abbrev pub same_access : User → String → String → Bool
same_access user prev_role prev_status = user.role == prev_role && user.status == prev_status

-- The database after a write that applied: the rows, and the account's sessions gone if its role
-- or status changed.
abbrev pub written : User → Bool → (User → Bool) → (User → User) → Db → Db
written user same where_row set_row db = record db {
  users = update_where where_row set_row db.users;
  sessions = if same then db.sessions else delete_where (λ s. s.user_id == user.id) db.sessions;
}

-- What the statements after the name check did, if they succeeded.
swap_row-ok :
    (b : Backend) (io : Io) (user : User) (prev_role prev_status : String) (where_row : User → Bool)
    (set_row : User → User) (db : Db)
    → (swap_row b io user prev_role prev_status where_row set_row db).0 ≡ ok tt
    → (0 < count_where where_row db.users)
      × ((swap_row b io user prev_role prev_status where_row set_row db).1
          ≡ written user (same_access user prev_role prev_status) where_row set_row db)
unfolding swap_row
swap_row-ok b io user prev_role prev_status where_row set_row db e = ground arith

-- A success found a row that passed the comparison and wrote exactly `written`.
pub update_profile-ok :
    (b : Backend) (io : Io) (user : User) (prev_role prev_status : String) (check_name : Bool)
    (where_row : User → Bool) (set_row : User → User) (db : Db)
    → (update_profile b io user prev_role prev_status check_name where_row set_row db).0 ≡ ok tt
    → (0 < count_where where_row db.users)
      × ((update_profile b io user prev_role prev_status check_name where_row set_row db).1
          ≡ written user (same_access user prev_role prev_status) where_row set_row db)
unfolding update_profile transaction
update_profile-ok b io user prev_role prev_status true where_row set_row db e = ground (
  arith,
  check_username_free-state b io user.username user.id db,
  swap_row-ok b io user prev_role prev_status where_row set_row db,
)
update_profile-ok b io user prev_role prev_status false where_row set_row db e =
    ground (arith, swap_row-ok b io user prev_role prev_status where_row set_row db)

-- The check passed too, where it is made.
update_profile-free :
    (b : Backend) (io : Io) (user : User) (prev_role prev_status : String) (where_row : User → Bool)
    (set_row : User → User) (db : Db)
    → (update_profile b io user prev_role prev_status true where_row set_row db).0 ≡ ok tt
    → (check_username_free b io user.username user.id db).0 ≡ ok tt
unfolding update_profile transaction
update_profile-free b io user prev_role prev_status where_row set_row db e =
    ground (arith, check_username_free-state b io user.username user.id db)

-- An error leaves the database as it was.
update_profile-err :
    (b : Backend) (io : Io) (user : User) (prev_role prev_status : String) (check_name : Bool)
    (where_row : User → Bool) (set_row : User → User) (db : Db) {e : Error}
    → (update_profile b io user prev_role prev_status check_name where_row set_row db).0 ≡ err e
    → (update_profile b io user prev_role prev_status check_name where_row set_row db).1 ≡ db
unfolding update_profile
update_profile-err b io user prev_role prev_status check_name where_row set_row db e =
    transaction-rollback io _ db e

-- The four compare-and-swap writes of an account.
pub data Swap : Type 0 where
  profile : ℕ → User → String → String → Swap
  scim_profile : ℕ → User → String → String → String → Swap
  take_over : ℕ → User → String → String → Swap
  role_only : ℕ → User → String → Swap

unfoldable pub run_swap : Backend → Io → Swap → Op (Unit {0})
unfolding update_user_profile update_scim_profile take_over_for_scim update_user_role
run_swap b io (profile now user pr ps) = update_user_profile b io now user pr ps
run_swap b io (scim_profile now user pr ps subject) =
    update_scim_profile b io now user pr ps subject
run_swap b io (take_over now user pr ps) = take_over_for_scim b io now user pr ps
run_swap b io (role_only now user pr) = update_user_role b io now user pr

abbrev pub target : Swap → User
target (profile now user pr ps) = user
target (scim_profile now user pr ps subject) = user
target (take_over now user pr ps) = user
target (role_only now user pr) = user

-- The role and the status that the caller read.
abbrev pub read_role : Swap → String
read_role (profile now user pr ps) = pr
read_role (scim_profile now user pr ps subject) = pr
read_role (take_over now user pr ps) = pr
read_role (role_only now user pr) = pr

abbrev pub read_status : Swap → String
read_status (profile now user pr ps) = ps
read_status (scim_profile now user pr ps subject) = ps
read_status (take_over now user pr ps) = ps
read_status (role_only now user pr) = user.status

-- The rows that a write applies to, and what it makes of one.
abbrev pub applies : Swap → User → Bool
applies (profile now user pr ps) = unchanged user.id pr ps
applies (scim_profile now user pr ps subject) =
    λ u. unchanged user.id pr ps u && u.sso_subject == subject
applies (take_over now user pr ps) = may_take_over user pr ps
applies (role_only now user pr) = unchanged user.id pr user.status

abbrev pub new_row : Swap → User → User
new_row (profile now user pr ps) = set_profile now user
new_row (scim_profile now user pr ps subject) = set_scim_profile now user
new_row (take_over now user pr ps) = λ u. record (set_profile now user u) { scim_managed = true }
new_row (role_only now user pr) = λ u. record u { role = user.role; updated_at = now }

abbrev pub keeps_access : Swap → Bool
keeps_access s = same_access (target s) (read_role s) (read_status s)

abbrev pub after_swap : Swap → Db → Db
after_swap s = written (target s) (keeps_access s) (applies s) (new_row s)

pub run_swap-ok :
    (b : Backend) (io : Io) (s : Swap) (db : Db)
    → (run_swap b io s db).0 ≡ ok tt
    → (0 < count_where (applies s) db.users) × ((run_swap b io s db).1 ≡ after_swap s db)
unfolding run_swap
run_swap-ok b io (profile now user pr ps) db e = update_profile-ok b io user pr ps true _ _ db e
run_swap-ok b io (scim_profile now user pr ps subject) db e =
    update_profile-ok b io user pr ps true _ _ db e
run_swap-ok b io (take_over now user pr ps) db e = update_profile-ok b io user pr ps true _ _ db e
run_swap-ok b io (role_only now user pr) db e =
    update_profile-ok b io user pr user.status false _ _ db e

pub run_swap-err :
    (b : Backend) (io : Io) (s : Swap) (db : Db) {e : Error}
    → (run_swap b io s db).0 ≡ err e
    → (run_swap b io s db).1 ≡ db
unfolding run_swap
run_swap-err b io (profile now user pr ps) db e = update_profile-err b io user pr ps true _ _ db e
run_swap-err b io (scim_profile now user pr ps subject) db e =
    update_profile-err b io user pr ps true _ _ db e
run_swap-err b io (take_over now user pr ps) db e = update_profile-err b io user pr ps true _ _ db e
run_swap-err b io (role_only now user pr) db e =
    update_profile-err b io user pr user.status false _ _ db e

pub Result-cases : (r : Result (Unit {0})) → (r ≡ ok tt) ⊎ ((e : Error) × (r ≡ err e))
Result-cases (ok tt) = inl refl
Result-cases (err e) = inr (e, refl)

pub run_swap-scim_profile :
    (b : Backend) (io : Io) (now : ℕ) (user : User) (pr ps subject : String)
    → update_scim_profile b io now user pr ps subject
      ≡ run_swap b io (scim_profile now user pr ps subject)
unfolding run_swap
run_swap-scim_profile b io now user pr ps subject = refl

pub run_swap-take_over :
    (b : Backend) (io : Io) (now : ℕ) (user : User) (pr ps : String)
    → take_over_for_scim b io now user pr ps ≡ run_swap b io (take_over now user pr ps)
unfolding run_swap
run_swap-take_over b io now user pr ps = refl

pub run_swap-role :
    (b : Backend) (io : Io) (now : ℕ) (user : User) (pr : String)
    → update_user_role b io now user pr ≡ run_swap b io (role_only now user pr)
unfolding run_swap
run_swap-role b io now user pr = refl
