-- ===== src/Scim/Users.antt =====
-- The SCIM user handlers of internal/scim/handler.go: Create, Get, Replace, Patch, Delete, the
-- take-over of a KyIdentity account and the retried update. The handlers' mutex is the order of
-- their calls; what other requests write between two store calls is a function on the database.
pub mod Roles
pub mod Managed
pub mod Adopted
use ky_server_base.Prelude.{
  ℕ, zero, suc, ◌+◌, String, Bool, true, false, not, ◌&&◌, Option, none, some, List, ◌==◌,
  if◌then◌else◌, take,
}
use ky_server_base.Store.Models.{
  User, AuditRecord, Db, Backend, Error, Result, ok, err, not_found, already_exists, conflict,
}
use ky_server_base.Store.Tx.{Op, Io}
use ky_server_base.Store.Users.{
  stamped, stamped, get_user_by_id, get_user_by_username, get_user_by_sso, create_user, delete_user,
  update_scim_profile, take_over_for_scim,
}
use ky_server_base.Store.Audit.{log_audit}
use ky_server_base.Scim.Values.{Fields, get, text_or, primary_of, string_value, status_from_active}
use ky_server_base.Scim.Patch.{
  Strings, ScimError, resource_not_found, uniqueness, admin_grant, no_target, store_error,
  PatchOperation, replace_user, apply_user_patch,
}

pub data Answer {ℓ} (A : Type ℓ) : Type ℓ where
  done : A → Answer A
  failed : ScimError → Answer A

abbrev pub Handler {ℓ} : Type ℓ → Type ℓ
Handler A = Db → Answer A × Db

abbrev pub go_on {ℓ κ} : {A : Type ℓ} {B : Type κ} → Answer A × Db → (A → Handler B) → Answer B × Db
go_on (done a, db) f = f a db
go_on (failed e, db) f = (failed e, db)

infixl 5 ◌>>=◌ ◌>>◌
abbrev pub ◌>>=◌ {ℓ κ} : {A : Type ℓ} {B : Type κ} → Handler A → (A → Handler B) → Handler B
◌>>=◌ m f db = go_on (m db) f

abbrev pub ◌>>◌ {ℓ} : {B : Type ℓ} → Handler (Unit {0}) → Handler B → Handler B
m >> k = m >>= λ _. k

abbrev pub answer {ℓ} : {A : Type ℓ} → A → Handler A
answer a db = (done a, db)

abbrev pub reject {ℓ} : {A : Type ℓ} → ScimError → Handler A
reject e db = (failed e, db)

-- `if b { return e }`
abbrev pub reject_if : Bool → ScimError → Handler (Unit {0})
reject_if b e db = ((if b then failed e else done tt), db)

unfoldable pub scim_store_error : Error → ScimError
scim_store_error not_found = resource_not_found
scim_store_error already_exists = uniqueness
scim_store_error e = store_error e

-- A store call whose error is returned through `f`.
abbrev answered {ℓ} : {A : Type ℓ} → (Error → ScimError) → Result A × Db → Answer A × Db
answered f (ok a, db) = (done a, db)
answered f (err e, db) = (failed (f e), db)

abbrev pub stored_as {ℓ} : {A : Type ℓ} → (Error → ScimError) → Op A → Handler A
stored_as f m db = answered f (m db)

-- A store call whose error is dropped (`_ = ...`).
abbrev pub ignored : Op (Unit {0}) → Handler (Unit {0})
ignored m db = (done tt, (m db).1)

-- The failing statements of each store call of a request.
abbrev pub Calls : Type 0
Calls = ℕ → Io

-- checkRole
unfoldable pub grants_admin : Bool → String → String → Bool
grants_admin allow_admin old_role new_role =
    new_role == "admin" && (not (old_role == "admin") && not allow_admin)

unfoldable pub managed_user : Io → String → Handler User
unfolding scim_store_error get_user_by_id
managed_user io id = do
  user ← stored_as scim_store_error (get_user_by_id io id)
  reject_if (not user.scim_managed) resource_not_found
  answer user

abbrev pub audit_of : String → String → String → AuditRecord
audit_of id action resource = record {
  user_id = id;
  action = action;
  resource = resource;
  details = "";
  ip_address = "";
  created_at = 0;
}

-- The account of kyIdentityAccount's second lookup, by name.
abbrev pub by_name : String → Result User × Db → Answer (Option User) × Db
by_name subject (err not_found, db) = (done none, db)
by_name subject (err e, db) = (failed (store_error e), db)
by_name subject (ok u, db) =
    if u.sso_provider == "kysignon" && not u.scim_managed
    then (if not (subject == "") && not (subject == u.sso_subject)
        then (failed uniqueness, db)
        else (done (some u), db))
    else (done none, db)

-- Its first lookup, by the identity provider's subject; `next` is the second.
abbrev pub by_subject : Handler (Option User) → Result User × Db → Answer (Option User) × Db
by_subject next (err not_found, db) = next db
by_subject next (err e, db) = (failed (store_error e), db)
by_subject next (ok u, db) = if u.scim_managed then (failed uniqueness, db) else (done (some u), db)

unfoldable pub ky_identity_account : Backend → Calls → String → String → Handler (Option User)
unfolding get_user_by_sso get_user_by_username
ky_identity_account b io subject username db =
    let next = λ (d : Db). by_name subject (get_user_by_username b (io 1) username d) in
    if subject == ""
    then next db
    else by_subject next (get_user_by_sso (io 0) "kysignon" subject db)

-- What a refused take-over is reported as.
abbrev take_over_error : Error → ScimError
take_over_error conflict = uniqueness
take_over_error not_found = uniqueness
take_over_error e = scim_store_error e

unfoldable pub take_over : Backend → Bool → Calls → ℕ → User → Fields → Handler User
unfolding scim_store_error replace_user grants_admin log_audit
take_over b allow_admin io now user attrs =
    let changed = record (replace_user user attrs) { sso_subject = user.sso_subject } in
    do
      reject_if (grants_admin allow_admin user.role changed.role) admin_grant
      stored_as take_over_error (take_over_for_scim b (io 2) now changed user.role user.status)
      ignored (log_audit (io 3) now (audit_of user.id "scim.user.adopt" changed.username))
      answer (record changed { scim_managed = true; updated_at = now })

-- The account that a create describes, under its new id.
unfoldable pub new_user : String → Fields → User
unfolding get primary_of string_value status_from_active
new_user id attrs = record {
  id = id;
  username = username;
  email = primary_of (get "emails" attrs);
  display_name = string_value attrs "displayName" username;
  password_hash = "";
  role = (let role = primary_of (get "roles" attrs) in if role == "" then "user" else role);
  status = status_from_active attrs;
  sso_provider = "scim";
  sso_subject = string_value attrs "externalId" "";
  scim_managed = true;
  push_device_id = "";
  must_change_password = false;
  created_at = 0;
  updated_at = 0;
  last_login_at = none;
}
  where
    username : String
    username = text_or "" (get "userName" attrs)

unfoldable pub create_new : Backend → Bool → Calls → ℕ → User → Handler User
unfolding scim_store_error grants_admin log_audit
create_new b allow_admin io now user = do
  reject_if (grants_admin allow_admin "" user.role) admin_grant
  stored_as scim_store_error (create_user b (io 2) now user)
  ignored (log_audit (io 3) now (audit_of user.id "scim.user.create" user.username))
  answer (stamped now user)

abbrev create_or_take : Handler User → (User → Handler User) → Option User → Handler User
create_or_take new take none = new
create_or_take new take (some u) = take u

-- `meanwhile` is what other requests write between the lookup and the write.
unfoldable pub create : Backend → Bool → Calls → (Db → Db) → ℕ → String → Fields → Handler User
unfolding new_user ky_identity_account create_new take_over
create b allow_admin io meanwhile now id attrs =
    let user = new_user id attrs in
    do
      existing ← ky_identity_account b io user.sso_subject user.username
      (λ db. (done tt, meanwhile db))
      create_or_take (create_new b allow_admin io now user)
          (λ u. take_over b allow_admin io now u attrs) existing

unfoldable pub get_user : Io → String → Handler User
unfolding managed_user
get_user io id = managed_user io id

-- One pass of the update loop: the failing statements of its read and of its write, the time of the
-- write, and what other requests write before the read and between the two.
pub record Turn : Type 0 where
  pub read_io : Io
  pub write_io : Io
  pub now : ℕ
  pub before : Db → Db
  pub between : Db → Db

-- An adopted account keeps its sign-in subject.
abbrev pub settle_subject : User → User → User
settle_subject old changed =
    if changed.sso_provider == "scim"
    then changed
    else record changed { sso_subject = old.sso_subject }

-- The change of a user, or the error that refuses it.
abbrev pub Change : Type 0
Change = User → Answer User

abbrev changed_by : Answer User → Handler User
changed_by a db = (a, db)

-- The read, the change, and the check of the role.
unfoldable pub prepare : Bool → Turn → String → Change → Handler (User × User)
prepare allow_admin t id change = do
  (λ db. (done tt, t.before db))
  old ← managed_user t.read_io id
  user ← changed_by (change old)
  reject_if (grants_admin allow_admin old.role user.role) admin_grant
  (λ db. (done tt, t.between db))
  answer (old, settle_subject old user)

unfoldable pub write_back : Backend → Turn → User × User → Op (Unit {0})
write_back b t (old, user) =
    update_scim_profile b t.write_io t.now user old.role old.status old.sso_subject

abbrev is_conflict : Result (Unit {0}) → Bool
is_conflict (err conflict) = true
is_conflict _ = false

-- The answer of a pass whose result is final.
abbrev finish : User → Result (Unit {0}) → Answer User
finish user (ok _) = done user
finish user (err e) = failed (scim_store_error e)

abbrev pub retry_or_finish :
    User → Result (Unit {0}) × Db → Option (Handler User) → Answer User × Db
retry_or_finish user (r, db) none = (finish user r, db)
retry_or_finish user (r, db) (some again) = if is_conflict r then again db else (finish user r, db)

-- user.UpdatedAt as the store leaves it
abbrev pub touched : Turn → User → User
touched t user = record user { updated_at = t.now }

-- The loop, with the number of retries left; `turn` gives the passes in order.
unfoldable pub update_from : Backend → Bool → ℕ → ℕ → (ℕ → Turn) → String → Change → Handler User
update_from b allow_admin zero attempt turn id change = do
  pair ← prepare allow_admin (turn attempt) id change
  (λ db. retry_or_finish (touched (turn attempt) pair.1) (write_back b (turn attempt) pair db) none)
update_from b allow_admin (suc retries) attempt turn id change =
    let again = update_from b allow_admin retries (attempt + 1) turn id change in
    do
      pair ← prepare allow_admin (turn attempt) id change
      (λ db.
          retry_or_finish (touched (turn attempt) pair.1) (write_back b (turn attempt) pair db)
            (some again))

unfoldable pub update : Backend → Bool → (ℕ → Turn) → String → Change → Handler User
unfolding update_from
update b allow_admin turn id change = update_from b allow_admin 3 0 turn id change

unfoldable pub replace : Backend → Bool → (ℕ → Turn) → String → Fields → Handler User
unfolding update replace_user
replace b allow_admin turn id attrs =
    update b allow_admin turn id (λ user. done (replace_user user attrs))

abbrev pub or_no_target : Option User → Answer User
or_no_target none = failed no_target
or_no_target (some u) = done u

unfoldable pub patch :
    Backend → Bool → Strings → (ℕ → Turn) → String → List PatchOperation → Handler User
unfolding update apply_user_patch
patch b allow_admin lib turn id operations =
    update b allow_admin turn id (λ user. or_no_target (apply_user_patch lib user operations))

unfoldable pub delete : Io → Io → (Db → Db) → String → Handler (Unit {0})
unfolding managed_user scim_store_error delete_user
delete read_io write_io meanwhile id = do
  user ← managed_user read_io id
  (λ db. (done tt, meanwhile db))
  stored_as scim_store_error (delete_user write_io id)
