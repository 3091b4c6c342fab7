-- ===== src/Cli.antt =====
-- The accounts that the command line makes: runInitAdmin and initAdmin of cmd/server/main.go, and
-- the administrator that runServer makes for an empty database.
pub mod Admin
pub mod Promotion
pub mod Boot
mod Tests
use ky_server_base.Prelude.{
  ℕ, String, Bool, true, false, not, ◌&&◌, ◌||◌, Option, none, some, ◌==◌, ltb, if◌then◌else◌,
}
use ky_server_base.Store.Models.{User, Db, Backend, Result, ok, err, not_found}
use ky_server_base.Store.Tx.{Io}
use ky_server_base.Store.Users.{create_user, get_user_by_username, count_users}
use ky_server_base.Store.Sessions.{reset_admin_password}
use ky_server_base.Config.Texts.{byte_len}

-- The calls of one command: the failing statements of its read and of its write, the time of the
-- write, what other processes write in between, the drawn id with its prefix "usr_", and
-- password.Hash, which may fail.
pub record AdminCall : Type 0 where
  pub read_io : Io
  pub write_io : Io
  pub now : ℕ
  pub meanwhile : Db → Db
  pub drawn_id : String
  pub hash : String → Option String

pub data AdminReply : Type 0 where
  password_too_short hash_failed read_failed not_local not_administrator : AdminReply
  reset_failed create_failed password_reset admin_created : AdminReply

abbrev pub new_admin : String → String → String → User
new_admin id username hash = record {
  id = id;
  username = username;
  email = "";
  display_name = "Administrator";
  password_hash = hash;
  role = "admin";
  status = "active";
  sso_provider = "local";
  sso_subject = "";
  scim_managed = false;
  push_device_id = "";
  must_change_password = true;
  created_at = 0;
  updated_at = 0;
  last_login_at = none;
}

abbrev pub is_active_admin : User → Bool
is_active_admin u = u.role == "admin" && u.status == "active"

abbrev pub answer_write : AdminReply → AdminReply → Result (Unit {0}) × Db → AdminReply × Db
answer_write done failed (ok _, db) = (done, db)
answer_write done failed (err e, db) = (failed, db)

-- What is done for the account that has the name, or for none.
unfoldable pub write_admin :
    Backend → AdminCall → String → String → Bool → Result User × Db → AdminReply × Db
unfolding create_user reset_admin_password
write_admin b c username hash promote (ok u, db) =
    if not (u.sso_provider == "local")
    then (not_local, db)
    else if not promote && not (is_active_admin u)
    then (not_administrator, db)
    else answer_write password_reset reset_failed
        (reset_admin_password c.write_io c.now u.id hash (c.meanwhile db))
write_admin b c username hash promote (err not_found, db) =
    answer_write admin_created create_failed
      (create_user b c.write_io c.now (new_admin c.drawn_id username hash) (c.meanwhile db))
write_admin b c username hash promote (err e, db) = (read_failed, db)

unfoldable pub init_admin : Backend → AdminCall → String → String → Bool → Db → AdminReply × Db
unfolding write_admin get_user_by_username
init_admin b c username pass promote db = elim (c.hash pass) [
  | none ↦ (hash_failed, db)
  | some hash ↦ write_admin b c username hash promote (get_user_by_username b c.read_io username db)
]

-- The flags are checked before the database is opened.
unfoldable pub run_init_admin : Backend → AdminCall → String → String → Bool → Db → AdminReply × Db
unfolding init_admin byte_len
run_init_admin b c username pass promote db =
    if pass == "" || ltb (byte_len pass) 12
    then (password_too_short, db)
    else init_admin b c username pass promote db

-- An error of the count is dropped (`count, _ :=`), and the count is 0 then.
abbrev pub count_or_zero : Result ℕ → ℕ
count_or_zero (ok n) = n
count_or_zero (err e) = 0

-- Whether the server starts, and what it did first.
pub data BootReply : Type 0 where
  already_seeded boot_hash_failed boot_create_failed seeded : BootReply

abbrev pub answer_boot : Result (Unit {0}) × Db → BootReply × Db
answer_boot (ok _, db) = (seeded, db)
answer_boot (err e, db) = (boot_create_failed, db)

-- The first administrator's password is KY_ADMIN_PASSWORD, or drawn if that is not set.
unfoldable pub bootstrap : Backend → AdminCall → String → String → Db → BootReply × Db
unfolding create_user count_users
bootstrap b c admin_password drawn_password db =
    if ltb 0 (count_or_zero (count_users c.read_io db).0)
    then (already_seeded, db)
    else elim (c.hash (if admin_password == "" then drawn_password else admin_password)) [
      | none ↦ (boot_hash_failed, db)
      | some hash ↦
          answer_boot
            (create_user b c.write_io c.now (new_admin c.drawn_id "admin" hash) (c.meanwhile db))
    ]
