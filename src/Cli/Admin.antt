-- ===== src/Cli/Admin.antt =====
-- What init-admin does to the accounts (cmd/server/main.go).
use ky_server_base.Prelude.{
  ℕ, String, ◌≡◌, refl, sym, subst, ◌⊎◌, inl, inr, Bool, true, not, ◌&&◌, some, ◌∷◌, arith, ◌==◌,
  eq_iff, Bool-cases,
}
use ky_server_base.Store.Models.{
  User, Db, Backend, Error, Result, ok, err, not_found, already_exists, session_expired, conflict,
  sso_session_ended, db_error,
}
use ky_server_base.Store.Tx.{Io, transaction-rollback}
use ky_server_base.Store.Users.{create_user, get_user_by_username, stamped}
use ky_server_base.Store.Users.Names.{create_user-ok}
use ky_server_base.Store.Sessions.{reset_admin_password, reset_password}
use ky_server_base.Store.Sessions.Passwords.{
  replaced, password_record, reset_admin_password-ok, reset_admin_password-err,
}
use ky_server_base.Cli.{
  AdminCall, AdminReply, answer_write, write_admin, init_admin, new_admin, is_active_admin,
  reset_failed, create_failed, password_reset, admin_created,
}

-- The database after an operator's reset of an account.
abbrev pub after_reset : ℕ → String → String → Db → Db
after_reset now id hash db =
    replaced id (reset_password now hash)
      (password_record id "operator reset; sessions revoked" "" now) db

abbrev pub after_creation : ℕ → String → String → String → Db → Db
after_creation now id username hash db = record db {
  users = stamped now (new_admin id username hash) ∷ db.users;
}

module _ (b : Backend) (c : AdminCall) (username hash : String) (promote : Bool) where
  -- What each answer says of the database that the command read and of the one that it left.
  abbrev pub IsAnswer : Db → AdminReply × Db → Type 0
  IsAnswer db (password_reset, after) =
      (u : User) × ((get_user_by_username b c.read_io username db).0 ≡ ok u)
      × (u.sso_provider ≡ "local")
      × ((promote ≡ true) ⊎ (is_active_admin u ≡ true))
      × (after ≡ after_reset c.now u.id hash (c.meanwhile db))
  IsAnswer db (admin_created, after) =
      ((get_user_by_username b c.read_io username db).0 ≡ err not_found)
      × (after ≡ after_creation c.now c.drawn_id username hash (c.meanwhile db))
  IsAnswer db (reset_failed, after) = after ≡ c.meanwhile db
  IsAnswer db (create_failed, after) = after ≡ c.meanwhile db
  IsAnswer db (reply, after) = after ≡ db

  reset_written-IsAnswer :
      (db : Db) (u : User) (x : Result (Unit {0}) × Db)
      → (get_user_by_username b c.read_io username db).0 ≡ ok u
      → (u.sso_provider == "local") ≡ true
      → (promote ≡ true) ⊎ (is_active_admin u ≡ true)
      → (x.0 ≡ ok tt → x.1 ≡ after_reset c.now u.id hash (c.meanwhile db))
      → ((e : Error) → x.0 ≡ err e → x.1 ≡ c.meanwhile db)
      → IsAnswer db (answer_write password_reset reset_failed x)
  reset_written-IsAnswer db u (ok _, d) found own may done undone =
      (u, found, (eq_iff u.sso_provider "local").0 own, may, done refl)
  reset_written-IsAnswer db u (err e, d) found own may done undone = undone e refl

  create_written-IsAnswer :
      (db : Db) (x : Result (Unit {0}) × Db)
      → (get_user_by_username b c.read_io username db).0 ≡ err not_found
      → (x.0 ≡ ok tt → x.1 ≡ after_creation c.now c.drawn_id username hash (c.meanwhile db))
      → ((e : Error) → x.0 ≡ err e → x.1 ≡ c.meanwhile db)
      → IsAnswer db (answer_write admin_created create_failed x)
  create_written-IsAnswer db (ok _, d) free done undone = (free, done refl)
  create_written-IsAnswer db (err e, d) free done undone = undone e refl

  -- The account was found, and is local.
  write_found-IsAnswer :
      (db : Db) (u : User)
      → (get_user_by_username b c.read_io username db).0 ≡ ok u
      → IsAnswer db (write_admin b c username hash promote (ok u, db))
  unfolding write_admin
  write_found-IsAnswer db u found = elim (Bool-cases (u.sso_provider == "local")) [
    | inr foreign ↦ rw foreign refl
    | inl own ↦ elim (Bool-cases (not promote && not (is_active_admin u))) [
      | inl refused ↦ rw (own, refused) refl
      | inr allowed ↦
          rw (own, allowed)
            (reset_written-IsAnswer db u
              (reset_admin_password c.write_io c.now u.id hash (c.meanwhile db)) found own
              (ground arith)
              (λ e. (reset_admin_password-ok c.write_io c.now u.id hash (c.meanwhile db) e).1)
              (λ x e. reset_admin_password-err c.write_io c.now u.id hash (c.meanwhile db) e))
    ]
  ]

  write_admin-IsAnswer :
      (db : Db) (r : Result User)
      → (get_user_by_username b c.read_io username db).0 ≡ r
      → IsAnswer db (write_admin b c username hash promote (r, db))
  unfolding write_admin
  write_admin-IsAnswer db (ok u) e = write_found-IsAnswer db u e
  write_admin-IsAnswer db (err not_found) e =
      let row = new_admin c.drawn_id username hash in
      create_written-IsAnswer db (create_user b c.write_io c.now row (c.meanwhile db)) e
        (λ h. (create_user-ok b c.write_io c.now row (c.meanwhile db) h).1)
        (λ x h. unfold create_user in transaction-rollback c.write_io _ (c.meanwhile db) h)
  write_admin-IsAnswer db (err already_exists) e = refl
  write_admin-IsAnswer db (err session_expired) e = refl
  write_admin-IsAnswer db (err conflict) e = refl
  write_admin-IsAnswer db (err sso_session_ended) e = refl
  write_admin-IsAnswer db (err db_error) e = refl

by_username-state :
    (b : Backend) (io : Io) (username : String) (db : Db)
    → (get_user_by_username b io username db).1 ≡ db
unfolding get_user_by_username
by_username-state b io username db = ground arith

pub init_admin-IsAnswer :
    (b : Backend) (c : AdminCall) (username pass hash : String) (promote : Bool) (db : Db)
    → c.hash pass ≡ some hash
    → IsAnswer b c username hash promote db (init_admin b c username pass promote db)
unfolding init_admin
init_admin-IsAnswer b c username pass hash promote db e =
    let found = get_user_by_username b c.read_io username db in
    rw (e, init_admin)
      (subst
        (λ (d : Db).
          IsAnswer b c username hash promote db
            (write_admin b c username hash promote (found.0, d)))
        (sym (by_username-state b c.read_io username db))
        (write_admin-IsAnswer b c username hash promote db found.0 refl))
