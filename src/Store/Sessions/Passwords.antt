-- ===== src/Store/Sessions/Passwords.antt =====
-- Password replacement: CompletePasswordChange and ResetAdminPassword, and sign-ins after them.
use ky_server_base.Prelude.{
  ℕ, ◌≤◌, String, ◌≡◌, refl, ◌≢◌, ◌⊎◌, inl, inr, List, [], ◌∷◌, arith, ◌==◌, eq_iff,
}
use ky_server_base.Sql.{count_where, update_where, delete_where}
use ky_server_base.Sql.Laws.{count_mono}
use ky_server_base.Store.Models.{User, Session, AuditRecord, Db, ok, err, Error}
use ky_server_base.Store.Tx.{Io, transaction, transaction-rollback}
use ky_server_base.Store.Users.{has_id, revoke_sessions}
use ky_server_base.Store.Users.Names.{IsKeyed}
use ky_server_base.Store.Sessions.{
  create_session, holds_password, is_local, changed_password, reset_password,
  complete_password_change, reset_admin_password,
}
use ky_server_base.Store.Users.Cas.{Result-cases}
use ky_server_base.Store.Sessions.Fences.{create_session-ok}

abbrev pub password_record : String → String → String → ℕ → AuditRecord
password_record id details ip now = record {
  user_id = id;
  action = "auth.password_changed";
  resource = "user";
  details = details;
  ip_address = ip;
  created_at = now;
}

-- The database after a password write: one local account's row, no session of it, one more record.
abbrev pub replaced : String → (User → User) → AuditRecord → Db → Db
replaced id f entry db = record db {
  users = update_where (is_local id) f db.users;
  sessions = delete_where (λ s. s.user_id == id) db.sessions;
  audit_records = entry ∷ db.audit_records;
}

complete_password_change-ok :
    (io : Io) (now : ℕ) (id old_hash new_hash ip : String) (db : Db)
    → (complete_password_change io now id old_hash new_hash ip db).0 ≡ ok tt
    → (count_where (holds_password id old_hash) db.users ≡ 1)
      × (count_where (is_local id) db.users ≡ 1)
      × ((complete_password_change io now id old_hash new_hash ip db).1
          ≡ replaced id
              (changed_password now new_hash)
              (password_record id "password changed; sessions revoked" ip now)
              db)
unfolding complete_password_change transaction revoke_sessions
complete_password_change-ok io now id old_hash new_hash ip db e = ground arith

complete_password_change-err :
    (io : Io) (now : ℕ) (id old_hash new_hash ip : String) (db : Db) {e : Error}
    → (complete_password_change io now id old_hash new_hash ip db).0 ≡ err e
    → (complete_password_change io now id old_hash new_hash ip db).1 ≡ db
unfolding complete_password_change
complete_password_change-err io now id old_hash new_hash ip db e = transaction-rollback io _ db e

pub reset_admin_password-ok :
    (io : Io) (now : ℕ) (id new_hash : String) (db : Db)
    → (reset_admin_password io now id new_hash db).0 ≡ ok tt
    → (count_where (is_local id) db.users ≡ 1)
      × ((reset_admin_password io now id new_hash db).1
          ≡ replaced id
              (reset_password now new_hash)
              (password_record id "operator reset; sessions revoked" "" now)
              db)
unfolding reset_admin_password transaction revoke_sessions
reset_admin_password-ok io now id new_hash db e = ground arith

pub reset_admin_password-err :
    (io : Io) (now : ℕ) (id new_hash : String) (db : Db) {e : Error}
    → (reset_admin_password io now id new_hash db).0 ≡ err e
    → (reset_admin_password io now id new_hash db).1 ≡ db
unfolding reset_admin_password
reset_admin_password-err io now id new_hash db e = transaction-rollback io _ db e

-- A password change that reports success found the account active with the old hash and local,
-- and wrote the new hash, cleared the flag, ended the account's sessions and recorded it; one that
-- reports an error changed nothing.
pub complete_password_change-cases :
    (io : Io) (now : ℕ) (id old_hash new_hash ip : String) (db : Db)
    → (((complete_password_change io now id old_hash new_hash ip db).0 ≡ ok tt)
        × (count_where (holds_password id old_hash) db.users ≡ 1)
        × (count_where (is_local id) db.users ≡ 1)
        × ((complete_password_change io now id old_hash new_hash ip db).1
            ≡ replaced id
                (changed_password now new_hash)
                (password_record id "password changed; sessions revoked" ip now)
                db))
      ⊎ ((e : Error) × ((complete_password_change io now id old_hash new_hash ip db).0 ≡ err e)
          × ((complete_password_change io now id old_hash new_hash ip db).1 ≡ db))
complete_password_change-cases io now id old_hash new_hash ip db =
    elim (Result-cases (complete_password_change io now id old_hash new_hash ip db).0) [
      | inl e ↦
          let (held, is_own, done) =
            complete_password_change-ok io now id old_hash new_hash ip db e in
          inl (e, held, is_own, done)
      | inr (x, e) ↦ inr (x, e, complete_password_change-err io now id old_hash new_hash ip db e)
    ]

-- An operator's reset that reports success found one local account of that id and made it an
-- active administrator under the new hash who must change it, ended its sessions and recorded it;
-- one that reports an error changed nothing.
pub reset_admin_password-cases :
    (io : Io) (now : ℕ) (id new_hash : String) (db : Db)
    → (((reset_admin_password io now id new_hash db).0 ≡ ok tt)
        × (count_where (is_local id) db.users ≡ 1)
        × ((reset_admin_password io now id new_hash db).1
            ≡ replaced id
                (reset_password now new_hash)
                (password_record id "operator reset; sessions revoked" "" now)
                db))
      ⊎ ((e : Error) × ((reset_admin_password io now id new_hash db).0 ≡ err e)
          × ((reset_admin_password io now id new_hash db).1 ≡ db))
reset_admin_password-cases io now id new_hash db =
    elim (Result-cases (reset_admin_password io now id new_hash db).0) [
      | inl e ↦
          let (is_own, done) = reset_admin_password-ok io now id new_hash db e in
          inl (e, is_own, done)
      | inr (x, e) ↦ inr (x, e, reset_admin_password-err io now id new_hash db e)
    ]

-- No row of a keyed table holds the old password after the write.
old_hash_gone :
    (now : ℕ) (id old_hash new_hash : String) (rows : List User)
    → new_hash ≢ old_hash
    → count_where (has_id id) rows ≤ count_where (is_local id) rows
    → count_where
        (holds_password id old_hash)
        (update_where (is_local id) (changed_password now new_hash) rows)
      ≡ 0
unfolding count_where update_where
old_hash_gone now id old_hash new_hash [] ne all_local = refl
old_hash_gone now id old_hash new_hash (u ∷ us) ne all_local = ground (
  arith,
  eq_iff new_hash old_hash,
  old_hash_gone now id old_hash new_hash us ne,
  count_mono (is_local id) (has_id id) us (λ x h. ground arith),
)

-- Where ids are unique, after a successful change of the password to another hash no sign-in that
-- verified the old hash succeeds.
pub no_login_with_old_hash :
    (io io' : Io) (now later : ℕ) (id old_hash new_hash ip : String) (sess : Session) (db : Db)
    → IsKeyed db.users
    → new_hash ≢ old_hash
    → sess.user_id ≡ id
    → (complete_password_change io now id old_hash new_hash ip db).0 ≡ ok tt
    → (create_session io' later sess old_hash
        (complete_password_change io now id old_hash new_hash ip db).1).0
      ≢ ok tt
no_login_with_old_hash io io' now later id old_hash new_hash ip sess db keyed ne mine e success =
    let (held, is_own, done) = complete_password_change-ok io now id old_hash new_hash ip db e in
    let gone =
      old_hash_gone now id old_hash new_hash db.users ne (omega (arith, keyed id, is_own)) in
    let found = (create_session-ok io' later sess old_hash _ success).1 in
    absurd (omega (arith, gone, rw (done, mine) at found))
