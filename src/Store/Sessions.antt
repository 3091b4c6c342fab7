-- ===== src/Store/Sessions.antt =====
-- The session store of internal/store/sqlstore.go (sessionStore), and the password writes that
-- revoke sessions. `now` is time.Now().UTC() at the call.
pub mod Fences
pub mod Subjects
pub mod Race
pub mod Passwords
use ky_server_base.Prelude.{
  ℕ, String, Bool, true, false, not, ◌&&◌, ◌||◌, Option, none, some, List, ◌∷◌, ◌==◌, ltb, leb,
  if◌then◌else◌,
}
use ky_server_base.Sql.{find_where, count_where, update_where, delete_where, any}
use ky_server_base.Store.Models.{
  User, Session, SidFence, SubjectFence, Db, ok, err, db_error, not_found, session_expired,
  sso_session_ended,
}
use ky_server_base.Store.Tx.{
  Op, Io, write_row, delete_sessions, write_audit, check_hash, read_fence, prune_fences,
  write_fence, cleanup, read_row, ◌>>=◌, ◌>>◌, pure, fail, gets, modify, stmt, refuse, transaction,
}
use ky_server_base.Store.Users.{has_id, revoke_sessions}

-- The row that `withPassword` locks: an active account whose hash is the expected one.
abbrev pub holds_password : String → String → User → Bool
holds_password id hash u = has_id id u && (u.password_hash == hash && u.status == "active")

abbrev is_one : ℕ → Bool
is_one n = leb n 1 && leb 1 n

unfoldable pub with_password : Io → String → String → Op (Unit {0}) → Op (Unit {0})
unfolding transaction
with_password io id hash apply = transaction io do
  stmt io check_hash
  n ← gets (λ db. count_where (holds_password id hash) db.users)
  refuse (not (is_one n)) not_found
  apply

-- The token hash is the primary key of `sessions`.
abbrev pub has_token : String → Session → Bool
has_token token s = s.token_hash == token

unfoldable pub insert_session : Io → Session → Op (Unit {0})
insert_session io sess db =
    if io write_row || any (has_token sess.token_hash) db.sessions
    then (err db_error, db)
    else (ok tt, record db { sessions = sess ∷ db.sessions })

-- DELETE FROM sessions WHERE token_hash = ?
abbrev pub drop_token : String → Db → Db
drop_token token db = record db { sessions = delete_where (has_token token) db.sessions }

unfoldable pub delete_session : Io → String → Op (Unit {0})
delete_session io token = do stmt io cleanup; modify (drop_token token)

-- A live fence on the sid, if there is a sid.
abbrev pub sid_fenced : ℕ → String → List SidFence → Bool
sid_fenced now sid = any (λ f. f.sid == sid && (not (f.sid == "") && ltb now f.expires_at))

-- A live fence on the account's subject whose cutoff is after the credentials were verified.
abbrev pub subject_fenced : ℕ → Session → List User → List SubjectFence → Bool
subject_fenced now sess users = any λ f.
    any (λ u. u.sso_provider == f.provider && (u.sso_subject == f.subject && has_id sess.user_id u))
      users
    && (ltb sess.created_at f.cutoff && ltb now f.expires_at)

unfoldable pub fenced : ℕ → Session → Db → Bool
unfolding any
fenced now sess db =
    sid_fenced now sess.sso_sid db.sso_logouts
    || subject_fenced now sess db.users db.sso_subject_logouts

-- The fence check after the commit. The deletion's own error is dropped (`_ = s.DeleteSession`).
unfoldable pub check_fences : Io → ℕ → Session → Op (Unit {0})
unfolding delete_session fenced
check_fences io now sess db =
    if io read_fence
    then (err db_error, (delete_session io sess.token_hash db).1)
    else if fenced now sess db
    then (err sso_session_ended, (delete_session io sess.token_hash db).1)
    else (ok tt, db)

-- `now` is the time of the fence check.
unfoldable pub create_session : Io → ℕ → Session → String → Op (Unit {0})
unfolding with_password insert_session check_fences
create_session io now sess hash = do
  with_password io sess.user_id hash (insert_session io sess)
  check_fences io now sess

-- DELETE FROM sso_logouts WHERE expires_at <= ?
abbrev pub prune_sids : ℕ → Db → Db
prune_sids now db = record db {
  sso_logouts = delete_where (λ f. leb f.expires_at now) db.sso_logouts;
}

-- INSERT INTO sso_logouts ... ON CONFLICT (sid) DO UPDATE
abbrev pub put_sid_fence : String → ℕ → Db → Db
put_sid_fence sid until db = record db {
  sso_logouts =
      record { sid = sid; expires_at = until } ∷ delete_where (λ f. f.sid == sid) db.sso_logouts;
}

-- DELETE FROM sessions WHERE sso_sid = ?
abbrev pub drop_sid : String → Db → Db
drop_sid sid db = record db { sessions = delete_where (λ s. s.sso_sid == sid) db.sessions }

unfoldable pub end_sso_session : Io → ℕ → String → ℕ → Op (Unit {0})
end_sso_session io now sid until = do
  stmt io prune_fences
  modify (prune_sids now)
  stmt io write_fence
  modify (put_sid_fence sid until)
  stmt io delete_sessions
  modify (drop_sid sid)

abbrev pub same_subject : String → String → SubjectFence → Bool
same_subject provider subject f = f.provider == provider && f.subject == subject

-- INSERT INTO sso_subject_logouts ... ON CONFLICT (provider, subject) DO UPDATE ... WHERE the new
-- cutoff is later
unfoldable pub put_subject_fence : String → String → ℕ → ℕ → List SubjectFence → List SubjectFence
unfolding any update_where
put_subject_fence provider subject cutoff until fences =
    if any (same_subject provider subject) fences
    then update_where (λ f. same_subject provider subject f && ltb f.cutoff cutoff)
        (λ f. record f { cutoff = cutoff; expires_at = until }) fences
    else record { provider = provider; subject = subject; cutoff = cutoff; expires_at = until }
      ∷ fences

-- user_id IN (SELECT id FROM users WHERE sso_provider = ? AND sso_subject = ?)
abbrev pub is_subject : String → String → List User → String → Bool
is_subject provider subject users id =
    any (λ u. has_id id u && (u.sso_provider == provider && u.sso_subject == subject)) users

unfoldable pub end_sso_subject : Io → ℕ → String → String → ℕ → ℕ → Op (Unit {0})
end_sso_subject io now provider subject cutoff until = do
  stmt io prune_fences
  modify (λ db. record db {
    sso_subject_logouts = delete_where (λ f. leb f.expires_at now) db.sso_subject_logouts;
  })
  stmt io write_fence
  modify (λ db. record db {
    sso_subject_logouts = put_subject_fence provider subject cutoff until db.sso_subject_logouts;
  })
  stmt io delete_sessions
  modify (λ db. record db {
    sessions =
        delete_where
          (λ s. ltb s.created_at cutoff && is_subject provider subject db.users s.user_id)
          db.sessions;
  })

-- The sessions of the account go, and the change is recorded.
unfoldable pub revoke_password_grants : Io → String → String → String → ℕ → Op (Unit {0})
unfolding revoke_sessions
revoke_password_grants io id details ip now = do
  revoke_sessions io id
  stmt io write_audit
  modify (λ db. record db {
    audit_records =
        record {
          user_id = id;
          action = "auth.password_changed";
          resource = "user";
          details = details;
          ip_address = ip;
          created_at = now;
        }
        ∷ db.audit_records;
  })

abbrev pub is_local : String → User → Bool
is_local id u = has_id id u && u.sso_provider == "local"

-- UPDATE users SET ... WHERE id = ? AND sso_provider = 'local', which must hit one row.
unfoldable pub set_password : Io → String → (User → User) → Op (Unit {0})
set_password io id f = do
  stmt io write_row
  n ← gets (λ db. count_where (is_local id) db.users)
  modify (λ db. record db { users = update_where (is_local id) f db.users })
  refuse (not (is_one n)) not_found

abbrev pub changed_password : ℕ → String → User → User
changed_password now hash u = record u {
  password_hash = hash;
  must_change_password = false;
  updated_at = now;
}

unfoldable pub complete_password_change : Io → ℕ → String → String → String → String → Op (Unit {0})
unfolding with_password set_password revoke_password_grants
complete_password_change io now id old_hash new_hash ip = with_password io id old_hash do
  set_password io id (changed_password now new_hash)
  revoke_password_grants io id "password changed; sessions revoked" ip now

abbrev pub reset_password : ℕ → String → User → User
reset_password now hash u = record u {
  password_hash = hash;
  must_change_password = true;
  status = "active";
  role = "admin";
  updated_at = now;
}

unfoldable pub reset_admin_password : Io → ℕ → String → String → Op (Unit {0})
unfolding set_password revoke_password_grants transaction
reset_admin_password io now id new_hash = transaction io do
  set_password io id (reset_password now new_hash)
  revoke_password_grants io id "operator reset; sessions revoked" "" now

or_missing {ℓ} : {A : Type ℓ} → Option A → Op A
or_missing none = fail not_found
or_missing (some a) = pure a

-- An expired session is deleted, and the deletion's own error is dropped.
unfoldable pub unexpired : Io → ℕ → Session → Op Session
unfolding delete_session
unexpired io now sess db =
    if ltb sess.expires_at now
    then (err session_expired, (delete_session io sess.token_hash db).1)
    else (ok sess, db)

unfoldable pub get_session : Io → ℕ → String → Op Session
unfolding or_missing unexpired
get_session io now token = do
  stmt io read_row
  found ← gets (λ db. find_where (has_token token) db.sessions)
  sess ← or_missing found
  unexpired io now sess

pub delete_user_sessions : Io → String → Op (Unit {0})
unfolding revoke_sessions
delete_user_sessions = revoke_sessions

pub clean_expired_sessions : Io → ℕ → Op (Unit {0})
clean_expired_sessions io now = do
  stmt io delete_sessions
  modify (λ db. record db { sessions = delete_where (λ s. ltb s.expires_at now) db.sessions })
