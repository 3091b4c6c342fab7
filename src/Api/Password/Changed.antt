-- ===== src/Api/Password/Changed.antt =====
-- What a successful change of a password leaves (internal/api/password_handlers.go).
use ky_server_base.Prelude.{
  ◌≤◌, String, ◌≡◌, refl, ap, inl, inr, Bool, true, false, Option, none, some, List, arith, ◌==◌,
  Bool-cases, if_both,
}
use ky_server_base.Sql.{count_where}
use ky_server_base.Sql.Laws.{count-delete-le, count-delete_self}
use ky_server_base.Store.Models.{
  User, Session, Db, Result, ok, err, not_found, already_exists, session_expired, conflict,
  sso_session_ended, db_error,
}
use ky_server_base.Store.Tx.{Io}
use ky_server_base.Store.Users.Access.{sessions_of}
use ky_server_base.Store.Sessions.{
  has_token, complete_password_change, holds_password, is_local, delete_session,
}
use ky_server_base.Store.Sessions.Passwords.{complete_password_change-cases}
use ky_server_base.Auth.Session.{
  Request, SetCookie, Outcome, granted, denied, authenticate, revoke_session, raw_token,
}
use ky_server_base.Auth.Session.Granted.{Evidence, authenticate-Evidence}
use ky_server_base.Api.Limiter.{Attempts}
use ky_server_base.Api.Password.{
  ChangeRequest, PasswordEnv, ChangeCall, ChangeReply, password_changed, answer_change, write_hash,
  is_verified, with_passwords, allow_change, if_allowed, as_user, change_password,
  validate_password,
}

-- No session of an account appears when one is deleted, or a request's is revoked.
delete_session-le :
    (io : Io) (token id : String) (db : Db)
    → sessions_of id (delete_session io token db).1.sessions ≤ sessions_of id db.sessions
unfolding delete_session
delete_session-le io token id db =
    ground (arith, count-delete-le (λ (s : Session). s.user_id == id) (has_token token) db.sessions)

revoke_session-le :
    (env : PasswordEnv) (c : ChangeCall) (r : Request) (id : String) (db : Db)
    → sessions_of id (revoke_session env.sha256_hex env.security c.revoke_io r db).1.sessions
      ≤ sessions_of id db.sessions
unfolding revoke_session
revoke_session-le env c r id db =
    if_both (λ (d : Db). sessions_of id d.sessions ≤ sessions_of id db.sessions)
      (raw_token env.security.host_cookies r == "") (omega arith)
      (delete_session-le c.revoke_io (env.sha256_hex (raw_token env.security.host_cookies r)) id db)

answer_change-ok :
    (env : PasswordEnv) (c : ChangeCall) (r : Request) (id : String) (x : Result (Unit {0}) × Db)
    (cookies : List SetCookie)
    → (answer_change env c r x).0 ≡ password_changed cookies
    → (x.0 ≡ ok tt)
      × (sessions_of id (answer_change env c r x).1.sessions ≤ sessions_of id x.1.sessions)
answer_change-ok env c r id (ok tt, db) cookies e = (refl, revoke_session-le env c r id db)
answer_change-ok env c r id (err not_found, db) cookies e = absurd (cc e)
answer_change-ok env c r id (err already_exists, db) cookies e = absurd (cc e)
answer_change-ok env c r id (err session_expired, db) cookies e = absurd (cc e)
answer_change-ok env c r id (err conflict, db) cookies e = absurd (cc e)
answer_change-ok env c r id (err sso_session_ended, db) cookies e = absurd (cc e)
answer_change-ok env c r id (err db_error, db) cookies e = absurd (cc e)

-- What a change rests on, and what it leaves.
pub record Change (env : PasswordEnv) (c : ChangeCall) (req : ChangeRequest) (user : User)
    (before after : Db) : Type 0 where
  pub is_long : validate_password env req.new_password ≡ true
  pub is_new : (req.current_password == req.new_password) ≡ false
  pub is_verified_password :
      is_verified (env.verify_password req.current_password user.password_hash) ≡ true
  -- when the hash was written: active, local, and with the hash that was verified
  pub still_holds :
      count_where (holds_password user.id user.password_hash) (c.meanwhile before).users ≡ 1
  pub still_local : count_where (is_local user.id) (c.meanwhile before).users ≡ 1
  pub no_session : sessions_of user.id after.sessions ≡ 0

written :
    (env : PasswordEnv) (c : ChangeCall) (r : Request) (user : User) (hash : String) (db : Db)
    (cookies : List SetCookie)
    → (write_hash env c r user (some hash) db).0 ≡ password_changed cookies
    → (count_where (holds_password user.id user.password_hash) (c.meanwhile db).users ≡ 1)
      × (count_where (is_local user.id) (c.meanwhile db).users ≡ 1)
      × (sessions_of user.id (write_hash env c r user (some hash) db).1.sessions ≡ 0)
written env c r user hash db cookies e =
    let call =
      complete_password_change c.change_io c.now user.id user.password_hash hash c.request_ip in
    let (success, fewer) = answer_change-ok env c r user.id (call (c.meanwhile db)) cookies e in
    elim (complete_password_change-cases c.change_io c.now user.id user.password_hash hash
      c.request_ip (c.meanwhile db)) [
        | inl (_, held, is_own, state) ↦
            let gone : sessions_of user.id (call (c.meanwhile db)).1.sessions ≡ 0 =
              rw state (count-delete_self _ (c.meanwhile db).sessions) in
            (held, is_own, omega (arith, fewer, gone))
        | inr (x, failed, _) ↦ absurd (cc (success, failed))
      ]

write_hash-ok :
    (env : PasswordEnv) (c : ChangeCall) (r : Request) (user : User) (o : Option String) (db : Db)
    (cookies : List SetCookie)
    → (write_hash env c r user o db).0 ≡ password_changed cookies
    → (count_where (holds_password user.id user.password_hash) (c.meanwhile db).users ≡ 1)
      × (count_where (is_local user.id) (c.meanwhile db).users ≡ 1)
      × (sessions_of user.id (write_hash env c r user o db).1.sessions ≡ 0)
write_hash-ok env c r user none db cookies e = absurd (cc e)
write_hash-ok env c r user (some hash) db cookies e = written env c r user hash db cookies e

with_passwords-ok :
    (env : PasswordEnv) (c : ChangeCall) (r : Request) (user : User) (req : ChangeRequest) (db : Db)
    (cookies : List SetCookie)
    → (with_passwords env c r user (some req) db).0 ≡ password_changed cookies
    → (validate_password env req.new_password ≡ true)
      × ((req.current_password == req.new_password) ≡ false)
      × (is_verified (env.verify_password req.current_password user.password_hash) ≡ true)
      × (with_passwords env c r user (some req) db
          ≡ write_hash env c r user (env.hash_password req.new_password) db)
unfolding with_passwords
with_passwords-ok env c r user req db cookies e =
    ground (arith, write_hash env c r user (env.hash_password req.new_password) db)

with_passwords-Change :
    (env : PasswordEnv) (c : ChangeCall) (r : Request) (user : User) (req : ChangeRequest) (db : Db)
    (cookies : List SetCookie)
    → (with_passwords env c r user (some req) db).0 ≡ password_changed cookies
    → Change env c req user db (with_passwords env c r user (some req) db).1
with_passwords-Change env c r user req db cookies e =
    let (long, new, verified, same) = with_passwords-ok env c r user req db cookies e in
    let (held, is_own, gone) =
      write_hash-ok env c r user (env.hash_password req.new_password) db cookies (rw same at e) in
    record {
      is_long = long;
      is_new = new;
      is_verified_password = verified;
      still_holds = held;
      still_local = is_own;
      no_session = rw same gone;
    }

if_allowed-ok :
    (x : Bool × Attempts) (db : Db) (rest : Db → ChangeReply × Db) (cookies : List SetCookie)
    → (if_allowed x db rest).0 ≡ password_changed cookies
    → ((rest db).0 ≡ password_changed cookies) × ((if_allowed x db rest).2 ≡ (rest db).1)
if_allowed-ok (true, attempts) db rest cookies e = (e, refl)
if_allowed-ok (false, attempts) db rest cookies e = absurd (cc e)

-- A change of a password that reports success was asked for by an authenticated local account with
-- its current password, for a long enough and different one; the account was still active and local
-- with the hash that was verified when the new one was written; and it has no session afterwards.
pub change_password-Change :
    (env : PasswordEnv) (c : ChangeCall) (r : Request) (req : ChangeRequest) (attempts : Attempts)
    (db : Db) (cookies : List SetCookie)
    → (change_password env c r (some req) attempts db).0 ≡ password_changed cookies
    → (u : User) × (s : Session) × Evidence env.sha256_hex env.security.host_cookies c.auth r db u s
      × ((u.sso_provider == "local") ≡ true)
      × Change env c req u
          (authenticate env.sha256_hex env.security.host_cookies c.auth r db).1
          (change_password env c r (some req) attempts db).2
unfolding change_password
change_password-Change env c r req attempts db cookies e = elim (Bool-cases (r.method == "POST")) [
  | inl post ↦
      rw post
        (go (authenticate env.sha256_hex env.security.host_cookies c.auth r db) refl (rw post at e))
  | inr other ↦ absurd (cc (rw other at e))
]
  where
    go :
        (x : Outcome (User × Session) × Db)
        → authenticate env.sha256_hex env.security.host_cookies c.auth r db ≡ x
        → (as_user env c r (some req) attempts x).0 ≡ password_changed cookies
        → (u : User) × (s : Session) × Evidence env.sha256_hex env.security.host_cookies c.auth r db
            u s
          × ((u.sso_provider == "local") ≡ true)
          × Change env c req u x.1 (as_user env c r (some req) attempts x).2
    go (denied reason, d) h k = absurd (cc k)
    go (granted (u, s), d) h k = elim (Bool-cases (u.sso_provider == "local")) [
      | inr other ↦ absurd (cc (rw other at k))
      | inl local ↦
          let (made, state) =
            if_allowed-ok (allow_change c u.id attempts) d (with_passwords env c r u (some req))
              cookies (rw local at k) in
          (
            u,
            s,
            authenticate-Evidence env.sha256_hex env.security.host_cookies c.auth r db u s
                (ap (λ p. p.0) h),
            local,
            rw (local, state) (with_passwords-Change env c r u req d cookies made),
          )
    ]
