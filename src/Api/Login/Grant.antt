-- ===== src/Api/Login/Grant.antt =====
-- Who is signed in by handleLogin (internal/api/auth_handlers.go), and what a refusal tells.
use Prim.Native.String.{◌++◌ as ◌^^◌}
use ky_server_base.Prelude.{
  String, ◌≡◌, refl, sym, ap, ◌≢◌, ◌⊎◌, inl, inr, true, false, not, ◌||◌, some, List, arith, ◌==◌,
}
use ky_server_base.Sql.{find_where, count_where}
use ky_server_base.Store.Models.{
  User, Db, Error, Result, ok, err, not_found, already_exists, session_expired, conflict,
  sso_session_ended, db_error,
}
use ky_server_base.Store.Tx.{Io}
use ky_server_base.Store.Users.{get_user_by_username, same_name}
use ky_server_base.Store.Sessions.{create_session, holds_password}
use ky_server_base.Store.Sessions.Fences.{create_session-ok}
use ky_server_base.Auth.Session.{SetCookie, session_for, issue}
use ky_server_base.Api.Limiter.{allow_attempt, attempts_exhausted}
use ky_server_base.Api.Login.{
  LoginRequest, State, LoginEnv, LoginCall, signed_in, invalid_credentials, account_key,
  refuse_login, finish_login, knows_password, check_password, try_account, check_captcha,
  with_request, login,
}

-- The state after the per-client window counted the request.
abbrev pub counted : LoginCall → String → State → State
counted c client st = record st {
  attempts = (allow_attempt c.victim c.now ("login:" ^^ client) 20 60 st.attempts).1;
}

-- What a sign-in rests on.
pub record Grant (env : LoginEnv) (c : LoginCall) (client : String) (req : LoginRequest)
    (st : State) (user : User) : Type 0 where
  -- the client's window
  pub is_allowed : (allow_attempt c.victim c.now ("login:" ^^ client) 20 60 st.attempts).0 ≡ true
  -- the account's window
  pub is_open :
      attempts_exhausted c.later
        (account_key env client (env.trim_space req.username))
        10
        (counted c client st).attempts
      ≡ false
  -- the puzzle
  pub is_solved : (check_captcha env c req (counted c client st)).0 ≡ true
  -- the account, its password and its status, as they were read
  pub row : find_where (same_name env.backend (env.trim_space req.username)) st.db.users ≡ some user
  pub is_known : knows_password env req user ≡ true
  pub is_active : (user.status == "active") ≡ true
  -- the account when the session was stored: active with the hash that was verified
  pub still_holds :
      count_where (holds_password user.id user.password_hash) (c.meanwhile st.db).users ≡ 1

issue-ok :
    (env : LoginEnv) (c : LoginCall) (user u : User) (cookies : List SetCookie) (st : State)
    → (finish_login env c user st).0 ≡ signed_in u cookies
    → (u ≡ user)
      × ((create_session c.issue_io c.later
            (session_for env.sha256_hex env.security c.drawn c.later user c.agent c.ip c.later "")
            user.password_hash
            (c.meanwhile st.db)).0
          ≡ ok tt)
unfolding finish_login issue
issue-ok env c user u cookies st e = ground arith

check_password-ok :
    (env : LoginEnv) (c : LoginCall) (req : LoginRequest) (key : String) (r : Result User)
    (st : State) (u : User) (cookies : List SetCookie)
    → (check_password env c req key r st).0 ≡ signed_in u cookies
    → (r ≡ ok u)
      × (knows_password env req u ≡ true)
      × ((u.status == "active") ≡ true)
      × ((finish_login env c u st).0 ≡ signed_in u cookies)
unfolding check_password
check_password-ok env c req key (ok user) st u cookies e =
    let passed : (not (knows_password env req user) || not (user.status == "active")) ≡ false =
      ground arith in
    let finished : (finish_login env c user st).0 ≡ signed_in u cookies = rw passed at e in
    let (same, _) = issue-ok env c user u cookies st finished in
    let known : knows_password env req user ≡ true = ground arith in
    let active : (user.status == "active") ≡ true = ground arith in
    (ap ok (sym same), rw same known, rw same active, rw same (rw same at finished))
check_password-ok env c req key (err x) st u cookies e = absurd (refuses_grant x e)
  where
    refuses_grant : (x : Error) → (check_password env c req key (err x) st).0 ≢ signed_in u cookies
    refuses_grant not_found h = cc h
    refuses_grant already_exists h = cc h
    refuses_grant session_expired h = cc h
    refuses_grant conflict h = cc h
    refuses_grant sso_session_ended h = cc h
    refuses_grant db_error h = cc h

found-row :
    (env : LoginEnv) (io : Io) (username : String) (db : Db) (u : User)
    → (get_user_by_username env.backend io username db).0 ≡ ok u
    → find_where (same_name env.backend username) db.users ≡ some u
unfolding get_user_by_username
found-row env io username db u e = ground arith

try_account-ok :
    (env : LoginEnv) (c : LoginCall) (client : String) (req : LoginRequest) (username : String)
    (st : State) (u : User) (cookies : List SetCookie)
    → (try_account env c client req username st).0 ≡ signed_in u cookies
    → (attempts_exhausted c.later (account_key env client username) 10 st.attempts ≡ false)
      × ((check_password env c req
            (account_key env client username)
            (get_user_by_username env.backend c.read_io username st.db).0
            st).0
          ≡ signed_in u cookies)
unfolding try_account
try_account-ok env c client req username st u cookies e = ground arith

with_request-ok :
    (env : LoginEnv) (c : LoginCall) (client : String) (req : LoginRequest) (st : State) (u : User)
    (cookies : List SetCookie)
    → (with_request env c client req st).0 ≡ signed_in u cookies
    → ((check_captcha env c req st).0 ≡ true)
      × ((try_account env c client req
            (env.trim_space req.username)
            (check_captcha env c req st).1).0
          ≡ signed_in u cookies)
unfolding with_request
with_request-ok env c client req st u cookies e = ground arith

-- The puzzle changes the spent set alone.
check_captcha-keeps :
    (env : LoginEnv) (c : LoginCall) (req : LoginRequest) (st : State)
    → ((check_captcha env c req st).1.db ≡ st.db)
      × ((check_captcha env c req st).1.attempts ≡ st.attempts)
unfolding check_captcha
check_captcha-keeps env c req st = ground arith

login-ok :
    (env : LoginEnv) (c : LoginCall) (method client : String) (req : LoginRequest) (st : State)
    (u : User) (cookies : List SetCookie)
    → (login env c method client (some req) st).0 ≡ signed_in u cookies
    → ((allow_attempt c.victim c.now ("login:" ^^ client) 20 60 st.attempts).0 ≡ true)
      × ((with_request env c client req (counted c client st)).0 ≡ signed_in u cookies)
unfolding login
login-ok env c method client req st u cookies e = ground arith

-- Who is signed in came within both windows, with the puzzle solved if one is asked for, by the
-- name and the password of an account that was active, and still was with the same password hash
-- when the session was stored.
pub login-Grant :
    (env : LoginEnv) (c : LoginCall) (method client : String) (req : LoginRequest) (st : State)
    (u : User) (cookies : List SetCookie)
    → (login env c method client (some req) st).0 ≡ signed_in u cookies
    → Grant env c client req st u
unfolding session_for
login-Grant env c method client req st u cookies e =
    let name : String = env.trim_space req.username in
    let before : State = counted c client st in
    let at : State = (check_captcha env c req before).1 in
    let (allowed, e1) = login-ok env c method client req st u cookies e in
    let (solved, e2) = with_request-ok env c client req before u cookies e1 in
    let (db, attempts) = check_captcha-keeps env c req before in
    let (free, e3) = try_account-ok env c client req name at u cookies e2 in
    let (read, known, active, e4) =
      check_password-ok env c req (account_key env client name) _ at u cookies e3 in
    let (_, stored) = issue-ok env c u u cookies at e4 in
    record {
      is_allowed = allowed;
      is_open = rw attempts at free;
      is_solved = solved;
      row = found-row env c.read_io name st.db u (rw db at read);
      is_known = known;
      is_active = active;
      still_holds = (create_session-ok c.issue_io c.later _ u.password_hash _ (rw db at stored)).1;
    }

check_password-refuses :
    (env : LoginEnv) (c : LoginCall) (req : LoginRequest) (key : String) (r : Result User)
    (st : State)
    → (r ≡ err not_found)
      ⊎ ((u : User) × (r ≡ ok u)
          × ((knows_password env req u ≡ false) ⊎ ((u.status == "active") ≡ false)))
    → check_password env c req key r st ≡ refuse_login c key st
unfolding check_password
check_password-refuses env c req key r st (inl h) = rw h refl
check_password-refuses env c req key r st (inr (u, h, inl unknown)) = rw (h, unknown) refl
check_password-refuses env c req key r st (inr (u, h, inr inactive)) =
    let refused : (not (knows_password env req u) || not (u.status == "active")) ≡ true =
      ground arith in
    rw (h, refused) refl

-- While the account's window is not exhausted, an unknown name, an account without a password, a
-- wrong password and an account that is not active get the same answer and leave the same state:
-- the account's window counts one more attempt, and the database is as it was.
pub try_account-refuses :
    (env : LoginEnv) (c : LoginCall) (client : String) (req : LoginRequest) (username : String)
    (st : State)
    → attempts_exhausted c.later (account_key env client username) 10 st.attempts ≡ false
    → let read = (get_user_by_username env.backend c.read_io username st.db).0 in
      ((read ≡ err not_found)
        ⊎ ((u : User) × (read ≡ ok u)
            × ((knows_password env req u ≡ false) ⊎ ((u.status == "active") ≡ false))))
      → try_account env c client req username st ≡ (
        invalid_credentials,
        record st {
          attempts =
              (allow_attempt c.last_victim c.later
                (account_key env client username)
                10
                900
                st.attempts).1;
        },
      )
unfolding try_account
try_account-refuses env c client req username st free wrong = rw free (
    check_password-refuses env c req (account_key env client username)
      (get_user_by_username env.backend c.read_io username st.db).0 st wrong)
