-- ===== src/Api/Login.antt =====
-- Sign-in with a password: handleLogin of internal/api/auth_handlers.go. Times are in seconds. The
-- client's address is an argument (limiterIP), and so is the decoded body, if it is one.
pub mod Grant
use Prim.Native.String.{slice, ◌++◌ as ◌^^◌}
use ky_server_base.Prelude.{
  ℕ, ◌-◌, String, Bool, true, false, not, ◌&&◌, ◌||◌, Option, none, some, List, ◌==◌, if◌then◌else◌,
}
use ky_server_base.Store.Models.{User, Session, Db, Backend, Result, ok, err, not_found}
use ky_server_base.Store.Tx.{Io}
use ky_server_base.Store.Users.{get_user_by_username}
use ky_server_base.Store.Audit.{log_audit}
use ky_server_base.Auth.Pow.{PowEnv, PowSpent, verify}
use ky_server_base.Auth.Session.{SecurityConfig, SetCookie, Drawn, issue}
use ky_server_base.Api.Limiter.{Attempts, allow_attempt, attempts_exhausted}

pub record LoginRequest : Type 0 where
  pub username : String
  pub password : String
  pub captcha_token : String

-- What the handlers share: the limiter's map, the spent puzzles, the database.
pub record State : Type 0 where
  pub attempts : Attempts
  pub spent : PowSpent
  pub db : Db

-- The configuration, and what the handler takes from libraries: SHA-256 in hex, strings.ToLower,
-- strings.TrimSpace, and password.Verify (its answer, and whether it reports an error).
pub record LoginEnv : Type 0 where
  pub pow : PowEnv
  pub backend : Backend
  pub security : SecurityConfig
  pub session_secret : String
  pub wants_pow : Bool
  pub sha256_hex : String → String
  pub to_lower : String → String
  pub trim_space : String → String
  pub verify_password : String → String → Bool × Bool

-- One request: the times of its steps, the failing statements of its store calls, the entries that
-- the limiter evicts if it is full, what it draws at random, and what other requests write to the
-- database between the check of the password and the session.
pub record LoginCall : Type 0 where
  pub now : ℕ
  pub later : ℕ
  pub victim : ℕ
  pub last_victim : ℕ
  pub read_io : Io
  pub issue_io : Io
  pub audit_io : Io
  pub drawn : Drawn
  pub agent : String
  pub ip : String
  pub meanwhile : Db → Db

pub data LoginReply : Type 0 where
  method_not_allowed too_many_attempts bad_body missing_credentials : LoginReply
  captcha_failed invalid_credentials store_failed issue_failed : LoginReply
  signed_in : User → List SetCookie → LoginReply

abbrev pub account_key : LoginEnv → String → String → String
account_key env client username =
    "login-account:" ^^ (slice (env.sha256_hex (env.to_lower username)) 0 32 ^^ ("|" ^^ client))

-- A failed attempt counts against the account and the client.
abbrev pub refuse_login : LoginCall → String → State → LoginReply × State
refuse_login c key st = (
  invalid_credentials,
  record st { attempts = (allow_attempt c.last_victim c.later key 10 900 st.attempts).1 },
)

-- The answer to the session that was issued, or was not; an error of the audit record is dropped.
abbrev pub answer_issued :
    LoginCall → User → State → Result (Session × List SetCookie) × Db → LoginReply × State
answer_issued c user st (err e, db) = (issue_failed, record st { db = db })
answer_issued c user st (ok (sess, cookies), db) = (
  signed_in user cookies,
  record st {
    db =
        (log_audit c.audit_io c.later
          (record {
            user_id = user.id;
            action = "auth.login";
            resource = "session";
            details = "";
            ip_address = "";
            created_at = 0;
          })
          db).1;
  },
)

unfoldable pub finish_login : LoginEnv → LoginCall → User → State → LoginReply × State
unfolding issue log_audit
finish_login env c user st = answer_issued c user st (
    issue env.sha256_hex env.security c.issue_io c.drawn c.later c.later user c.agent c.ip c.later
      "" (c.meanwhile st.db))

-- The password of an account that has one, and its status.
abbrev pub knows_password : LoginEnv → LoginRequest → User → Bool
knows_password env req user =
    not (user.password_hash == "") && (env.verify_password req.password user.password_hash).0

unfoldable pub check_password :
    LoginEnv → LoginCall → LoginRequest → String → Result User → State → LoginReply × State
unfolding finish_login
check_password env c req key (ok user) st =
    if not (knows_password env req user) || not (user.status == "active")
    then refuse_login c key st
    else finish_login env c user st
check_password env c req key (err not_found) st = refuse_login c key st
check_password env c req key (err e) st = (store_failed, st)

-- An exhausted window answers like a wrong password, before any hashing.
unfoldable pub try_account :
    LoginEnv → LoginCall → String → LoginRequest → String → State → LoginReply × State
unfolding check_password get_user_by_username attempts_exhausted
try_account env c client req username st =
    let key = account_key env client username in
    if attempts_exhausted c.later key 10 st.attempts
    then (invalid_credentials, st)
    else check_password env c req key (get_user_by_username env.backend c.read_io username st.db).0
        st

abbrev pub spent_or : PowSpent → Option PowSpent → PowSpent
spent_or p none = p
spent_or p (some q) = q

-- The puzzle, if one is asked for.
unfoldable pub check_captcha : LoginEnv → LoginCall → LoginRequest → State → Bool × State
unfolding verify
check_captcha env c req st =
    if not env.wants_pow
    then (true, st)
    else if req.captcha_token == ""
    then (false, st)
    else let (solved, q) =
        verify env.pow c.now c.later req.captcha_token env.session_secret (some st.spent) in
      (solved, record st { spent = spent_or st.spent q })

abbrev pub if_solved : Bool × State → (State → LoginReply × State) → LoginReply × State
if_solved (true, st) rest = rest st
if_solved (false, st) rest = (captcha_failed, st)

unfoldable pub with_request :
    LoginEnv → LoginCall → String → LoginRequest → State → LoginReply × State
unfolding check_captcha try_account
with_request env c client req st =
    let username = env.trim_space req.username in
    if username == "" || req.password == ""
    then (missing_credentials, st)
    else if_solved (check_captcha env c req st) (try_account env c client req username)

abbrev pub with_body :
    Option LoginRequest → State → (LoginRequest → State → LoginReply × State) → LoginReply × State
with_body none st rest = (bad_body, st)
with_body (some req) st rest = rest req st

unfoldable pub login :
    LoginEnv → LoginCall → String → String → Option LoginRequest → State → LoginReply × State
unfolding with_request allow_attempt
login env c method client body st =
    if not (method == "POST")
    then (method_not_allowed, st)
    else let (allowed, attempts) =
        allow_attempt c.victim c.now ("login:" ^^ client) 20 60 st.attempts in
      if not allowed
      then (too_many_attempts, record st { attempts = attempts })
      else with_body body (record st { attempts = attempts }) (with_request env c client)
