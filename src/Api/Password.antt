-- ===== src/Api/Password.antt =====
-- The change of a password: handleChangePassword of internal/api/password_handlers.go, and
-- ValidatePassword of internal/auth/policy.go. Times are in seconds. The client's address
-- (limiterIP and requestIP) and the decoded body are arguments.
pub mod Changed
use Prim.Native.String.{◌++◌ as ◌^^◌}
use ky_server_base.Prelude.{
  ℕ, ◌-◌, String, Bool, true, false, not, ◌&&◌, Option, none, some, List, ◌==◌, ltb, if◌then◌else◌,
}
use ky_server_base.Store.Models.{User, Session, Db, Result, ok, err, not_found}
use ky_server_base.Store.Tx.{Io}
use ky_server_base.Store.Sessions.{complete_password_change}
use ky_server_base.Auth.Session.{
  Request, SecurityConfig, SetCookie, AuthCalls, Outcome, granted, denied, authenticate,
  revoke_session,
}
use ky_server_base.Api.Limiter.{Attempts, allow_attempt}

pub record ChangeRequest : Type 0 where
  pub current_password : String
  pub new_password : String

-- The configuration, and what the handler takes from libraries: SHA-256 in hex, the length of a
-- text in bytes, strings.TrimSpace, password.Verify (its answer, and whether it reports an error)
-- and password.Hash.
pub record PasswordEnv : Type 0 where
  pub security : SecurityConfig
  pub sha256_hex : String → String
  pub byte_length : String → ℕ
  pub trim_space : String → String
  pub verify_password : String → String → Bool × Bool
  pub hash_password : String → Option String

-- One request: its authentication, the times, the failing statements, the entries that a full
-- limiter evicts, the client, and what other requests write to the database before the change.
pub record ChangeCall : Type 0 where
  pub auth : AuthCalls
  pub now : ℕ
  pub victim : ℕ
  pub user_victim : ℕ
  pub change_io : Io
  pub revoke_io : Io
  pub limiter_ip : String
  pub request_ip : String
  pub meanwhile : Db → Db

pub data ChangeReply : Type 0 where
  method_not_allowed unauthenticated no_local_password too_many_attempts bad_body : ChangeReply
  too_long too_short same_password wrong_password hash_failed : ChangeReply
  account_changed store_failed : ChangeReply
  password_changed : List SetCookie → ChangeReply

unfoldable pub validate_password : PasswordEnv → String → Bool
validate_password env password = not (ltb (env.byte_length (env.trim_space password)) 12)

abbrev pub answer_revoked : List SetCookie × Db → ChangeReply × Db
answer_revoked (cookies, db) = (password_changed cookies, db)

-- The answer to the store's write.
abbrev pub answer_change :
    PasswordEnv → ChangeCall → Request → Result (Unit {0}) × Db → ChangeReply × Db
answer_change env c r (err not_found, db) = (account_changed, db)
answer_change env c r (err e, db) = (store_failed, db)
answer_change env c r (ok _, db) =
    answer_revoked (revoke_session env.sha256_hex env.security c.revoke_io r db)

abbrev pub write_hash :
    PasswordEnv → ChangeCall → Request → User → Option String → Db → ChangeReply × Db
write_hash env c r user none db = (hash_failed, db)
write_hash env c r user (some hash) db = answer_change env c r (
    complete_password_change c.change_io c.now user.id user.password_hash hash c.request_ip
      (c.meanwhile db))

-- password.Verify says yes and reports no error.
abbrev pub is_verified : Bool × Bool → Bool
is_verified (answer, failed) = answer && not failed

unfoldable pub with_passwords :
    PasswordEnv → ChangeCall → Request → User → Option ChangeRequest → Db → ChangeReply × Db
unfolding validate_password complete_password_change revoke_session
with_passwords env c r user none db = (bad_body, db)
with_passwords env c r user (some req) db =
    if ltb 1024 (env.byte_length req.new_password)
    then (too_long, db)
    else if not (validate_password env req.new_password)
    then (too_short, db)
    else if req.current_password == req.new_password
    then (same_password, db)
    else if not (is_verified (env.verify_password req.current_password user.password_hash))
    then (wrong_password, db)
    else write_hash env c r user (env.hash_password req.new_password) db

-- Both windows count, the account's only if the client's lets the request through.
unfoldable pub allow_change : ChangeCall → String → Attempts → Bool × Attempts
unfolding allow_attempt
allow_change c user_id attempts =
    let (client_ok, counted) =
      allow_attempt c.victim c.now ("password-change:" ^^ c.limiter_ip) 10 60 attempts in
    if not client_ok
    then (false, counted)
    else allow_attempt c.user_victim c.now ("password-change-user:" ^^ user_id) 5 60 counted

abbrev pub if_allowed : Bool × Attempts → Db → (Db → ChangeReply × Db) → ChangeReply × Attempts × Db
if_allowed (false, attempts) db rest = (too_many_attempts, attempts, db)
if_allowed (true, attempts) db rest = let (reply, db') = rest db in (reply, attempts, db')

abbrev pub as_user :
    PasswordEnv
    → ChangeCall
    → Request
    → Option ChangeRequest
    → Attempts
    → Outcome (User × Session) × Db
    → ChangeReply × Attempts × Db
as_user env c r body attempts (denied e, db) = (unauthenticated, attempts, db)
as_user env c r body attempts (granted (user, sess), db) =
    if not (user.sso_provider == "local")
    then (no_local_password, attempts, db)
    else if_allowed (allow_change c user.id attempts) db (with_passwords env c r user body)

unfoldable pub change_password :
    PasswordEnv
    → ChangeCall
    → Request
    → Option ChangeRequest
    → Attempts
    → Db
    → ChangeReply × Attempts × Db
unfolding authenticate allow_change with_passwords
change_password env c r body attempts db =
    if not (r.method == "POST")
    then (method_not_allowed, attempts, db)
    else as_user env c r body attempts
        (authenticate env.sha256_hex env.security.host_cookies c.auth r db)
