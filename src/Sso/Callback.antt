-- ===== src/Sso/Callback.antt =====
-- handleKySignOnCallback of internal/api/sso_handlers.go: the sign-in that KyIdentity sends back.
pub mod Account
pub mod Granted
pub mod Roles
use Prim.Native.String.{◌++◌ as ◌^^◌}
use ky_server_base.Prelude.{
  ℕ, String, Bool, true, false, not, Option, none, some, List, ◌==◌, if◌then◌else◌,
}
use ky_server_base.Store.Models.{
  User, Session, Db, Backend, Result, ok, err, not_found, already_exists, conflict,
  sso_session_ended,
}
use ky_server_base.Store.Tx.{Io}
use ky_server_base.Store.Users.{get_user_by_sso, create_user, update_user_role}
use ky_server_base.Store.Audit.{log_audit}
use ky_server_base.Auth.Session.{
  Request, SecurityConfig, SetCookie, Drawn, cookie, cookie_name, issue,
}
use ky_server_base.Sso.{local_role, adopt_scim_user}
use ky_server_base.Sso.Tokens.{IdentityClaims, Verified, verified, unverified, TokenError}

-- The configuration, and what the handler takes from libraries and from the provider: SHA-256 in
-- hex, and the exchange of a code, a PKCE verifier and a nonce for claims.
pub record CallbackEnv : Type 0 where
  pub backend : Backend
  pub security : SecurityConfig
  pub auto_provision : Bool
  pub sha256_hex : String → String
  pub exchange : String → String → String → Verified IdentityClaims

-- One request: the failing statements of its store calls, its times, what it draws, and what other
-- requests write before each of its store calls.
pub record CallbackCall : Type 0 where
  pub find_io : Io
  pub adopt_read_io : Io
  pub adopt_link_io : Io
  pub adopt_again_io : Io
  pub create_io : Io
  pub role_io : Io
  pub issue_io : Io
  pub audit_io : Io
  pub now : ℕ
  pub later : ℕ
  pub before_adopt : Db → Db
  pub before_link : Db → Db
  pub before_create : Db → Db
  pub before_role : Db → Db
  pub before_issue : Db → Db
  pub drawn_id : String
  pub drawn : Drawn
  pub agent : String
  pub ip : String

pub data Refusal : Type 0 where
  bad_state bad_nonce not_provisioned name_taken provision_failed disabled : Refusal
  account_changed role_failed session_ended session_failed : Refusal
  exchange_failed : TokenError → Refusal

pub data CallbackReply : Type 0 where
  refused : Refusal → CallbackReply
  signed_in : List SetCookie → CallbackReply

-- An error of an audit record is dropped (`_ = LogAudit`).
abbrev pub audit : CallbackCall → String → String → String → String → Db → Db
audit c user_id action resource details db =
    (log_audit c.audit_io c.later
      (record {
        user_id = user_id;
        action = action;
        resource = resource;
        details = details;
        ip_address = c.ip;
        created_at = 0;
      })
      db).1

abbrev pub adopted : CallbackCall → Result (User × Bool) × Db → Result User × Db
adopted c (ok (user, true), db) =
    (ok user, audit c user.id "sso.scim_account_linked" user.username "" db)
adopted c (ok (user, false), db) = (ok user, db)
adopted c (err e, db) = (err e, db)

abbrev pub or_adopt : CallbackCall → String → Result User × Db → Result User × Db
or_adopt c subject (ok user, db) = (ok user, db)
or_adopt c subject (err not_found, db) = adopted c (
    adopt_scim_user c.adopt_read_io c.adopt_link_io c.adopt_again_io c.later c.before_link subject
      (c.before_adopt db))
or_adopt c subject (err e, db) = (err e, db)

-- The account of the subject, or the one that SCIM made for it.
unfoldable pub find_account : CallbackCall → String → Db → Result User × Db
unfolding get_user_by_sso adopt_scim_user
find_account c subject db = or_adopt c subject (get_user_by_sso c.find_io "kysignon" subject db)

abbrev pub role_or_user : Option String → String
role_or_user none = "user"
role_or_user (some role) = role

abbrev pub new_account : CallbackCall → IdentityClaims → User
new_account c claims = record {
  id = "usr_" ^^ c.drawn_id;
  username = claims.preferred_username;
  email = claims.email;
  display_name = claims.name;
  password_hash = "";
  role = role_or_user (local_role claims.roles claims.role);
  status = "active";
  sso_provider = "kysignon";
  sso_subject = claims.subject;
  scim_managed = false;
  push_device_id = "";
  must_change_password = false;
  created_at = 0;
  updated_at = 0;
  last_login_at = none;
}

-- The handler goes on with an account, or answers.
pub data Turn : Type 0 where
  go : User → Turn
  stop : Refusal → Turn

abbrev pub created : User → Result (Unit {0}) × Db → Turn × Db
created user (ok _, db) = (go user, db)
created user (err already_exists, db) = (stop name_taken, db)
created user (err e, db) = (stop provision_failed, db)

-- An account that is not there is made, if the configuration allows it.
unfoldable pub provision :
    CallbackEnv → CallbackCall → IdentityClaims → Result User × Db → Turn × Db
unfolding create_user local_role
provision env c claims (ok user, db) = (go user, db)
provision env c claims (err not_found, db) =
    if not env.auto_provision
    then (stop not_provisioned, db)
    else created (new_account c claims)
        (create_user env.backend c.create_io c.later (new_account c claims) (c.before_create db))
provision env c claims (err e, db) = (stop provision_failed, db)

abbrev pub role_written : CallbackCall → String → User → Result (Unit {0}) × Db → Turn × Db
role_written c prev user (ok _, db) = (
  go user,
  audit c user.id "sso.role_changed" user.username ("from=" ^^ (prev ^^ (" to=" ^^ user.role))) db,
)
role_written c prev user (err conflict, db) = (stop account_changed, db)
role_written c prev user (err e, db) = (stop role_failed, db)

-- The role follows the token, if the token has one.
unfoldable pub sync_role : CallbackEnv → CallbackCall → Option String → User → Db → Turn × Db
unfolding update_user_role
sync_role env c none user db = (go user, db)
sync_role env c (some role) user db =
    if user.role == role
    then (go user, db)
    else role_written c user.role (record user { role = role })
        (update_user_role env.backend c.role_io c.later (record user { role = role }) user.role
          (c.before_role db))

abbrev pub answer_issued : Result (Session × List SetCookie) × Db → CallbackReply × Db
answer_issued (ok (sess, cookies), db) = (signed_in cookies, db)
answer_issued (err sso_session_ended, db) = (refused session_ended, db)
answer_issued (err e, db) = (refused session_failed, db)

-- The session carries the provider's sid, and counts from the time that the provider vouched for.
unfoldable pub start_session :
    CallbackEnv → CallbackCall → IdentityClaims → User → Db → CallbackReply × Db
unfolding issue
start_session env c claims user db = answer_issued (
    issue env.sha256_hex env.security c.issue_io c.drawn c.later c.later user c.agent c.ip
      claims.issued_at claims.session_id (c.before_issue db))

abbrev pub and_then : Turn × Db → (User → Db → CallbackReply × Db) → CallbackReply × Db
and_then (go user, db) rest = rest user db
and_then (stop reason, db) rest = (refused reason, db)

unfoldable pub admit : CallbackEnv → CallbackCall → IdentityClaims → User → Db → CallbackReply × Db
unfolding sync_role start_session local_role
admit env c claims user db =
    if not (user.status == "active")
    then (refused disabled, db)
    else and_then (sync_role env c (local_role claims.roles claims.role) user db)
        (start_session env c claims)

unfoldable pub with_claims :
    CallbackEnv → CallbackCall → Verified IdentityClaims → Db → CallbackReply × Db
unfolding find_account provision admit
with_claims env c (unverified e) db = (refused (exchange_failed e), db)
with_claims env c (verified claims) db =
    and_then (provision env c claims (find_account c claims.subject db)) (admit env c claims)

-- `code` and `state` are read of the query; the cookies of the state hold the PKCE verifier and the
-- nonce.
unfoldable pub callback :
    CallbackEnv → CallbackCall → String → String → Request → Db → CallbackReply × Db
unfolding with_claims cookie cookie_name
callback env c code state r db =
    let host = env.security.host_cookies in
    let verifier = cookie (cookie_name ("ky_pkce_" ^^ state) host) r in
    let nonce = cookie (cookie_name ("ky_nonce_" ^^ state) host) r in
    if verifier == ""
    then (refused bad_state, db)
    else if nonce == ""
    then (refused bad_nonce, db)
    else with_claims env c (env.exchange code verifier nonce) db
