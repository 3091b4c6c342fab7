-- ===== src/Auth/Session.antt =====
-- Sessions of internal/auth/session.go: the token of a request, AuthenticateRequest, ValidateCSRF,
-- issue and RevokeSession, with the cookies that they set.
pub mod Granted
use Prim.Native.String.{len, slice, ◌++◌ as ◌^^◌}
use text.Mathlib.Text.{starts_with}
use ky_server_base.Prelude.{
  ℕ, zero, suc, ◌+◌, ◌-◌, ◌*◌, String, Bool, true, false, not, ◌&&◌, ◌||◌, Option, none, some, List,
  [], ◌∷◌, ◌==◌, if◌then◌else◌,
}
use ky_server_base.Prelude.Int.{ℤ, pos, negsuc}
use ky_server_base.Dict.{lookup}
use ky_server_base.Store.Models.{User, Session, Db, Error, Result, ok, err, not_found}
use ky_server_base.Store.Tx.{Op, Io}
use ky_server_base.Store.Users.{get_user_by_id}
use ky_server_base.Store.Sessions.{get_session, delete_session, create_session}

-- What is read of a request: its method, its path, its headers and its cookies by name. A header
-- that is not there reads as the empty text.
pub record Request : Type 0 where
  pub method : String
  pub path : String
  pub headers : List (String × String)
  pub cookies : List (String × String)

abbrev or_empty : Option String → String
or_empty none = ""
or_empty (some s) = s

-- r.Header.Get
unfoldable pub header : String → Request → String
unfolding lookup
header name r = or_empty (lookup name r.headers)

-- The value of a cookie; the empty text if it is not there.
unfoldable pub cookie : String → Request → String
unfolding lookup
cookie name r = or_empty (lookup name r.cookies)

unfoldable pub cookie_name : String → Bool → String
cookie_name name host = if host then "__Host-" ^^ name else name

abbrev pub session_cookie : String
session_cookie = "ky_session"

abbrev pub csrf_cookie : String
csrf_cookie = "ky_csrf"

-- strings.TrimPrefix
abbrev trim_prefix : String → String → String
trim_prefix s prefix = if starts_with s prefix then slice s (len prefix) (len s) else s

abbrev bearer : String → String
bearer s = if starts_with s "Bearer " then trim_prefix s "Bearer " else ""

-- The bearer token, or else the session cookie.
unfoldable pub raw_token : Bool → Request → String
unfolding header cookie cookie_name
raw_token host r =
    let token = bearer (header "Authorization" r) in
    if token == "" then cookie (cookie_name session_cookie host) r else token

pub data AuthError : Type 0 where
  store_failed : Error → AuthError
  password_change_required : AuthError

pub data Outcome {ℓ} (A : Type ℓ) : Type ℓ where
  granted : A → Outcome A
  denied : AuthError → Outcome A

-- The three requests that a session under a mandatory password change may make.
unfoldable pub is_restricted_path : Request → Bool
is_restricted_path r =
    (r.method == "GET" && r.path == "/api/auth/me")
    || (r.method == "POST"
        && (r.path == "/api/auth/change-password" || r.path == "/api/auth/logout"))

abbrev pub Guard {ℓ} : Type ℓ → Type ℓ
Guard A = Db → Outcome A × Db

abbrev proceed {ℓ κ} : {A : Type ℓ} {B : Type κ} → Result A × Db → (A → Guard B) → Outcome B × Db
proceed (ok a, db) f = f a db
proceed (err e, db) f = (denied (store_failed e), db)

infixl 5 ◌>>=◌
-- A store call whose error is the outcome.
abbrev ◌>>=◌ {ℓ κ} : {A : Type ℓ} {B : Type κ} → Op A → (A → Guard B) → Guard B
◌>>=◌ m f db = proceed (m db) f

-- The failing statements and the times of the four store calls, and what other requests write
-- between the first read, the user's row and the recheck.
pub record AuthCalls : Type 0 where
  pub first_io : Io
  pub first_now : ℕ
  pub user_io : Io
  pub drop_io : Io
  pub recheck_io : Io
  pub recheck_now : ℕ
  pub before_user : Db → Db
  pub before_recheck : Db → Db

abbrev allow : Request → User → Session → Outcome (User × Session)
allow r user sess =
    if user.must_change_password && not (is_restricted_path r)
    then denied password_change_required
    else granted (user, sess)

-- The session is read again after the user, so that a session which was revoked in between counts
-- no more.
unfoldable pub recheck : AuthCalls → Request → String → User → Session → Guard (User × Session)
unfolding is_restricted_path
recheck c r token user sess db =
    proceed (get_session c.recheck_io c.recheck_now token (c.before_recheck db))
      (λ _ d. (allow r user sess, d))

-- An account that is not active loses the session.
unfoldable pub check_active : AuthCalls → Request → String → Session → User → Guard (User × Session)
unfolding recheck
check_active c r token sess user db =
    if not (user.status == "active")
    then (denied (store_failed not_found), (delete_session c.drop_io token db).1)
    else recheck c r token user sess db

-- `sha256_hex` is crypto.SHA256Hex.
unfoldable pub authenticate :
    (String → String) → Bool → AuthCalls → Request → Guard (User × Session)
unfolding raw_token check_active
authenticate sha256_hex host c r db =
    let raw = raw_token host r in
    let token = sha256_hex raw in
    if raw == ""
    then (denied (store_failed not_found), db)
    else proceed (get_session c.first_io c.first_now token db) (λ sess d.
      proceed (get_user_by_id c.user_io sess.user_id (c.before_user d))
        (check_active c r token sess))

-- subtle.ConstantTimeCompare is equality of the bytes; the lengths are equal then too.
unfoldable pub validate_csrf : Request → Bool → Bool
unfolding cookie cookie_name header
validate_csrf r host =
    let sent = cookie (cookie_name csrf_cookie host) r in
    if sent == "" then false else header "X-CSRF-Token" r == sent

pub record SecurityConfig : Type 0 where
  pub session_ttl : ℤ
  pub host_cookies : Bool
  pub cookie_secure : Bool
  pub cookie_domain : String

-- A cookie of a response, always under Path=/ and SameSite=Lax.
pub record SetCookie : Type 0 where
  pub name : String
  pub value : String
  pub expires : ℕ
  pub http_only : Bool
  pub secure : Bool
  pub domain : String

abbrev session_set : SecurityConfig → String → ℕ → SetCookie
session_set cfg value expires = record {
  name = cookie_name session_cookie cfg.host_cookies;
  value = value;
  expires = expires;
  http_only = true;
  secure = cfg.cookie_secure;
  domain = cfg.cookie_domain;
}

-- Read by the page's scripts, which send it back in X-CSRF-Token.
abbrev csrf_set : SecurityConfig → String → ℕ → SetCookie
csrf_set cfg value expires = record {
  name = cookie_name csrf_cookie cfg.host_cookies;
  value = value;
  expires = expires;
  http_only = false;
  secure = cfg.cookie_secure;
  domain = cfg.cookie_domain;
}

-- A configured lifetime that is not positive means seven days, here in seconds.
abbrev ttl : ℤ → ℕ
ttl (pos zero) = 7 * (24 * 3600)
ttl (pos (suc n)) = suc n
ttl (negsuc n) = 7 * (24 * 3600)

abbrev ttl_of : SecurityConfig → ℕ
ttl_of cfg = ttl cfg.session_ttl

-- What a sign-in draws at random.
pub record Drawn : Type 0 where
  pub raw_token : String
  pub csrf_token : String

-- The session of a sign-in whose credentials were verified at `authenticated_at`.
unfoldable pub session_for :
    (String → String) → SecurityConfig → Drawn → ℕ → User → String → String → ℕ → String → Session
session_for sha256_hex cfg drawn now user agent ip authenticated_at sid = record {
  token_hash = sha256_hex drawn.raw_token;
  user_id = user.id;
  user_agent = agent;
  ip_address = ip;
  created_at = authenticated_at;
  expires_at = now + ttl_of cfg;
  sso_sid = sid;
}

-- The cookies are set only after the session is stored. `now` and `later` are the times of the
-- expiry and of the fence check.
unfoldable pub issue :
    (String → String)
    → SecurityConfig
    → Io
    → Drawn
    → ℕ
    → ℕ
    → User
    → String
    → String
    → ℕ
    → String
    → Db
    → Result (Session × List SetCookie) × Db
unfolding session_for cookie_name
issue sha256_hex cfg io drawn now later user agent ip authenticated_at sid db =
    let sess = session_for sha256_hex cfg drawn now user agent ip authenticated_at sid in
    let (r, db') = create_session io later sess user.password_hash db in
    elim r [
      | err e ↦ (err e, db')
      | ok _ ↦ (
        ok (
          sess,
          session_set cfg drawn.raw_token sess.expires_at
              ∷ csrf_set cfg drawn.csrf_token sess.expires_at
              ∷ [],
        ),
        db',
      )
    ]

-- The session goes if the request names one, and both cookies are emptied and expired.
unfoldable pub revoke_session :
    (String → String) → SecurityConfig → Io → Request → Db → List SetCookie × Db
unfolding raw_token cookie_name
revoke_session sha256_hex cfg io r db =
    let raw = raw_token cfg.host_cookies r in
    (
      session_set cfg "" 0 ∷ csrf_set cfg "" 0 ∷ [],
      (if raw == "" then db else (delete_session io (sha256_hex raw) db).1),
    )
