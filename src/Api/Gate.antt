-- ===== src/Api/Gate.antt =====
-- The front of the HTTP server: ServeHTTP, requireAdmin, requireAuthenticated, foreignOrigin and
-- sameOrigin of internal/api/server.go, and AuthMiddleware of internal/scim/handler.go.
pub mod Admin
use text.Mathlib.Text.{starts_with}
use ky_server_base.Prelude.{
  ◌-◌, String, Bool, false, not, ◌&&◌, ◌||◌, Option, none, some, List, [], ◌∷◌, ◌==◌, if◌then◌else◌,
}
use ky_server_base.Store.Models.{User, Session, Db}
use ky_server_base.Auth.Session.{
  Request, header, cookie, cookie_name, session_cookie, validate_csrf, AuthError,
  password_change_required, Outcome, granted, denied, AuthCalls, authenticate,
}

-- The configuration that the front reads, and what it takes from the standard library: url.Parse
-- (the scheme and the host), strings.EqualFold and strings.Fields.
pub record Site : Type 0 where
  pub app_url : String
  pub host_cookies : Bool
  pub scim_enabled : Bool
  pub scim_token : String
  pub parse_url : String → Option (String × String)
  pub equal_fold : String → String → Bool
  pub fields : String → List String

-- What becomes of a request.
pub data Verdict : Type 0 where
  -- OPTIONS: refused with 403, or answered with 200
  preflight_refused preflight_answered : Verdict
  -- 403
  csrf_refused cross_site_refused scim_disabled : Verdict
  -- 401
  scim_unauthorized : Verdict
  -- handed to the routes, as a SCIM request or as another one
  to_scim to_routes : Verdict

unfoldable pub is_unsafe_method : String → Bool
is_unsafe_method method =
    not (method == "GET") && (not (method == "HEAD") && not (method == "OPTIONS"))

unfoldable pub has_session_cookie : Site → Request → Bool
unfolding cookie cookie_name
has_session_cookie site r = not (cookie (cookie_name session_cookie site.host_cookies) r == "")

unfoldable pub is_sign_in : String → Bool
is_sign_in path = path == "/api/auth/login"

unfoldable pub csrf_exempt : String → Bool
unfolding is_sign_in
csrf_exempt path = is_sign_in path

abbrev same_as : String → String → Option (String × String) → Bool
same_as scheme host none = false
same_as scheme host (some (s, h)) = s == scheme && h == host

abbrev same_as_app : Option (String × String) → Option (String × String) → Bool
same_as_app none o = false
same_as_app (some (scheme, host)) o =
    if scheme == "" || host == "" then false else same_as scheme host o

unfoldable pub same_origin : Site → String → Bool
same_origin site origin = same_as_app (site.parse_url site.app_url) (site.parse_url origin)

abbrev is_host : Site → String → Option (String × String) → Bool
is_host site host none = false
is_host site host (some (s, h)) = not (h == "") && site.equal_fold h host

-- `host` is r.Host.
unfoldable pub foreign_origin : Site → String → String → Bool
unfolding same_origin
foreign_origin site host origin =
    if origin == ""
    then false
    else if is_host site host (site.parse_url origin)
    then false
    else not (same_origin site origin)

abbrev pub is_bearer : Site → List String → Bool
is_bearer site (kind ∷ token ∷ []) = site.equal_fold kind "Bearer" && token == site.scim_token
is_bearer site _ = false

unfoldable pub auth_middleware : Site → Request → Verdict
unfolding header
auth_middleware site r =
    if not (starts_with r.path "/scim/v2")
    then to_routes
    else if not site.scim_enabled
    then scim_disabled
    else if is_bearer site (site.fields (header "Authorization" r))
    then to_scim
    else scim_unauthorized

unfoldable pub is_cross_site : Site → String → Request → Bool
unfolding header foreign_origin
is_cross_site site host r =
    let from = header "Sec-Fetch-Site" r in
    from == "cross-site" || (from == "same-site" || foreign_origin site host (header "Origin" r))

-- The checks of ServeHTTP, in order; the response's headers are left out.
unfoldable pub serve : Site → String → Request → Verdict
unfolding header same_origin is_unsafe_method has_session_cookie csrf_exempt validate_csrf
    is_sign_in is_cross_site auth_middleware
serve site host r =
    let origin = header "Origin" r in
    if r.method == "OPTIONS"
    then (if not (origin == "") && not (same_origin site origin)
        then preflight_refused
        else preflight_answered)
    else if is_unsafe_method r.method
        && (has_session_cookie site r
            && (not (csrf_exempt r.path) && not (validate_csrf r site.host_cookies)))
    then csrf_refused
    else if is_unsafe_method r.method && (is_sign_in r.path && is_cross_site site host r)
    then cross_site_refused
    else if starts_with r.path "/scim/v2"
    then auth_middleware site r
    else to_routes

-- What a guarded handler does: it refuses, or runs its body.
pub data Reply {ℓ} (A : Type ℓ) : Type ℓ where
  must_change_password unauthenticated not_administrator : Reply A
  ran : A → Reply A

abbrev pub refused {ℓ} : {A : Type ℓ} → AuthError → Reply A
refused password_change_required = must_change_password
refused _ = unauthenticated

abbrev pub only_admin {ℓ} :
    {A : Type ℓ} → (Db → A × Db) → Outcome (User × Session) × Db → Reply A × Db
only_admin body (denied e, db) = (refused e, db)
only_admin body (granted (user, sess), db) =
    if user.role == "admin"
    then (let (a, db') = body db in (ran a, db'))
    else (not_administrator, db)

unfoldable pub require_admin {ℓ} :
    {A : Type ℓ}
    → (String → String)
    → Bool
    → AuthCalls
    → (Db → A × Db)
    → Request
    → Db
    → Reply A × Db
unfolding authenticate
require_admin sha256_hex host c body r db = only_admin body (authenticate sha256_hex host c r db)

abbrev pub only_authenticated {ℓ} :
    {A : Type ℓ} → (Db → A × Db) → Outcome (User × Session) × Db → Reply A × Db
only_authenticated body (denied e, db) = (refused e, db)
only_authenticated body (granted _, db) = let (a, db') = body db in (ran a, db')

unfoldable pub require_authenticated {ℓ} :
    {A : Type ℓ}
    → (String → String)
    → Bool
    → AuthCalls
    → (Db → A × Db)
    → Request
    → Db
    → Reply A × Db
unfolding authenticate
require_authenticated sha256_hex host c body r db =
    only_authenticated body (authenticate sha256_hex host c r db)
