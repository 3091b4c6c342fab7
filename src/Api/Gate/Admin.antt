-- ===== src/Api/Gate/Admin.antt =====
-- Who gets through the front: the CSRF check, SCIM's token, and the administrators' handlers.
use text.Mathlib.Text.{starts_with}
use ky_server_base.Prelude.{
  String, ◌≡◌, refl, sym, ap, ◌∙◌, ◌≢◌, ◌⊎◌, inl, inr, Bool, true, false, not, ◌&&◌, List, [], ◌∷◌,
  arith, ◌==◌, eq_iff, if◌then◌else◌, Bool-cases,
}
use ky_server_base.Store.Models.{User, Session, Db}
use ky_server_base.Auth.Session.{
  Request, header, cookie, cookie_name, csrf_cookie, validate_csrf, AuthError, store_failed,
  password_change_required, Outcome, granted, denied, AuthCalls, authenticate,
}
use ky_server_base.Auth.Session.Granted.{Evidence, authenticate-Evidence}
use ky_server_base.Api.Gate.{
  Site, Verdict, preflight_refused, preflight_answered, csrf_refused, cross_site_refused,
  same_origin, to_scim, to_routes, is_unsafe_method, has_session_cookie, is_sign_in, is_cross_site,
  auth_middleware, serve, csrf_exempt, is_bearer, refused, ran, require_admin, only_admin,
}

-- The CSRF cookie is there and the header repeats it.
abbrev pub IsEchoed : Site → Request → Type 0
IsEchoed site r =
    ((cookie (cookie_name csrf_cookie site.host_cookies) r == "") ≡ false)
    × (header "X-CSRF-Token" r ≡ cookie (cookie_name csrf_cookie site.host_cookies) r)

validate_csrf-IsEchoed :
    (site : Site) (r : Request) → validate_csrf r site.host_cookies ≡ true → IsEchoed site r
unfolding validate_csrf
validate_csrf-IsEchoed site r h = (
  ground arith,
  ground (
    arith,
    eq_iff (header "X-CSRF-Token" r) (cookie (cookie_name csrf_cookie site.host_cookies) r),
  ),
)

-- The order of the checks of `serve`.
abbrev gate : Bool → Bool → Bool → Bool → Bool → Verdict → Verdict
gate options foreign csrf cross scim inner =
    if options
    then (if foreign then preflight_refused else preflight_answered)
    else if csrf
    then csrf_refused
    else if cross
    then cross_site_refused
    else if scim
    then inner
    else to_routes

gate-through :
    (options foreign csrf cross scim : Bool) (inner : Verdict)
    → (gate options foreign csrf cross scim inner ≡ to_routes)
      ⊎ (gate options foreign csrf cross scim inner ≡ to_scim)
    → (csrf ≡ false)
      × (cross ≡ false)
      × (((scim ≡ true) × (gate options foreign csrf cross scim inner ≡ inner))
          ⊎ ((scim ≡ false) × (gate options foreign csrf cross scim inner ≡ to_routes)))
gate-through true true csrf cross scim inner h = absurd (ground arith)
gate-through true false csrf cross scim inner h = absurd (ground arith)
gate-through false foreign true cross scim inner h = absurd (ground arith)
gate-through false foreign false true scim inner h = absurd (ground arith)
gate-through false foreign false false true inner h = (refl, refl, inl (refl, refl))
gate-through false foreign false false false inner h = (refl, refl, inr (refl, refl))

serve-through :
    (site : Site) (host : String) (r : Request)
    → (serve site host r ≡ to_routes) ⊎ (serve site host r ≡ to_scim)
    → ((is_unsafe_method r.method
          && (has_session_cookie site r
              && (not (csrf_exempt r.path) && not (validate_csrf r site.host_cookies))))
        ≡ false)
      × ((is_unsafe_method r.method && (is_sign_in r.path && is_cross_site site host r)) ≡ false)
      × (((starts_with r.path "/scim/v2" ≡ true) × (serve site host r ≡ auth_middleware site r))
          ⊎ ((starts_with r.path "/scim/v2" ≡ false) × (serve site host r ≡ to_routes)))
unfolding serve
serve-through site host r h =
    gate-through (r.method == "OPTIONS")
      (not (header "Origin" r == "") && not (same_origin site (header "Origin" r))) _ _
      (starts_with r.path "/scim/v2") (auth_middleware site r) h

-- A request that is let through by an unsafe method with a session cookie, but for the sign-in,
-- repeats its CSRF cookie in X-CSRF-Token; and a sign-in by an unsafe method that is let through
-- is not cross-site.
pub serve-csrf :
    (site : Site) (host : String) (r : Request)
    → (serve site host r ≡ to_routes) ⊎ (serve site host r ≡ to_scim)
    → is_unsafe_method r.method ≡ true
    → (has_session_cookie site r ≡ true → is_sign_in r.path ≡ false → IsEchoed site r)
      × (is_sign_in r.path ≡ true → is_cross_site site host r ≡ false)
serve-csrf site host r through write = (
  λ signed_in other.
      validate_csrf-IsEchoed site r
        (unfold csrf_exempt in ground (arith, (serve-through site host r through).0)),
  λ h. ground (arith, (serve-through site host r through).1),
)

is_bearer-token :
    (site : Site) (fs : List String)
    → is_bearer site fs ≡ true
    → (kind : String) × (fs ≡ kind ∷ site.scim_token ∷ [])
is_bearer-token site [] h = absurd (cc h)
is_bearer-token site (k ∷ []) h = absurd (cc h)
is_bearer-token site (k ∷ t ∷ []) h =
    (k, ap (λ (x : String). k ∷ x ∷ []) ((eq_iff t site.scim_token).0 (ground arith)))
is_bearer-token site (k ∷ t ∷ u ∷ ts) h = absurd (cc h)

auth_middleware-cases :
    (site : Site) (r : Request)
    → auth_middleware site r ≡ to_scim
    → (site.scim_enabled ≡ true) × (is_bearer site (site.fields (header "Authorization" r)) ≡ true)
unfolding auth_middleware
auth_middleware-cases site r h = ground arith

auth_middleware-path :
    (site : Site) (r : Request)
    → starts_with r.path "/scim/v2" ≡ true
    → auth_middleware site r ≢ to_routes
unfolding auth_middleware
auth_middleware-path site r h e = ground arith

-- A request that is handed to SCIM comes while SCIM is enabled, with an Authorization header of two
-- fields, the second of them SCIM's token; and a request that is handed to the other routes is not
-- for SCIM's paths.
pub serve-scim :
    (site : Site) (host : String) (r : Request)
    → (serve site host r ≡ to_scim
        → (site.scim_enabled ≡ true)
          × ((kind : String) × (site.fields (header "Authorization" r)
                ≡ kind ∷ site.scim_token ∷ [])))
      × (serve site host r ≡ to_routes → starts_with r.path "/scim/v2" ≡ false)
serve-scim site host r = (
  λ h.
      let seen =
        auth_middleware-cases site r (ground (arith, h, (serve-through site host r (inr h)).2)) in
      (seen.0, is_bearer-token site (site.fields (header "Authorization" r)) seen.1),
  λ h. elim (serve-through site host r (inl h)).2 [
    | inl (path, e) ↦ absurd (auth_middleware-path site r path (sym e ∙ h))
    | inr (path, _) ↦ path
  ],
)

refused_runs_nothing : {A : Type 0} (e : AuthError) (a : A) → refused {A = A} e ≢ ran a
refused_runs_nothing (store_failed x) a h = absurd (cc h)
refused_runs_nothing password_change_required a h = absurd (cc h)

-- An administrator's handler runs only for a request that is authenticated as an active
-- administrator's, and then on the database that the authentication left; whatever else happens
-- writes nothing but what the authentication writes.
pub require_admin-cases :
    {A : Type 0} (sha256_hex : String → String) (host : Bool) (c : AuthCalls) (body : Db → A × Db)
    (r : Request) (db : Db)
    → let seen = authenticate sha256_hex host c r db in
      ((u : User) × (s : Session) × Evidence sha256_hex host c r db u s
        × (u.role ≡ "admin")
        × (require_admin sha256_hex host c body r db ≡ (ran (body seen.1).0, (body seen.1).1)))
      ⊎ (((a : A) → (require_admin sha256_hex host c body r db).0 ≢ ran a)
          × ((require_admin sha256_hex host c body r db).1 ≡ seen.1))
unfolding require_admin
require_admin-cases {A = A} sha256_hex host c body r db =
    go (authenticate sha256_hex host c r db) refl
  where
    go :
        (x : Outcome (User × Session) × Db)
        → authenticate sha256_hex host c r db ≡ x
        → ((u : User) × (s : Session) × Evidence sha256_hex host c r db u s
            × (u.role ≡ "admin")
            × (only_admin body x ≡ (ran (body x.1).0, (body x.1).1)))
          ⊎ (((a : A) → (only_admin body x).0 ≢ ran a) × ((only_admin body x).1 ≡ x.1))
    go (denied e, d) h = inr ((λ a. refused_runs_nothing e a), refl)
    go (granted (u, s), d) h = elim (Bool-cases (u.role == "admin")) [
      | inl is ↦ inl (
        u,
        s,
        authenticate-Evidence sha256_hex host c r db u s (ap (λ p. p.0) h),
        (eq_iff u.role "admin").0 is,
        rw is refl,
      )
      | inr not_one ↦ inr ((λ a e. absurd (cc (rw not_one at e))), rw not_one refl)
    ]
