-- ===== src/Api/GateTests.antt =====
-- The front's theorems at concrete requests (internal/api/server.go).
use ky_server_base.Prelude.{
  ℕ, ◌≡◌, refl, ◌≢◌, ◌⊎◌, inl, true, false, none, some, [], ◌∷◌, ◌==◌, if◌then◌else◌, length,
}
use ky_server_base.Dict.{lookup}
use ky_server_base.Store.Models.{User, Session, Db}
use ky_server_base.Store.Samples.{quiet, two}
use ky_server_base.Auth.Session.{Request, AuthCalls, authenticate}
use ky_server_base.Auth.Session.Granted.{Evidence}
use ky_server_base.Api.Gate.{
  Site, has_session_cookie, is_sign_in, is_cross_site, serve, ran, require_admin,
}
use ky_server_base.Api.Gate.Admin.{IsEchoed, serve-csrf, require_admin-cases}

abbrev site : Site
site = record {
  app_url = "https://ky.example.org";
  host_cookies = true;
  scim_enabled = true;
  scim_token = "t0k3n";
  parse_url = λ s. if s == "https://ky.example.org" then some ("https", "ky.example.org") else none;
  equal_fold = λ s t. s == t;
  fields = λ s. if s == "Bearer t0k3n" then "Bearer" ∷ "t0k3n" ∷ [] else [];
}

-- The page changes the theme.
abbrev set_theme : Request
set_theme = record {
  method = "POST";
  path = "/api/settings/theme";
  headers = ("X-CSRF-Token", "c1") ∷ ("Origin", "https://ky.example.org") ∷ [];
  cookies = ("__Host-ky_session", "t1") ∷ ("__Host-ky_csrf", "c1") ∷ [];
}

serve-csrf_example :
    (has_session_cookie site set_theme ≡ true
      → is_sign_in "/api/settings/theme" ≡ false
      → IsEchoed site set_theme)
    × (is_sign_in "/api/settings/theme" ≡ true
        → is_cross_site site "ky.example.org" set_theme ≡ false)
unfolding serve lookup
serve-csrf_example = serve-csrf site "ky.example.org" set_theme (inl refl) refl

abbrev list_accounts : Request
list_accounts = record {
  method = "GET";
  path = "/scim/v2/Users";
  headers = ("Authorization", "Bearer t0k3n") ∷ [];
  cookies = [];
}

abbrev steady : AuthCalls
steady = record {
  first_io = quiet;
  first_now = 50;
  user_io = quiet;
  drop_io = quiet;
  recheck_io = quiet;
  recheck_now = 51;
  before_user = λ db. db;
  before_recheck = λ db. db;
}

abbrev purge : Db → ℕ × Db
purge db = (length db.sessions, record db { sessions = [] })

require_admin-cases_example :
    ((u : User) × (s : Session) × Evidence (λ s. s) true steady set_theme two u s
      × (u.role ≡ "admin")
      × (require_admin (λ s. s) true steady purge set_theme two ≡ (
        ran (purge (authenticate (λ s. s) true steady set_theme two).1).0,
        (purge (authenticate (λ s. s) true steady set_theme two).1).1,
      )))
    ⊎ (((a : ℕ) → (require_admin (λ s. s) true steady purge set_theme two).0 ≢ ran a)
        × ((require_admin (λ s. s) true steady purge set_theme two).1
            ≡ (authenticate (λ s. s) true steady set_theme two).1))
require_admin-cases_example = require_admin-cases (λ s. s) true steady purge set_theme two
