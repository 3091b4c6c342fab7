-- ===== src/Api/SettingsTests.antt =====
-- The theorem on handleGetSettings at a concrete request (internal/api/settings_handlers.go).
use ky_server_base.Prelude.{String, ◌≡◌, refl, true, [], ◌∷◌, map}
use ky_server_base.Sql.{find_where, delete_where}
use ky_server_base.Dict.{lookup}
use ky_server_base.Store.Models.{User, Session, Setting, Db}
use ky_server_base.Store.Samples.{quiet, two}
use ky_server_base.Store.Users.{get_user_by_id}
use ky_server_base.Store.Sessions.{get_session}
use ky_server_base.Auth.Session.{Request, AuthCalls, authenticate}
use ky_server_base.Auth.Session.Granted.{Evidence}
use ky_server_base.Api.Settings.{SettingsEnv, get_settings}
use ky_server_base.Api.Settings.Secrets.{IsStripped, get_settings-IsStripped}

abbrev env : SettingsEnv
env = record {
  app_name = "Ky";
  app_url = "https://ky.example.org";
  captcha_provider = "pow";
  sso_enabled = true;
  scim_enabled = true;
  db_driver = "sqlite";
  host_cookies = true;
  sha256_hex = λ s. s;
}

abbrev setting : String → String → Setting
setting key value = record { key = key; value = value; updated_at = 5 }

abbrev paired : Db
paired = record two {
  server_settings = setting "kyrecovery_token_v2" "sealed" ∷ setting "site_theme" "dark" ∷ [];
}

abbrev read : Request
read = record {
  method = "GET";
  path = "/api/settings";
  headers = [];
  cookies = ("__Host-ky_session", "t1") ∷ [];
}

abbrev steady : AuthCalls
steady = record {
  first_io = quiet;
  first_now = 50;
  user_io = quiet;
  drop_io = quiet;
  recheck_io = quiet;
  recheck_now = 50;
  before_user = λ db. db;
  before_recheck = λ db. db;
}

get_settings-IsStripped_example :
    (u : User) × (s : Session) × Evidence (λ s. s) true steady read paired u s
    × (u.role ≡ "admin")
    × IsStripped
        (map
          (λ (x : Setting). (x.key, x.value))
          (authenticate (λ s. s) true steady read paired).1.server_settings)
        (("site_theme", "dark") ∷ [])
unfolding get_settings get_session get_user_by_id find_where delete_where lookup
get_settings-IsStripped_example =
    get_settings-IsStripped env steady quiet quiet read paired (("site_theme", "dark") ∷ []) refl
