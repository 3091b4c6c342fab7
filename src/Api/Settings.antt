-- ===== src/Api/Settings.antt =====
-- The settings: handleGetSettings and handleSetTheme of internal/api/settings_handlers.go. The
-- decoded body is an argument.
pub mod Secrets
use text.Mathlib.Text.{starts_with}
use ky_server_base.Prelude.{ℕ, String, Bool, not, Option, none, some, List, ◌==◌, if◌then◌else◌}
use ky_server_base.Sql.{delete_where}
use ky_server_base.Store.Models.{User, Session, Db, Result, ok, err}
use ky_server_base.Store.Tx.{Io}
use ky_server_base.Store.Audit.{get_setting, set_setting, get_all_settings}
use ky_server_base.Auth.Session.{Request, AuthCalls, Outcome, granted, denied, authenticate}

-- The configuration that the settings show, and SHA-256 in hex.
pub record SettingsEnv : Type 0 where
  pub app_name : String
  pub app_url : String
  pub captcha_provider : String
  pub sso_enabled : Bool
  pub scim_enabled : Bool
  pub db_driver : String
  pub host_cookies : Bool
  pub sha256_hex : String → String

-- What the sign-in screen needs.
pub record PublicTier : Type 0 where
  pub app_name : String
  pub app_url : String
  pub theme : String
  pub captcha_provider : String
  pub sso_enabled : Bool

-- What an account sees besides: whether SCIM is on, and the driver.
pub record AccountTier : Type 0 where
  pub scim_enabled : Bool
  pub db_driver : String

-- The settings by tier; the last is extra_settings.
pub data SettingsReply : Type 0 where
  failed : SettingsReply
  shown : PublicTier → Option AccountTier → Option (List (String × String)) → SettingsReply

-- An error reads as the empty theme, and the empty theme as the default.
abbrev theme_or_default : Result String → String
theme_or_default (ok theme) = if theme == "" then "patina" else theme
theme_or_default (err e) = "patina"

abbrev pub is_token : String × String → Bool
is_token (key, value) = starts_with key "kyrecovery_token"

abbrev pub with_extra :
    PublicTier → AccountTier → Result (List (String × String)) × Db → SettingsReply × Db
with_extra out inner (err e, db) = (failed, db)
with_extra out inner (ok settings, db) =
    (shown out (some inner) (some (delete_where is_token settings)), db)

abbrev pub for_account :
    PublicTier → AccountTier → Io → Outcome (User × Session) × Db → SettingsReply × Db
for_account out inner io (denied e, db) = (shown out none none, db)
for_account out inner io (granted (user, sess), db) =
    if user.role == "admin"
    then with_extra out inner (get_all_settings io db)
    else (shown out (some inner) none, db)

abbrev pub public_tier : SettingsEnv → Io → Db → PublicTier
public_tier env io db = record {
  app_name = env.app_name;
  app_url = env.app_url;
  theme = theme_or_default (get_setting io "site_theme" db).0;
  captcha_provider = env.captcha_provider;
  sso_enabled = env.sso_enabled;
}

abbrev pub account_tier : SettingsEnv → AccountTier
account_tier env = record { scim_enabled = env.scim_enabled; db_driver = env.db_driver }

-- `theme_io` and `all_io` say which of its two reads of settings fail.
unfoldable pub get_settings : SettingsEnv → AuthCalls → Io → Io → Request → Db → SettingsReply × Db
unfolding authenticate get_setting get_all_settings
get_settings env c theme_io all_io r db =
    for_account (public_tier env theme_io db) (account_tier env) all_io
      (authenticate env.sha256_hex env.host_cookies c r db)

pub data ThemeReply : Type 0 where
  method_not_allowed invalid_theme not_saved : ThemeReply
  saved : String → ThemeReply

abbrev answer_saved : String → Result (Unit {0}) × Db → ThemeReply × Db
answer_saved theme (ok _, db) = (saved theme, db)
answer_saved theme (err e, db) = (not_saved, db)

-- `none` is a body that does not decode.
unfoldable pub set_theme : Io → ℕ → Request → Option String → Db → ThemeReply × Db
unfolding set_setting
set_theme io now r none db =
    if not (r.method == "POST") then (method_not_allowed, db) else (invalid_theme, db)
set_theme io now r (some theme) db =
    if not (r.method == "POST")
    then (method_not_allowed, db)
    else if theme == ""
    then (invalid_theme, db)
    else answer_saved theme (set_setting io now "site_theme" theme db)
