-- ===== src/Config/Values.antt =====
-- The structs of internal/config/config.go. A duration is in nanoseconds.
use ky_server_base.Prelude.Int.{ℤ}
use ky_server_base.Prelude.{ℕ, String, Bool, List}
use ky_server_base.Config.Proxies.{Prefix}

pub record ServerConfig : Type 0 where
  pub host : String
  pub port : ℤ
  pub app_url : String
  pub app_name : String
  pub read_timeout : ℕ
  pub write_timeout : ℕ
  pub environment : String

pub record DatabaseConfig : Type 0 where
  pub driver : String
  pub dsn : String
  pub data_dir : String
  pub max_open_conns : ℤ
  pub max_idle_conns : ℤ
  pub conn_max_lifetime : ℕ

pub record SecurityConfig {ℓ} (A : Type ℓ) : Type ℓ where
  pub session_secret : String
  pub encryption_key : String
  pub cookie_secure : Bool
  pub cookie_domain : String
  pub host_cookies : Bool
  pub session_ttl : ℕ
  pub trusted_proxies : List (Prefix A)

pub record SsoConfig : Type 0 where
  pub enabled : Bool
  pub kysignon_issuer : String
  pub kysignon_client_id : String
  pub kysignon_secret : String
  pub kysignon_hmac_secret : String
  pub generic_oidc_issuer : String
  pub generic_oidc_client_id : String
  pub generic_oidc_secret : String
  pub saml_entity_id : String
  pub saml_metadata_url : String
  pub auto_provision : Bool

pub record ScimConfig : Type 0 where
  pub enabled : Bool
  pub bearer_token : String
  pub allow_admin : Bool

pub record BackupConfig : Type 0 where
  pub dir : String
  pub keep : ℤ
  pub deposit_interval : ℕ
  pub allow_private_recovery : Bool

pub record CaptchaConfig : Type 0 where
  pub provider : String
  pub site_key : String
  pub secret_key : String
  pub difficulty_pow : ℤ

pub record Config {ℓ} (A : Type ℓ) : Type ℓ where
  pub server : ServerConfig
  pub database : DatabaseConfig
  pub security : SecurityConfig A
  pub sso : SsoConfig
  pub scim : ScimConfig
  pub backup : BackupConfig
  pub captcha : CaptchaConfig
