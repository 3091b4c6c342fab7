-- ===== src/Backup/Samples.antt =====
-- A configuration of internal/config/config.go and a machine of internal/backup/payload.go for the
-- tests.
use ky_server_base.Prelude.{String, true, false, none, some, []}
use ky_server_base.Prelude.Int.{pos}
use ky_server_base.Config.Values.{Config}
use ky_server_base.Backup.Payload.{Machine}

abbrev pub machine : Machine String
machine = record {
  to_lower = λ s. s;
  trim_file_prefix = λ s. s;
  before_question = λ s. "/data/ky_server.db";
  join = λ dir name. "/data/ky_server.db";
  abs = λ path. some path;
  quote = λ s. s;
  hex_line = λ key. key;
  settings_json = λ server driver. "{}";
  key_len = λ key. 32;
  opens = λ dsn. true;
  make_temp = λ dir. some "snapshot-1";
  sqlite_snapshot = λ dsn path. none;
  stat_size = λ path. some 4096;
  read_file = λ path. some "bytes";
  max_bytes = 100000;
  recovery_key_path = λ dir. "/data/recovery.pub";
}

abbrev pub config : Config String
config = record {
  server = record {
    host = "0.0.0.0";
    port = pos 8080;
    app_url = "http://localhost:8080";
    app_name = "Busnes.app";
    read_timeout = 15;
    write_timeout = 15;
    environment = "development";
  };
  database = record {
    driver = "sqlite";
    dsn = "/data/ky_server.db?_pragma=foreign_keys(ON)";
    data_dir = "/data";
    max_open_conns = pos 25;
    max_idle_conns = pos 5;
    conn_max_lifetime = 900;
  };
  security = record {
    session_secret = "0123456789abcdef";
    encryption_key = "key";
    cookie_secure = false;
    cookie_domain = "";
    host_cookies = false;
    session_ttl = 604800;
    trusted_proxies = [];
  };
  sso = record {
    enabled = false;
    kysignon_issuer = "";
    kysignon_client_id = "";
    kysignon_secret = "";
    kysignon_hmac_secret = "";
    generic_oidc_issuer = "";
    generic_oidc_client_id = "";
    generic_oidc_secret = "";
    saml_entity_id = "";
    saml_metadata_url = "";
    auto_provision = true;
  };
  scim = record { enabled = false; bearer_token = ""; allow_admin = false };
  backup = record { dir = ""; keep = pos 7; deposit_interval = 0; allow_private_recovery = false };
  captcha = record { provider = "pow"; site_key = ""; secret_key = ""; difficulty_pow = pos 1 };
}
