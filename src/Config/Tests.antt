-- ===== src/Config/Tests.antt =====
-- The theorems on internal/config/config.go at a production environment behind a TLS proxy.
use ky_server_base.Prelude.{
  All, ℕ, ◌≤◌, String, ◌≡◌, refl, Bool, true, false, Option, none, some, List, [], ◌∷◌, arith, ◌==◌,
  ltb, if◌then◌else◌, length,
}
use ky_server_base.Prelude.Int.{pos}
use ky_server_base.Config.Texts.{split_commas}
use ky_server_base.Config.Proxies.{Prefix, Netip, parse_trusted_proxies}
use ky_server_base.Config.Proxies.Narrow.{
  HasBits, MasksPlain, IsNarrow, count_fields, parse_trusted_proxies-IsNarrow,
}
use ky_server_base.Config.Values.{Config}
use ky_server_base.Config.Env.{Os, unset}
use ky_server_base.Config.Load.{load_from_env}
use ky_server_base.Config.Safe.{IsSafe, load_from_env-IsSafe}

abbrev variables : String → Option String
variables key =
    if key == "KY_ENV"
    then some "production"
    else if key == "KY_APP_URL"
    then some "https://base.example/"
    else if key == "KY_SESSION_SECRET"
    then some "0123456789abcdef"
    else if key == "KY_TRUSTED_PROXIES"
    then some "10.0.0.1,,::ffff:10.1.0.0/112"
    else none

abbrev production : Os
production = record {
  lookup_env = variables;
  trim_space = λ s. s;
  to_lower = λ s. s;
  atoi = λ _. none;
  parse_duration = λ _. none;
  print_int = λ _. "8080";
  join = λ _ file. file;
  key_from_env = unset;
  load_or_create = λ _. some "key";
  drawn_secret = "";
  drawn_token = "token";
}

-- Addresses of the three forms, by their texts.
data Address : Type 0 where
  v4 v6 mapped : String → Address

abbrev is_mapped : Address → Bool
is_mapped (mapped s) = true
is_mapped a = false

abbrev unmapped : Address → Address
unmapped (mapped s) = v4 s
unmapped a = a

abbrev bits_of : Address → ℕ
bits_of (v4 s) = 32
bits_of a = 128

-- ::ffff:1.2.3.4/80 masks to ::/80.
abbrev masked_of : Address → ℕ → Address
masked_of (mapped s) n = if ltb n 96 then v6 "::" else mapped s
masked_of a n = a

abbrev netip : Netip Address
netip = record {
  parse_addr = λ s. some (v4 s);
  parse_prefix = λ s. some (record { addr = mapped "10.1.0.0"; bits = 112 });
  is_4in6 = is_mapped;
  unmap = unmapped;
  bit_len = bits_of;
  masked = λ p. masked_of p.addr p.bits;
  trim_space = λ s. s;
}

netip-HasBits : HasBits netip
netip-HasBits s (v4 t) e = omega arith
netip-HasBits s (v6 t) e = omega arith
netip-HasBits s (mapped t) e = omega arith

unmapped-plain : (a : Address) → is_mapped (unmapped a) ≡ false
unmapped-plain (v4 s) = refl
unmapped-plain (v6 s) = refl
unmapped-plain (mapped s) = refl

masked_of-plain :
    (a : Address) (n : ℕ) → is_mapped (masked_of a n) ≡ true → (is_mapped a ≡ true) × (96 ≤ n)
masked_of-plain (v4 s) n e = absurd (cc e)
masked_of-plain (v6 s) n e = absurd (cc e)
masked_of-plain (mapped s) n e = (refl, ground arith)

netip-MasksPlain : MasksPlain netip
netip-MasksPlain p e = masked_of-plain p.addr p.bits e

abbrev proxies : List (Prefix Address)
proxies =
    record { addr = v4 "10.0.0.1"; bits = 32 } ∷ record { addr = v4 "10.1.0.0"; bits = 16 } ∷ []

parse_trusted_proxies-IsNarrow_example :
    (length proxies ≡ count_fields netip (split_commas "10.0.0.1,,::ffff:10.1.0.0/112"))
    × All (IsNarrow netip) proxies
unfolding parse_trusted_proxies
parse_trusted_proxies-IsNarrow_example =
    parse_trusted_proxies-IsNarrow netip netip-HasBits unmapped-plain netip-MasksPlain
      "10.0.0.1,,::ffff:10.1.0.0/112" proxies refl

abbrev loaded : Config Address
loaded = record {
  server = record {
    host = "0.0.0.0";
    port = pos 8080;
    app_url = "https://base.example";
    app_name = "Busnes.app";
    read_timeout = 15000000000;
    write_timeout = 15000000000;
    environment = "production";
  };
  database = record {
    driver = "sqlite";
    dsn =
        "./data/ky_server.db?_pragma=busy_timeout(5000)&_pragma=journal_mode(WAL)&_pragma=foreign_keys(ON)";
    data_dir = "./data";
    max_open_conns = pos 25;
    max_idle_conns = pos 5;
    conn_max_lifetime = 900000000000;
  };
  security = record {
    session_secret = "0123456789abcdef";
    encryption_key = "key";
    cookie_secure = true;
    cookie_domain = "";
    host_cookies = true;
    session_ttl = 604800000000000;
    trusted_proxies = proxies;
  };
  sso = record {
    enabled = true;
    kysignon_issuer = "";
    kysignon_client_id = "";
    kysignon_secret = "";
    kysignon_hmac_secret = "";
    generic_oidc_issuer = "";
    generic_oidc_client_id = "";
    generic_oidc_secret = "";
    saml_entity_id = "";
    saml_metadata_url = "";
    auto_provision = true;
  };
  scim = record { enabled = true; bearer_token = "token"; allow_admin = false };
  backup = record {
    dir = "";
    keep = pos 7;
    deposit_interval = 86400000000000;
    allow_private_recovery = false;
  };
  captcha = record {
    provider = "pow";
    site_key = "";
    secret_key = "";
    difficulty_pow = pos 500000;
  };
}

load_from_env-IsSafe_example : IsSafe production netip loaded
unfolding load_from_env
load_from_env-IsSafe_example = load_from_env-IsSafe production netip loaded refl
