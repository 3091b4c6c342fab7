-- ===== src/Sso/Tests.antt =====
-- The theorems on sign-in through KyIdentity at concrete tables (internal/sso,
-- internal/api/sso_handlers.go).
use Prim.Native.String.{◌++◌ as ◌^^◌}
use ky_server_base.Prelude.Int.{pos}
use ky_server_base.Auth.Session.{Request, SetCookie}
use ky_server_base.Sso.Tokens.{
  IdentityClaims, IdToken, LogoutToken, Flow, verified, absent, exchange, verify_logout,
}
use ky_server_base.Sso.Tokens.Disjoint.{exchange-verify_logout}
use ky_server_base.Sso.Callback.{CallbackEnv, CallbackCall}
use ky_server_base.Prelude.{String, refl, ◌≢◌, Bool, true, none, some, [], ◌∷◌, arith}
use ky_server_base.Store.Models.{Db}
use ky_server_base.Store.Samples.{quiet, sqlite, bob, two}

-- Bob as SCIM created him, before his first sign-in.
abbrev provisioned : Db
provisioned = record two { users = record bob { sso_provider = "scim" } ∷ [] }

-- The ID token of Bob's sign-in, which makes him an administrator.
abbrev bob_claims : IdentityClaims
bob_claims = record {
  subject = "s2";
  email = "bob@example.org";
  name = "Bob";
  preferred_username = "bob";
  role = "admin";
  roles = none;
  session_id = "sid9";
  issued_at = 50;
}

abbrev env : CallbackEnv
env = record {
  backend = sqlite;
  security = record {
    session_ttl = pos 100;
    host_cookies = true;
    cookie_secure = true;
    cookie_domain = "";
  };
  auto_provision = true;
  sha256_hex = λ s. s;
  exchange = λ _ _ _. verified bob_claims;
}

abbrev call : CallbackCall
call = record {
  find_io = quiet;
  adopt_read_io = quiet;
  adopt_link_io = quiet;
  adopt_again_io = quiet;
  create_io = quiet;
  role_io = quiet;
  issue_io = quiet;
  audit_io = quiet;
  now = 60;
  later = 60;
  before_adopt = λ db. db;
  before_link = λ db. db;
  before_create = λ db. db;
  before_role = λ db. db;
  before_issue = λ db. db;
  drawn_id = "u9";
  drawn = record { raw_token = "tok"; csrf_token = "csrf" };
  agent = "";
  ip = "";
}

abbrev request : Request
request = record {
  method = "GET";
  path = "/api/sso/kysignon/callback";
  headers = [];
  cookies = ("__Host-ky_pkce_st", "v") ∷ ("__Host-ky_nonce_st", "n") ∷ [];
}

abbrev set : String → String → Bool → SetCookie
set name value http_only = record {
  name = name;
  value = value;
  expires = 160;
  http_only = http_only;
  secure = true;
  domain = "";
}

abbrev id_token : IdToken
id_token = record {
  nonce = "n";
  issued_at = 50;
  claims = some (record {
    sub = "s2";
    sid = "sid9";
    email = "";
    name = "";
    preferred_username = "";
    role = "";
    roles = absent;
  });
}

abbrev flow : Flow
flow = record { issuer = "https://id.example"; client_id = "app"; is_reachable = true }

abbrev logout_token : LogoutToken
logout_token = record { sub = "s2"; sid = "sid9"; iat = 60; has_nonce = true; has_event = true }

exchange-verify_logout_example :
    verify_logout flow (λ _. some (some logout_token)) (λ _. some "logout+jwt") "raw"
    ≢ verified (record { subject = "s2"; session_id = "sid9"; issued_at = 60 })
unfolding exchange
exchange-verify_logout_example =
    exchange-verify_logout flow flow (λ _ _. some (some "raw")) (λ _. some id_token)
      (λ _. some (some logout_token)) (λ _. some "logout+jwt") "code" "v" "n" "raw"
      (record {
        subject = "s2";
        email = "";
        name = "";
        preferred_username = "s2";
        role = "";
        roles = none;
        session_id = "sid9";
        issued_at = 50;
      })
      (record { subject = "s2"; session_id = "sid9"; issued_at = 60 })
      (λ s t token decoded read blank. absurd (ground arith)) refl refl
