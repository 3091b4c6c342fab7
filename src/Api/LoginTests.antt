-- ===== src/Api/LoginTests.antt =====
-- The theorems on handleLogin at concrete requests (internal/api/auth_handlers.go).
use ky_server_base.Prelude.{String, refl, Bool, true, false, ◌&&◌, none, [], ◌∷◌, ◌==◌}
use ky_server_base.Prelude.Int.{pos}
use ky_server_base.Dict.{lookup, insert}
use ky_server_base.Sql.{find_where, count_where, any}
use ky_server_base.Store.Samples.{quiet, sqlite, alice, two}
use ky_server_base.Store.Tx.{transaction}
use ky_server_base.Store.Users.{get_user_by_username}
use ky_server_base.Store.Sessions.{create_session}
use ky_server_base.Auth.Pow.{new_spent}
use ky_server_base.Auth.Session.{cookie_name, SetCookie, issue}
use ky_server_base.Api.Limiter.{attempts_cap, allow_attempt, attempts_exhausted}
use ky_server_base.Api.Login.{
  LoginRequest, State, LoginEnv, LoginCall, login, try_account, check_password,
}
use ky_server_base.Api.Login.Grant.{Grant, login-Grant}

-- A password is known by its hash: the hash of "pw" is "h1".
abbrev env : LoginEnv
env = record {
  pow = record { sha256_hex = λ s. s; hmac_sha256 = λ s _. s; itoa = λ _. ""; decode = λ _. none };
  backend = sqlite;
  security = record {
    session_ttl = pos 600;
    host_cookies = true;
    cookie_secure = true;
    cookie_domain = "";
  };
  session_secret = "secret";
  wants_pow = false;
  sha256_hex = λ s. s;
  to_lower = λ s. s;
  trim_space = λ s. s;
  verify_password = λ word hash. (word == "pw" && hash == "h1", false);
}

abbrev request : LoginCall
request = record {
  now = 50;
  later = 51;
  victim = 0;
  last_victim = 0;
  read_io = quiet;
  issue_io = quiet;
  audit_io = quiet;
  drawn = record { raw_token = "r9"; csrf_token = "c9" };
  agent = "";
  ip = "10.0.0.9";
  meanwhile = λ db. db;
}

abbrev idle : State
idle = record { attempts = []; spent = new_spent; db = two }

abbrev good : LoginRequest
good = record { username = "alice"; password = "pw"; captcha_token = "" }

abbrev set : String → String → Bool → SetCookie
set name value http_only = record {
  name = name;
  value = value;
  expires = 651;
  http_only = http_only;
  secure = true;
  domain = "";
}

login-Grant_example : Grant env request "10.0.0.9" good idle alice
unfolding login allow_attempt attempts_cap attempts_exhausted lookup insert try_account
    get_user_by_username find_where check_password issue create_session transaction count_where any
    cookie_name
login-Grant_example =
    login-Grant env request "POST" "10.0.0.9" good idle alice
      (set "__Host-ky_session" "r9" true ∷ set "__Host-ky_csrf" "c9" false ∷ []) refl
