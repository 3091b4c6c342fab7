-- ===== src/Api/PasswordTests.antt =====
-- The theorem on handleChangePassword at a concrete request (internal/api/password_handlers.go).
use Prim.Native.String.{len}
use ky_server_base.Prelude.{String, ◌≡◌, refl, Bool, true, false, ◌&&◌, some, [], ◌∷◌, ◌==◌}
use ky_server_base.Prelude.Int.{pos}
use ky_server_base.Dict.{lookup, insert}
use ky_server_base.Sql.{find_where, count_where, update_where, delete_where}
use ky_server_base.Store.Models.{User, Session}
use ky_server_base.Store.Tx.{transaction}
use ky_server_base.Store.Samples.{quiet, two}
use ky_server_base.Store.Users.{get_user_by_id}
use ky_server_base.Store.Sessions.{get_session, complete_password_change}
use ky_server_base.Auth.Session.{Request, AuthCalls, SetCookie, authenticate, cookie_name}
use ky_server_base.Auth.Session.Granted.{Evidence}
use ky_server_base.Api.Limiter.{allow_attempt, attempts_cap}
use ky_server_base.Api.Password.{ChangeRequest, PasswordEnv, ChangeCall, change_password}
use ky_server_base.Api.Password.Changed.{Change, change_password-Change}

-- The hash of "old password 1" is "h1".
abbrev env : PasswordEnv
env = record {
  security = record {
    session_ttl = pos 600;
    host_cookies = true;
    cookie_secure = true;
    cookie_domain = "";
  };
  sha256_hex = λ s. s;
  byte_length = len;
  trim_space = λ s. s;
  verify_password = λ word hash. (word == "old password 1" && hash == "h1", false);
  hash_password = λ word. some word;
}

abbrev request : Request
request = record {
  method = "POST";
  path = "/api/auth/change-password";
  headers = [];
  cookies = ("__Host-ky_session", "t1") ∷ [];
}

abbrev steady : AuthCalls
steady = record {
  first_io = quiet;
  first_now = 50;
  user_io = quiet;
  drop_io = quiet;
  recheck_io = quiet;
  recheck_now = 50;
  before_user = λ db. db;
  before_recheck = λ db. db;
}

abbrev call : ChangeCall
call = record {
  auth = steady;
  now = 51;
  victim = 0;
  user_victim = 0;
  change_io = quiet;
  revoke_io = quiet;
  limiter_ip = "10.0.0.9";
  request_ip = "10.0.0.9";
  meanwhile = λ db. db;
}

abbrev wanted : ChangeRequest
wanted = record { current_password = "old password 1"; new_password = "new password 2" }

abbrev emptied : String → Bool → SetCookie
emptied name http_only = record {
  name = name;
  value = "";
  expires = 0;
  http_only = http_only;
  secure = true;
  domain = "";
}

change_password-Change_example :
    (u : User) × (s : Session) × Evidence (λ s. s) true steady request two u s
    × ((u.sso_provider == "local") ≡ true)
    × Change env call wanted u
        (authenticate (λ s. s) true steady request two).1
        (change_password env call request (some wanted) [] two).2
unfolding change_password get_session get_user_by_id find_where allow_attempt attempts_cap lookup
    insert complete_password_change transaction count_where update_where delete_where cookie_name
change_password-Change_example =
    change_password-Change env call request wanted [] two
      (emptied "__Host-ky_session" true ∷ emptied "__Host-ky_csrf" false ∷ []) refl
