-- ===== src/Auth/Tests.antt =====
-- The theorems on the puzzle and on sessions at concrete requests (internal/auth).
use Prim.Native.String.{◌++◌ as ◌^^◌}
use ky_server_base.Prelude.{
  String, ◌≡◌, refl, ◌≢◌, Bool, true, false, none, some, List, [], ◌∷◌, arith, ◌==◌, eq_iff, ltb,
  if◌then◌else◌,
}
use ky_server_base.Prelude.Int.{ℤ, pos, negsuc}
use ky_server_base.Dict.{lookup, insert}
use ky_server_base.Sql.{find_where}
use ky_server_base.Store.Samples.{quiet, alice, two, sess_of}
use ky_server_base.Store.Users.{get_user_by_id}
use ky_server_base.Store.Sessions.{get_session}
use ky_server_base.Auth.Pow.{
  PowEnv, PowSolution, PowSpent, new_spent, generate, verify, well_formed, proves,
}
use ky_server_base.Auth.Pow.Spent.{spends}
use ky_server_base.Auth.Pow.Verify.{generate-verify, verify_once, verify_replayed_at_expiry}
use ky_server_base.Auth.ClientIp.{Net, client_ip, peer_ip, parse_forwarded_entry, is_trusted}
use ky_server_base.Config.Texts.{split_commas}
use ky_server_base.Auth.ClientIp.Chain.{client_ip-rightmost}
use ky_server_base.Auth.Session.{Request, AuthCalls, authenticate}
use ky_server_base.Auth.Session.Granted.{Evidence, authenticate-Evidence}

abbrev nonempty : String → String
nonempty s = if s == "" then "0" else s

pub nonempty-lem : (s : String) → nonempty s ≢ ""
nonempty-lem s e = ground (arith, eq_iff s "", eq_iff "0" "")

abbrev digit : ℤ → String
digit (pos n) = if ltb n 5 then "less" else if ltb 5 n then "more" else "5"
digit (negsuc n) = "less"

-- A server whose digest of a text is the text, and that reads one solution from the text "sent".
abbrev server : PowSolution → PowEnv
server sol = record {
  sha256_hex = nonempty;
  hmac_sha256 = λ s key. nonempty (s ^^ key);
  itoa = digit;
  decode = λ s. if s == "sent" then some sol else none;
}

-- The puzzle of second 100, with the number 5.
abbrev sol : PowSolution
sol = record {
  algorithm = "SHA-256";
  salt = "salt";
  challenge = "salt5";
  number = pos 5;
  max_number = pos 9;
  expires_at = pos 400;
  signature = "salt:salt5:more:moresecret";
}

abbrev env : PowEnv
env = server sol

abbrev used : PowSpent
used = record { salts = ("salt", pos 400) ∷ []; prune_at = 1024 }

-- A set that holds the salt of another puzzle.
abbrev others_spent : PowSpent
others_spent = record { salts = ("other", pos 500) ∷ []; prune_at = 1024 }

generate-verify_example :
    (q : PowSpent) × (verify env 200 200 "sent" "secret" (some others_spent) ≡ (true, some q))
    × (lookup "salt" q.salts ≡ some (pos 400))
unfolding generate lookup
generate-verify_example =
    generate-verify env (pos 9) "secret" "salt" "sent" 4 100 200 200 others_spent nonempty-lem
      (λ x key. nonempty-lem (x ^^ key)) (λ e. ground (arith, eq_iff "salt" "", e)) refl
      (omega arith) refl refl

-- It is sent again in second 300, after another puzzle was solved.
verify_once_example :
    (verify env 300 300 "sent" "secret" (some (spends ((250, "other", pos 500) ∷ []) used))).0
    ≡ false
unfolding verify lookup insert
verify_once_example =
    verify_once env 200 200 300 "sent" "secret" new_spent used ((250, "other", pos 500) ∷ []) tt
      refl refl (omega arith, tt)

-- The last second of its life passes between the two readings.
verify_replayed_at_expiry_example : (verify env 400 401 "sent" "secret" (some used)).0 ≡ true
unfolding well_formed proves lookup
verify_replayed_at_expiry_example =
    verify_replayed_at_expiry env 400 401 "sent" "secret" used sol refl refl refl refl

abbrev request : Request
request = record {
  method = "GET";
  path = "/api/users";
  headers = ("Authorization", "Bearer t1") ∷ [];
  cookies = [];
}

abbrev steady : AuthCalls
steady = record {
  first_io = quiet;
  first_now = 50;
  user_io = quiet;
  drop_io = quiet;
  recheck_io = quiet;
  recheck_now = 51;
  before_user = λ db. db;
  before_recheck = λ db. db;
}

authenticate-Evidence_example :
    Evidence (λ s. s) true steady request two alice (sess_of "t1" "u1" "")
unfolding authenticate get_session get_user_by_id find_where
authenticate-Evidence_example =
    authenticate-Evidence (λ s. s) true steady request two alice (sess_of "t1" "u1" "") refl

-- Addresses that are texts; a /64 is the text "block".
abbrev net : Net String
net = record {
  parse_addr = λ s. if s == "" then none else some s;
  unmap = λ s. s;
  print = λ s. s;
  split_host = λ s. if s == "10.0.0.1:443" then some "10.0.0.1" else none;
  trim_brackets = λ s. s;
  trim_space = λ s. if s == " 9.9.9.9" then "9.9.9.9" else s;
  is_plain_v6 = λ _. false;
  block = λ _. "block";
}

abbrev proxies : List (String → Bool)
proxies = (λ s. s == "10.0.0.1") ∷ (λ s. s == "10.0.0.2") ∷ []

-- The client 9.9.9.9 claims to be 1.1.1.1; the proxies add a part to its line and a line.
client_ip-rightmost_example :
    client_ip net "10.0.0.1:443" proxies ("1.1.1.1, 9.9.9.9" ∷ "10.0.0.2" ∷ []) ≡ "9.9.9.9"
unfolding peer_ip parse_forwarded_entry is_trusted split_commas
client_ip-rightmost_example =
    client_ip-rightmost net proxies "10.0.0.1:443" " 9.9.9.9" ("1.1.1.1, 9.9.9.9" ∷ "10.0.0.2" ∷ [])
      ("1.1.1.1" ∷ []) ("10.0.0.2" ∷ []) "10.0.0.1" "9.9.9.9" refl refl refl
      (("10.0.0.2", refl, refl), tt) refl refl
