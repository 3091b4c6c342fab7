-- ===== src/Store/Samples.antt =====
-- Concrete tables of internal/store for the tests.
use ky_server_base.Prelude.{
  ℕ, ◌≤◌, String, subst, inl, inr, true, false, none, some, [], ◌∷◌, arith, ◌==◌, eq_iff,
  if◌then◌else◌, Bool-cases, if_both,
}
use ky_server_base.Sql.{count_where}
use ky_server_base.Store.Models.{User, Session, Db, Backend}
use ky_server_base.Store.Tx.{Io}
use ky_server_base.Store.Users.{has_id}
use ky_server_base.Store.Users.Names.{IsKeyed}

abbrev pub quiet : Io
quiet _ = false

abbrev pub sqlite : Backend
sqlite = record {
  like = λ _ _. true;
  leq = λ _ _. true;
  lower = λ s. if s == "ALICE" then "alice" else s;
  is_postgres = false;
}

abbrev pub alice : User
alice = record {
  id = "u1";
  username = "alice";
  email = "alice@example.org";
  display_name = "Alice";
  password_hash = "h1";
  role = "admin";
  status = "active";
  sso_provider = "local";
  sso_subject = "";
  scim_managed = false;
  push_device_id = "";
  must_change_password = false;
  created_at = 5;
  updated_at = 5;
  last_login_at = none;
}

abbrev pub bob : User
bob = record {
  id = "u2";
  username = "bob";
  email = "bob@example.org";
  display_name = "Bob";
  password_hash = "h2";
  role = "user";
  status = "active";
  sso_provider = "kysignon";
  sso_subject = "s2";
  scim_managed = true;
  push_device_id = "";
  must_change_password = false;
  created_at = 6;
  updated_at = 6;
  last_login_at = some 7;
}

abbrev pub sess_of : String → String → String → Session
sess_of token user_id sid = record {
  token_hash = token;
  user_id = user_id;
  user_agent = "";
  ip_address = "";
  created_at = 10;
  expires_at = 1000;
  sso_sid = sid;
}

abbrev pub two : Db
two = record {
  users = alice ∷ bob ∷ [];
  sessions = sess_of "t1" "u1" "" ∷ sess_of "t2" "u2" "sid2" ∷ [];
  groups = [];
  group_members = [];
  audit_records = [];
  server_settings = [];
  sso_logouts = [];
  sso_subject_logouts = [];
  username_index = true;
}

pub two-IsKeyed : IsKeyed two.users
unfolding count_where
two-IsKeyed id = elim (Bool-cases ("u1" == id)) [
  | inl h ↦
      subst (λ (x : String). count_where (has_id x) two.users ≤ 1) ((eq_iff "u1" id).0 h)
        (omega arith)
  | inr h ↦ rw h (if_both (λ (n : ℕ). n ≤ 1) ("u2" == id) (omega arith) (omega arith))
]
