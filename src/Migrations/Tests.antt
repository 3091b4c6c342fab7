-- ===== src/Migrations/Tests.antt =====
-- The theorems on internal/store/migrations/migrations.go at concrete databases.
use ky_server_base.Prelude.{String, ◌≡◌, false, List, [], ◌∷◌, leb}
use ky_server_base.Store.Samples.{quiet, sqlite, two}
use ky_server_base.Migrations.Schema.{Schema, Table, Row, not_null, default, col}
use ky_server_base.Migrations.Run.{Faults, exec_ddl, run}
use ky_server_base.Migrations.Resume.{no_faults, run-resumes}
use ky_server_base.Migrations.Upgrade.{no_database}
use ky_server_base.Migrations.Names.{ensure_username_index}
use ky_server_base.Migrations.Names.Indexed.{IsEnsured, ensure_username_index-IsEnsured}

-- The SQL of the first migration fails.
abbrev broken : Faults
broken (exec_ddl n) = leb n 1
broken _ = false

run-resumes_example :
    run no_faults "postgres" (run broken "postgres" no_database).1
    ≡ run no_faults "postgres" no_database
run-resumes_example = run-resumes broken "postgres" no_database

abbrev accounts : Table
accounts = record {
  name = "users";
  columns = col "id" "TEXT" [] ∷ col "sso_provider" "TEXT" [] ∷ [];
  key = [];
  rows =
      (("id", "u1") ∷ ("sso_provider", "local") ∷ [])
      ∷ (("id", "u2") ∷ ("sso_provider", "kysignon") ∷ [])
      ∷ [];
}

abbrev session_row : String → String → Row
session_row token id = ("token_hash", token) ∷ ("user_id", id) ∷ ("sso_sid", "") ∷ []

abbrev sessions : List Row → Table
sessions rows = record {
  name = "sessions";
  columns = col "token_hash" "TEXT" [] ∷ col "user_id" "TEXT" [] ∷ col "sso_sid" "TEXT" [] ∷ [];
  key = [];
  rows = rows;
}

abbrev before : Schema
before = record {
  tables =
      accounts
      ∷ sessions (session_row "t1" "u1" ∷ session_row "t2" "u2" ∷ [])
      ∷ record { name = "device_pairings"; columns = []; key = []; rows = [] }
      ∷ [];
  indexes = [];
}

-- Only the session of the local account is left.
abbrev after : Schema
after = record {
  tables =
      accounts
      ∷ sessions (session_row "t1" "u1" ∷ [])
      ∷ record {
        name = "device_pairings";
        columns = col "sso_sid" "TEXT" (not_null ∷ default "" ∷ []) ∷ [];
        key = [];
        rows = [];
      }
      ∷ [];
  indexes = [];
}

ensure_username_index-IsEnsured_example :
    IsEnsured sqlite two (ensure_username_index sqlite (λ s. s) quiet two)
ensure_username_index-IsEnsured_example = ensure_username_index-IsEnsured sqlite (λ s. s) quiet two
