-- ===== src/Migrations/Upgrade.antt =====
-- Every earlier release's database is brought to the tables that the store reads
-- (internal/store/migrations/migrations.go, internal/store/sqlstore.go).
use ky_server_base.Prelude.{ℕ, String, ◌≡◌, Bool, List, [], ◌∷◌, take}
use ky_server_base.Migrations.Schema.{Table, Column}
use ky_server_base.Migrations.Registry.{registry}
use ky_server_base.Migrations.Run.{MigratedDb, run_all}
use ky_server_base.Migrations.Resume.{no_faults}
use ky_server_base.Migrations.Erase.{erase_db}

-- The tables and the columns that sqlstore.go names, and two tables that it names no more.
abbrev pub store_layout : List (String × List String)
store_layout =
    (
      "users",
      "id" ∷ "username" ∷ "email" ∷ "display_name" ∷ "password_hash" ∷ "role" ∷ "status"
          ∷ "sso_provider" ∷ "sso_subject" ∷ "totp_secret_enc" ∷ "totp_enabled"
          ∷ "recovery_codes_hash" ∷ "push_device_id" ∷ "must_change_password" ∷ "created_at"
          ∷ "updated_at" ∷ "last_login_at" ∷ "totp_last_counter" ∷ "scim_managed" ∷ [],
    )
    ∷ (
      "sessions",
      "token_hash" ∷ "user_id" ∷ "user_agent" ∷ "ip_address" ∷ "created_at" ∷ "expires_at"
          ∷ "sso_sid" ∷ [],
    )
    ∷ ("groups", "id" ∷ "display_name" ∷ "external_id" ∷ "created_at" ∷ "updated_at" ∷ [])
    ∷ ("group_members", "group_id" ∷ "user_id" ∷ [])
    ∷ (
      "audit_records",
      "id" ∷ "user_id" ∷ "action" ∷ "resource" ∷ "details" ∷ "ip_address" ∷ "created_at" ∷ [],
    )
    ∷ ("server_settings", "key" ∷ "value" ∷ "updated_at" ∷ [])
    ∷ ("mfa_challenges", "token_hash" ∷ "user_id" ∷ "expires_at" ∷ "password_hash" ∷ [])
    ∷ ("sso_logouts", "sid" ∷ "expires_at" ∷ [])
    ∷ ("sso_subject_logouts", "provider" ∷ "subject" ∷ "cutoff" ∷ "expires_at" ∷ [])
    ∷ ("sso_directory_events", "provider" ∷ "subject" ∷ "last_timestamp" ∷ [])
    ∷ []

abbrev pub column_names : List Column → List String
column_names [] = []
column_names (c ∷ cs) = c.name ∷ column_names cs

abbrev pub layout : List Table → List (String × List String)
layout [] = []
layout (t ∷ ts) = (t.name, column_names t.columns) ∷ layout ts

abbrev pub no_database : MigratedDb
no_database = record { schema = record { tables = []; indexes = [] }; applied = [] }

-- The shape of a database that the first migrations made, before the others were written.
unfoldable pub release : Bool → ℕ → MigratedDb
release postgres n = (run_all no_faults postgres (take n registry) no_database).1

-- A database whose shape is that of some release; the rows are any.
abbrev pub IsRelease : Bool → ℕ → MigratedDb → Type 0
IsRelease postgres n db = erase_db db ≡ release postgres n
