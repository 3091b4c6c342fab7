-- ===== src/Migrations/Registry/InitialSqlite.antt =====
-- Migration 1 of internal/store/migrations/migrations.go for SQLite.
use ky_server_base.Prelude.{true, List, [], ◌∷◌}
use ky_server_base.Migrations.Schema.{
  primary_key, auto_increment, not_null, unique, default, references, col, Statement, create_table,
  create_index,
}

abbrev pub initial_schema_sqlite : List Statement
initial_schema_sqlite =
    create_table true "users"
      ((col "id" "TEXT" (primary_key ∷ []))
        ∷ (col "username" "TEXT" (not_null ∷ unique ∷ []))
        ∷ (col "email" "TEXT" (not_null ∷ default "" ∷ []))
        ∷ (col "display_name" "TEXT" (not_null ∷ default "" ∷ []))
        ∷ (col "password_hash" "TEXT" (not_null ∷ default "" ∷ []))
        ∷ (col "role" "TEXT" (not_null ∷ default "user" ∷ []))
        ∷ (col "status" "TEXT" (not_null ∷ default "active" ∷ []))
        ∷ (col "sso_provider" "TEXT" (not_null ∷ default "local" ∷ []))
        ∷ (col "sso_subject" "TEXT" (not_null ∷ default "" ∷ []))
        ∷ (col "totp_secret_enc" "TEXT" (not_null ∷ default "" ∷ []))
        ∷ (col "totp_enabled" "INTEGER" (not_null ∷ default "0" ∷ []))
        ∷ (col "recovery_codes_hash" "TEXT" (not_null ∷ default "[]" ∷ []))
        ∷ (col "push_device_id" "TEXT" (not_null ∷ default "" ∷ []))
        ∷ (col "must_change_password" "INTEGER" (not_null ∷ default "0" ∷ []))
        ∷ (col "created_at" "DATETIME" (not_null ∷ []))
        ∷ (col "updated_at" "DATETIME" (not_null ∷ []))
        ∷ (col "last_login_at" "DATETIME" [])
        ∷ [])
      []
    ∷ create_index true "idx_users_username" "users" ("username" ∷ [])
    ∷ create_index true "idx_users_email" "users" ("email" ∷ [])
    ∷ create_index true "idx_users_sso" "users" ("sso_provider" ∷ "sso_subject" ∷ [])
    ∷ create_table true "sessions"
        ((col "token_hash" "TEXT" (primary_key ∷ []))
          ∷ (col "user_id" "TEXT" (not_null ∷ references "users" ∷ []))
          ∷ (col "user_agent" "TEXT" (not_null ∷ default "" ∷ []))
          ∷ (col "ip_address" "TEXT" (not_null ∷ default "" ∷ []))
          ∷ (col "created_at" "DATETIME" (not_null ∷ []))
          ∷ (col "expires_at" "DATETIME" (not_null ∷ []))
          ∷ [])
        []
    ∷ create_index true "idx_sessions_user_id" "sessions" ("user_id" ∷ [])
    ∷ create_index true "idx_sessions_expires_at" "sessions" ("expires_at" ∷ [])
    ∷ create_table true "device_pairings"
        ((col "secret" "TEXT" (primary_key ∷ []))
          ∷ (col "code" "TEXT" (not_null ∷ unique ∷ []))
          ∷ (col "user_id" "TEXT" (not_null ∷ default "" ∷ []))
          ∷ (col "device_name" "TEXT" (not_null ∷ default "" ∷ []))
          ∷ (col "platform" "TEXT" (not_null ∷ default "" ∷ []))
          ∷ (col "push_token" "TEXT" (not_null ∷ default "" ∷ []))
          ∷ (col "status" "TEXT" (not_null ∷ default "pending" ∷ []))
          ∷ (col "created_at" "DATETIME" (not_null ∷ []))
          ∷ (col "expires_at" "DATETIME" (not_null ∷ []))
          ∷ [])
        []
    ∷ create_index true "idx_pairings_code" "device_pairings" ("code" ∷ [])
    ∷ create_index true "idx_pairings_expires" "device_pairings" ("expires_at" ∷ [])
    ∷ create_table true "groups"
        ((col "id" "TEXT" (primary_key ∷ []))
          ∷ (col "display_name" "TEXT" (not_null ∷ unique ∷ []))
          ∷ (col "external_id" "TEXT" (not_null ∷ default "" ∷ []))
          ∷ (col "created_at" "DATETIME" (not_null ∷ []))
          ∷ (col "updated_at" "DATETIME" (not_null ∷ []))
          ∷ [])
        []
    ∷ create_table true "group_members"
        ((col "group_id" "TEXT" (not_null ∷ references "groups" ∷ []))
          ∷ (col "user_id" "TEXT" (not_null ∷ references "users" ∷ []))
          ∷ [])
        ("group_id" ∷ "user_id" ∷ [])
    ∷ create_table true "audit_records"
        ((col "id" "INTEGER" (primary_key ∷ auto_increment ∷ []))
          ∷ (col "user_id" "TEXT" (not_null ∷ default "" ∷ []))
          ∷ (col "action" "TEXT" (not_null ∷ []))
          ∷ (col "resource" "TEXT" (not_null ∷ default "" ∷ []))
          ∷ (col "details" "TEXT" (not_null ∷ default "" ∷ []))
          ∷ (col "ip_address" "TEXT" (not_null ∷ default "" ∷ []))
          ∷ (col "created_at" "DATETIME" (not_null ∷ []))
          ∷ [])
        []
    ∷ create_index true "idx_audit_user_created" "audit_records" ("user_id" ∷ "created_at" ∷ [])
    ∷ create_table true "server_settings"
        ((col "key" "TEXT" (primary_key ∷ []))
          ∷ (col "value" "TEXT" (not_null ∷ default "" ∷ []))
          ∷ (col "updated_at" "DATETIME" (not_null ∷ []))
          ∷ [])
        []
    ∷ []
