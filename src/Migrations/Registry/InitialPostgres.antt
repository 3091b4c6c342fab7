-- ===== src/Migrations/Registry/InitialPostgres.antt =====
-- Migration 1 of internal/store/migrations/migrations.go for PostgreSQL.
use ky_server_base.Prelude.{true, List, [], ◌∷◌}
use ky_server_base.Migrations.Schema.{
  primary_key, not_null, unique, default, references, col, Statement, create_table, create_index,
}

abbrev pub initial_schema_postgres : List Statement
initial_schema_postgres =
    create_table true "users"
      ((col "id" "VARCHAR(64)" (primary_key ∷ []))
        ∷ (col "username" "VARCHAR(128)" (not_null ∷ unique ∷ []))
        ∷ (col "email" "VARCHAR(255)" (not_null ∷ default "" ∷ []))
        ∷ (col "display_name" "VARCHAR(255)" (not_null ∷ default "" ∷ []))
        ∷ (col "password_hash" "TEXT" (not_null ∷ default "" ∷ []))
        ∷ (col "role" "VARCHAR(32)" (not_null ∷ default "user" ∷ []))
        ∷ (col "status" "VARCHAR(32)" (not_null ∷ default "active" ∷ []))
        ∷ (col "sso_provider" "VARCHAR(32)" (not_null ∷ default "local" ∷ []))
        ∷ (col "sso_subject" "VARCHAR(255)" (not_null ∷ default "" ∷ []))
        ∷ (col "totp_secret_enc" "TEXT" (not_null ∷ default "" ∷ []))
        ∷ (col "totp_enabled" "BOOLEAN" (not_null ∷ default "FALSE" ∷ []))
        ∷ (col "recovery_codes_hash" "TEXT" (not_null ∷ default "[]" ∷ []))
        ∷ (col "push_device_id" "VARCHAR(255)" (not_null ∷ default "" ∷ []))
        ∷ (col "must_change_password" "BOOLEAN" (not_null ∷ default "FALSE" ∷ []))
        ∷ (col "created_at" "TIMESTAMPTZ" (not_null ∷ []))
        ∷ (col "updated_at" "TIMESTAMPTZ" (not_null ∷ []))
        ∷ (col "last_login_at" "TIMESTAMPTZ" [])
        ∷ [])
      []
    ∷ create_index true "idx_users_username" "users" ("username" ∷ [])
    ∷ create_index true "idx_users_email" "users" ("email" ∷ [])
    ∷ create_index true "idx_users_sso" "users" ("sso_provider" ∷ "sso_subject" ∷ [])
    ∷ create_table true "sessions"
        ((col "token_hash" "VARCHAR(64)" (primary_key ∷ []))
          ∷ (col "user_id" "VARCHAR(64)" (not_null ∷ references "users" ∷ []))
          ∷ (col "user_agent" "TEXT" (not_null ∷ default "" ∷ []))
          ∷ (col "ip_address" "VARCHAR(64)" (not_null ∷ default "" ∷ []))
          ∷ (col "created_at" "TIMESTAMPTZ" (not_null ∷ []))
          ∷ (col "expires_at" "TIMESTAMPTZ" (not_null ∷ []))
          ∷ [])
        []
    ∷ create_index true "idx_sessions_user_id" "sessions" ("user_id" ∷ [])
    ∷ create_index true "idx_sessions_expires_at" "sessions" ("expires_at" ∷ [])
    ∷ create_table true "device_pairings"
        ((col "secret" "VARCHAR(64)" (primary_key ∷ []))
          ∷ (col "code" "VARCHAR(16)" (not_null ∷ unique ∷ []))
          ∷ (col "user_id" "VARCHAR(64)" (not_null ∷ default "" ∷ []))
          ∷ (col "device_name" "VARCHAR(255)" (not_null ∷ default "" ∷ []))
          ∷ (col "platform" "VARCHAR(32)" (not_null ∷ default "" ∷ []))
          ∷ (col "push_token" "TEXT" (not_null ∷ default "" ∷ []))
          ∷ (col "status" "VARCHAR(32)" (not_null ∷ default "pending" ∷ []))
          ∷ (col "created_at" "TIMESTAMPTZ" (not_null ∷ []))
          ∷ (col "expires_at" "TIMESTAMPTZ" (not_null ∷ []))
          ∷ [])
        []
    ∷ create_index true "idx_pairings_code" "device_pairings" ("code" ∷ [])
    ∷ create_index true "idx_pairings_expires" "device_pairings" ("expires_at" ∷ [])
    ∷ create_table true "groups"
        ((col "id" "VARCHAR(64)" (primary_key ∷ []))
          ∷ (col "display_name" "VARCHAR(255)" (not_null ∷ unique ∷ []))
          ∷ (col "external_id" "VARCHAR(255)" (not_null ∷ default "" ∷ []))
          ∷ (col "created_at" "TIMESTAMPTZ" (not_null ∷ []))
          ∷ (col "updated_at" "TIMESTAMPTZ" (not_null ∷ []))
          ∷ [])
        []
    ∷ create_table true "group_members"
        ((col "group_id" "VARCHAR(64)" (not_null ∷ references "groups" ∷ []))
          ∷ (col "user_id" "VARCHAR(64)" (not_null ∷ references "users" ∷ []))
          ∷ [])
        ("group_id" ∷ "user_id" ∷ [])
    ∷ create_table true "audit_records"
        ((col "id" "BIGSERIAL" (primary_key ∷ []))
          ∷ (col "user_id" "VARCHAR(64)" (not_null ∷ default "" ∷ []))
          ∷ (col "action" "VARCHAR(64)" (not_null ∷ []))
          ∷ (col "resource" "VARCHAR(255)" (not_null ∷ default "" ∷ []))
          ∷ (col "details" "TEXT" (not_null ∷ default "" ∷ []))
          ∷ (col "ip_address" "VARCHAR(64)" (not_null ∷ default "" ∷ []))
          ∷ (col "created_at" "TIMESTAMPTZ" (not_null ∷ []))
          ∷ [])
        []
    ∷ create_index true "idx_audit_user_created" "audit_records" ("user_id" ∷ "created_at" ∷ [])
    ∷ create_table true "server_settings"
        ((col "key" "VARCHAR(128)" (primary_key ∷ []))
          ∷ (col "value" "TEXT" (not_null ∷ default "" ∷ []))
          ∷ (col "updated_at" "TIMESTAMPTZ" (not_null ∷ []))
          ∷ [])
        []
    ∷ []
