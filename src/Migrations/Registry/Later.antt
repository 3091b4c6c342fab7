-- ===== src/Migrations/Registry/Later.antt =====
-- Migrations 2 to 10 of internal/store/migrations/migrations.go. A partial index is an index here.
use ky_server_base.Prelude.{
  String, Bool, true, false, List, [], ◌∷◌, not, ◌&&◌, ◌==◌, if◌then◌else◌, none, some,
}
use ky_server_base.Sql.{any}
use ky_server_base.Dict.{lookup}
use ky_server_base.Migrations.Schema.{
  primary_key, not_null, default, references, col, Statement, create_table, create_index,
  add_column, drop_table_if_exists, delete_rows, update_rows, Table, Row, is_table,
}

-- DELETE with no WHERE
abbrev pub every_row : List Table → Row → Bool
every_row tables r = true

abbrev pub value : String → Row → String
value name r = elim (lookup name r) [ none ↦ "" | some v ↦ v ]

abbrev pub rows_of : String → List Table → List Row
rows_of name [] = []
rows_of name (t ∷ ts) = if is_table name t then t.rows else rows_of name ts

-- user_id IN (SELECT id FROM users WHERE sso_provider <> 'local')
abbrev pub is_of_sso_user : List Table → Row → Bool
is_of_sso_user tables r =
    any (λ u. value "id" u == value "user_id" r && not (value "sso_provider" u == "local"))
      (rows_of "users" tables)

abbrev pub is_unreachable : List Table → Row → Bool
is_unreachable tables r = value "sso_sid" r == "" && is_of_sso_user tables r

abbrev pub is_of_scim : Row → Bool
is_of_scim r = value "sso_provider" r == "scim"

abbrev pub one_time_auth_challenges_sqlite : List Statement
one_time_auth_challenges_sqlite =
    create_table true "mfa_challenges"
      ((col "token_hash" "TEXT" (primary_key ∷ []))
        ∷ (col "user_id" "TEXT" (not_null ∷ references "users" ∷ []))
        ∷ (col "expires_at" "DATETIME" (not_null ∷ []))
        ∷ [])
      []
    ∷ create_index true "idx_mfa_challenges_expires" "mfa_challenges" ("expires_at" ∷ [])
    ∷ []

abbrev pub one_time_auth_challenges_postgres : List Statement
one_time_auth_challenges_postgres =
    create_table true "mfa_challenges"
      ((col "token_hash" "VARCHAR(64)" (primary_key ∷ []))
        ∷ (col "user_id" "VARCHAR(64)" (not_null ∷ references "users" ∷ []))
        ∷ (col "expires_at" "TIMESTAMPTZ" (not_null ∷ []))
        ∷ [])
      []
    ∷ create_index true "idx_mfa_challenges_expires" "mfa_challenges" ("expires_at" ∷ [])
    ∷ []

abbrev pub totp_last_counter_sqlite : List Statement
totp_last_counter_sqlite =
    add_column false "users" (col "totp_last_counter" "INTEGER" (not_null ∷ default "0" ∷ [])) ∷ []

abbrev pub totp_last_counter_postgres : List Statement
totp_last_counter_postgres =
    add_column true "users" (col "totp_last_counter" "BIGINT" (not_null ∷ default "0" ∷ [])) ∷ []

abbrev pub mfa_credential_snapshot_sqlite : List Statement
mfa_credential_snapshot_sqlite =
    delete_rows "mfa_challenges" every_row
    ∷ add_column false "mfa_challenges" (col "password_hash" "TEXT" (not_null ∷ default "" ∷ []))
    ∷ []

abbrev pub mfa_credential_snapshot_postgres : List Statement
mfa_credential_snapshot_postgres =
    delete_rows "mfa_challenges" every_row
    ∷ add_column false "mfa_challenges" (col "password_hash" "TEXT" (not_null ∷ default "" ∷ []))
    ∷ []

abbrev pub pairing_secret_only_sqlite : List Statement
pairing_secret_only_sqlite =
    drop_table_if_exists "device_pairings"
    ∷ create_table false "device_pairings"
        ((col "secret" "TEXT" (primary_key ∷ []))
          ∷ (col "user_id" "TEXT" (not_null ∷ default "" ∷ []))
          ∷ (col "device_name" "TEXT" (not_null ∷ default "" ∷ []))
          ∷ (col "platform" "TEXT" (not_null ∷ default "" ∷ []))
          ∷ (col "push_token" "TEXT" (not_null ∷ default "" ∷ []))
          ∷ (col "status" "TEXT" (not_null ∷ default "pending" ∷ []))
          ∷ (col "created_at" "DATETIME" (not_null ∷ []))
          ∷ (col "expires_at" "DATETIME" (not_null ∷ []))
          ∷ (col "authenticated_at" "DATETIME" (not_null ∷ []))
          ∷ [])
        []
    ∷ create_index false "idx_pairings_expires" "device_pairings" ("expires_at" ∷ [])
    ∷ []

abbrev pub pairing_secret_only_postgres : List Statement
pairing_secret_only_postgres =
    drop_table_if_exists "device_pairings"
    ∷ create_table false "device_pairings"
        ((col "secret" "VARCHAR(64)" (primary_key ∷ []))
          ∷ (col "user_id" "VARCHAR(64)" (not_null ∷ default "" ∷ []))
          ∷ (col "device_name" "VARCHAR(255)" (not_null ∷ default "" ∷ []))
          ∷ (col "platform" "VARCHAR(32)" (not_null ∷ default "" ∷ []))
          ∷ (col "push_token" "TEXT" (not_null ∷ default "" ∷ []))
          ∷ (col "status" "VARCHAR(32)" (not_null ∷ default "pending" ∷ []))
          ∷ (col "created_at" "TIMESTAMPTZ" (not_null ∷ []))
          ∷ (col "expires_at" "TIMESTAMPTZ" (not_null ∷ []))
          ∷ (col "authenticated_at" "TIMESTAMPTZ" (not_null ∷ []))
          ∷ [])
        []
    ∷ create_index false "idx_pairings_expires" "device_pairings" ("expires_at" ∷ [])
    ∷ []

abbrev pub backchannel_logout_sqlite : List Statement
backchannel_logout_sqlite =
    add_column false "sessions" (col "sso_sid" "TEXT" (not_null ∷ default "" ∷ []))
    ∷ create_index false "idx_sessions_sso_sid" "sessions" ("sso_sid" ∷ [])
    ∷ create_table false "sso_logouts"
        ((col "sid" "TEXT" (primary_key ∷ [])) ∷ (col "expires_at" "DATETIME" (not_null ∷ [])) ∷ [])
        []
    ∷ create_table false "sso_subject_logouts"
        ((col "provider" "TEXT" (not_null ∷ []))
          ∷ (col "subject" "TEXT" (not_null ∷ []))
          ∷ (col "cutoff" "DATETIME" (not_null ∷ []))
          ∷ (col "expires_at" "DATETIME" (not_null ∷ []))
          ∷ [])
        ("provider" ∷ "subject" ∷ [])
    ∷ []

abbrev pub backchannel_logout_postgres : List Statement
backchannel_logout_postgres =
    add_column true "sessions" (col "sso_sid" "TEXT" (not_null ∷ default "" ∷ []))
    ∷ create_index true "idx_sessions_sso_sid" "sessions" ("sso_sid" ∷ [])
    ∷ create_table true "sso_logouts"
        ((col "sid" "TEXT" (primary_key ∷ []))
          ∷ (col "expires_at" "TIMESTAMPTZ" (not_null ∷ []))
          ∷ [])
        []
    ∷ create_table true "sso_subject_logouts"
        ((col "provider" "TEXT" (not_null ∷ []))
          ∷ (col "subject" "TEXT" (not_null ∷ []))
          ∷ (col "cutoff" "TIMESTAMPTZ" (not_null ∷ []))
          ∷ (col "expires_at" "TIMESTAMPTZ" (not_null ∷ []))
          ∷ [])
        ("provider" ∷ "subject" ∷ [])
    ∷ []

abbrev pub drop_unreachable_sso_sessions_sqlite : List Statement
drop_unreachable_sso_sessions_sqlite =
    delete_rows "sessions" is_unreachable
    ∷ delete_rows "device_pairings" is_of_sso_user
    ∷ add_column false "device_pairings" (col "sso_sid" "TEXT" (not_null ∷ default "" ∷ []))
    ∷ []

abbrev pub drop_unreachable_sso_sessions_postgres : List Statement
drop_unreachable_sso_sessions_postgres =
    delete_rows "sessions" is_unreachable
    ∷ delete_rows "device_pairings" is_of_sso_user
    ∷ add_column true "device_pairings" (col "sso_sid" "TEXT" (not_null ∷ default "" ∷ []))
    ∷ []

abbrev pub drop_device_pairings_sqlite : List Statement
drop_device_pairings_sqlite = drop_table_if_exists "device_pairings" ∷ []

abbrev pub drop_device_pairings_postgres : List Statement
drop_device_pairings_postgres = drop_table_if_exists "device_pairings" ∷ []

abbrev pub scim_scope_sqlite : List Statement
scim_scope_sqlite =
    add_column false "users" (col "scim_managed" "INTEGER" (not_null ∷ default "0" ∷ []))
    ∷ update_rows "users" is_of_scim "scim_managed" "1"
    ∷ []

abbrev pub scim_scope_postgres : List Statement
scim_scope_postgres =
    add_column true "users" (col "scim_managed" "BOOLEAN" (not_null ∷ default "FALSE" ∷ []))
    ∷ update_rows "users" is_of_scim "scim_managed" "TRUE"
    ∷ []

abbrev pub directory_event_order_sqlite : List Statement
directory_event_order_sqlite =
    create_table true "sso_directory_events"
      ((col "provider" "TEXT" (not_null ∷ []))
        ∷ (col "subject" "TEXT" (not_null ∷ []))
        ∷ (col "last_timestamp" "INTEGER" (not_null ∷ []))
        ∷ [])
      ("provider" ∷ "subject" ∷ [])
    ∷ []

abbrev pub directory_event_order_postgres : List Statement
directory_event_order_postgres =
    create_table true "sso_directory_events"
      ((col "provider" "TEXT" (not_null ∷ []))
        ∷ (col "subject" "TEXT" (not_null ∷ []))
        ∷ (col "last_timestamp" "BIGINT" (not_null ∷ []))
        ∷ [])
      ("provider" ∷ "subject" ∷ [])
    ∷ []
