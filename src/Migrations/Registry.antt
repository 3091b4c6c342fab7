-- ===== src/Migrations/Registry.antt =====
-- The registry of internal/store/migrations/migrations.go.
pub mod InitialSqlite
pub mod InitialPostgres
pub mod Later
use ky_server_base.Prelude.{ℕ, String, List, [], ◌∷◌}
use ky_server_base.Migrations.Schema.{Statement}
use ky_server_base.Migrations.Registry.InitialSqlite.{initial_schema_sqlite}
use ky_server_base.Migrations.Registry.InitialPostgres.{initial_schema_postgres}
use ky_server_base.Migrations.Registry.Later.{
  one_time_auth_challenges_sqlite, one_time_auth_challenges_postgres, totp_last_counter_sqlite,
  totp_last_counter_postgres, mfa_credential_snapshot_sqlite, mfa_credential_snapshot_postgres,
  pairing_secret_only_sqlite, pairing_secret_only_postgres, backchannel_logout_sqlite,
  backchannel_logout_postgres, drop_unreachable_sso_sessions_sqlite,
  drop_unreachable_sso_sessions_postgres, drop_device_pairings_sqlite,
  drop_device_pairings_postgres, scim_scope_sqlite, scim_scope_postgres,
  directory_event_order_sqlite, directory_event_order_postgres,
}

pub record Migration : Type 0 where
  pub version : ℕ
  pub name : String
  pub sqlite : List Statement
  pub postgres : List Statement

unfoldable pub registry : List Migration
registry =
    record {
      version = 1;
      name = "initial_schema";
      sqlite = initial_schema_sqlite;
      postgres = initial_schema_postgres;
    }
    ∷ record {
      version = 2;
      name = "one_time_auth_challenges";
      sqlite = one_time_auth_challenges_sqlite;
      postgres = one_time_auth_challenges_postgres;
    }
    ∷ record {
      version = 3;
      name = "totp_last_counter";
      sqlite = totp_last_counter_sqlite;
      postgres = totp_last_counter_postgres;
    }
    ∷ record {
      version = 4;
      name = "mfa_credential_snapshot";
      sqlite = mfa_credential_snapshot_sqlite;
      postgres = mfa_credential_snapshot_postgres;
    }
    ∷ record {
      version = 5;
      name = "pairing_secret_only";
      sqlite = pairing_secret_only_sqlite;
      postgres = pairing_secret_only_postgres;
    }
    ∷ record {
      version = 6;
      name = "backchannel_logout";
      sqlite = backchannel_logout_sqlite;
      postgres = backchannel_logout_postgres;
    }
    ∷ record {
      version = 7;
      name = "drop_unreachable_sso_sessions";
      sqlite = drop_unreachable_sso_sessions_sqlite;
      postgres = drop_unreachable_sso_sessions_postgres;
    }
    ∷ record {
      version = 8;
      name = "drop_device_pairings";
      sqlite = drop_device_pairings_sqlite;
      postgres = drop_device_pairings_postgres;
    }
    ∷ record {
      version = 9;
      name = "scim_scope";
      sqlite = scim_scope_sqlite;
      postgres = scim_scope_postgres;
    }
    ∷ record {
      version = 10;
      name = "directory_event_order";
      sqlite = directory_event_order_sqlite;
      postgres = directory_event_order_postgres;
    }
    ∷ []
