-- ===== src/Store/Models.antt =====
-- internal/store/models.go, the errors of internal/store/store.go, and the tables that
-- internal/store/migrations creates for them. A time is a number; 0 is Go's zero time.
use ky_server_base.Prelude.{ℕ, String, Bool, true, ◌&&◌, Option, List, if◌then◌else◌}
use ky_server_base.Sql.{unique_by}

pub record User : Type 0 where
  pub id : String
  pub username : String
  pub email : String
  pub display_name : String
  pub password_hash : String
  pub role : String
  pub status : String
  pub sso_provider : String
  pub sso_subject : String
  pub scim_managed : Bool
  pub push_device_id : String
  pub must_change_password : Bool
  pub created_at : ℕ
  pub updated_at : ℕ
  pub last_login_at : Option ℕ

pub record Session : Type 0 where
  pub token_hash : String
  pub user_id : String
  pub user_agent : String
  pub ip_address : String
  pub created_at : ℕ
  pub expires_at : ℕ
  pub sso_sid : String

-- A row of `groups`; its members are rows of `group_members`.
pub record Group : Type 0 where
  pub id : String
  pub display_name : String
  pub external_id : String
  pub created_at : ℕ
  pub updated_at : ℕ

pub record Member : Type 0 where
  pub group_id : String
  pub user_id : String

pub record AuditRecord : Type 0 where
  pub user_id : String
  pub action : String
  pub resource : String
  pub details : String
  pub ip_address : String
  pub created_at : ℕ

pub record Setting : Type 0 where
  pub key : String
  pub value : String
  pub updated_at : ℕ

-- Rows of `sso_logouts` and `sso_subject_logouts`.
pub record SidFence : Type 0 where
  pub sid : String
  pub expires_at : ℕ

pub record SubjectFence : Type 0 where
  pub provider : String
  pub subject : String
  pub cutoff : ℕ
  pub expires_at : ℕ

pub record Db : Type 0 where
  pub users : List User
  pub sessions : List Session
  pub groups : List Group
  pub group_members : List Member
  pub audit_records : List AuditRecord
  pub server_settings : List Setting
  pub sso_logouts : List SidFence
  pub sso_subject_logouts : List SubjectFence
  -- whether the index on LOWER(username) could be built
  pub username_index : Bool

-- The errors of store.go; `db_error` is any other error of the database.
pub data Error : Type 0 where
  not_found already_exists session_expired conflict sso_session_ended db_error : Error

pub data Result {ℓ} (A : Type ℓ) : Type ℓ where
  ok : A → Result A
  err : Error → Result A

-- What the database does that the store does not: its LOWER, its LIKE (text, pattern), the order of
-- its texts, and which driver it is.
pub record Backend : Type 0 where
  pub like : String → String → Bool
  pub leq : String → String → Bool
  pub lower : String → String
  pub is_postgres : Bool

-- The constraints on `users`: the primary key, UNIQUE usernames, and the index if it was built.
unfoldable pub users_ok : (String → String) → Bool → List User → Bool
unfolding unique_by
users_ok lower indexed rows =
    unique_by (λ u. u.id) rows
    && (unique_by (λ u. u.username) rows
        && (if indexed then unique_by (λ u. lower u.username) rows else true))
