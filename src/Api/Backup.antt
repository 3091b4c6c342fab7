-- ===== src/Api/Backup.antt =====
-- The backup handlers of internal/api/backup_handlers.go: what they call of the recovery client,
-- and the trail that they leave.
pub mod Trail
pub mod Pairing
pub mod Capsules
use Prim.Native.Char
use Prim.Native.Nat
use Prim.Native.String.{◌++◌ as ◌^^◌}
use ky_server_base.Prelude.{
  is_char, ℕ, ◌+◌, String, Bool, not, ◌&&◌, Option, none, some, List, [], ◌∷◌, ◌++◌, map, ◌==◌,
  if◌then◌else◌,
}
use ky_server_base.Prelude.Int.{ℤ}
use ky_server_base.Sql.{order_by, any}
use ky_server_base.Dict.{lookup}
use ky_server_base.Store.Models.{User, Session, Db, AuditRecord}
use ky_server_base.Store.Tx.{Io}
use ky_server_base.Store.Audit.{log_audit}
use ky_server_base.Auth.Session.{Request, AuthCalls, Outcome, granted, denied, authenticate}
use ky_server_base.Backup.Payload.{Payload}

-- The database and the data directory.
pub record World (D : Type 0) : Type 0 where
  pub db : Db
  pub disk : D

-- An error of recoveryclient's run or of its parts, as errors.Is tells them apart.
pub data RunError : Type 0 where
  receipt_unrecorded key_pin_missing not_paired no_destination in_progress : RunError
  key_mismatch private_destination too_large remote other_error : RunError
  no_snapshot : String → RunError

-- recoveryclient.Result: what a run did, before it failed or in all.
pub record RunResult : Type 0 where
  pub capsule_id : String
  pub local_path : String
  pub local_error : String

pub data KeyLoad (K : Type 0) : Type 0 where
  key_loaded : K → KeyLoad K
  key_not_paired key_differs key_unreadable : KeyLoad K

-- What StoreRecoveryKey says: it never replaces a key by another.
pub data KeyStore : Type 0 where
  key_stored another_key_stored key_not_stored : KeyStore

pub data Claim (K : Type 0) : Type 0 where
  claimed : K → String → Claim K
  claim_failed : String → Claim K

pub data PinParse (K : Type 0) : Type 0 where
  pin_parsed : K → PinParse K
  pin_malformed : String → PinParse K

pub data Clearing : Type 0 where
  cleared nothing_paired : Clearing
  not_cleared : String → Clearing

pub data IntervalSet : Type 0 where
  interval_set interval_not_set : IntervalSet
  bad_interval : String → IntervalSet

pub record UrlError : Type 0 where
  pub text : String
  pub is_private : Bool

-- The manifest of a sealed capsule, as the export shows it.
pub record Manifest : Type 0 where
  pub capsule_id : String
  pub recovery_key_id : String

pub data Sealed (B : Type 0) : Type 0 where
  sealed : B → Manifest → Sealed B
  seal_too_large seal_failed : Sealed B

-- The library recoveryclient over types of bytes, keys and directories, and the sealer of
-- backup.NewSealer, which the deployment's key may not give. `interval_sec` is Interval in whole
-- seconds for the configured default; `outcome` is Outcome with the details as printed values.
pub record Recovery (B K D : Type 0) : Type 0 where
  pub audit_safe : String → String
  pub filename_safe : String → String
  pub validate_url : String → Bool → Option UrlError
  pub claim_pairing : String → String → String → Claim K
  pub store_recovery_key : K → World D → KeyStore × World D
  pub load_recovery_key : World D → KeyLoad K
  pub can_seal_tokens : Bool
  pub store_pairing : String → String → Db → Option String × Db
  pub clear_pairing : Db → Clearing × Db
  pub parse_pin : String → ℤ → ℤ → PinParse K
  pub set_interval : ℤ → Db → IntervalSet × Db
  pub interval_sec : ℕ → Db → Option ℤ
  pub seal : Payload B → K → Sealed B
  pub size : B → ℕ
  pub run : World D → (RunResult × Option RunError) × World D
  pub outcome : RunResult → Option RunError → (String × String) × List (String × String)
  pub key_id : K → String
  pub threshold : K → ℤ
  pub total_shares : K → ℤ
  pub print_int : ℤ → String
  pub print_nat : ℕ → String
  pub print_bool : Bool → String
  pub quote : String → String
  pub comes_before : String → String → Bool

-- strings.ReplaceAll of "=" by "\x3d"
unfoldable pub escape_equals : String → String
escape_equals String.[] = String.[]
escape_equals (String.◌∷◌ c s) =
    let rest = escape_equals s in if is_char b'=' c then "\\x3d" ^^ rest else String.◌∷◌ c rest

unfoldable pub audit_value : (String → String) → String → String
unfolding escape_equals
audit_value quote value = escape_equals (quote value)

abbrev pub local_keys : List String
local_keys =
    "outcome" ∷ "capsule_id" ∷ "local_path" ∷ "local_error" ∷ "deposited" ∷ "digest" ∷ "size_bytes"
    ∷ []

abbrev pub remote_keys : List String
remote_keys = "error" ∷ "receipt_unrecorded" ∷ []

unfoldable pub is_one_of : List String → String → Bool
unfolding any
is_one_of keys key = any (λ k. k == key) keys

unfoldable pub keep {ℓ} : {A : Type ℓ} → (A → Bool) → List A → List A
keep p [] = []
keep p (x ∷ xs) = let rest = keep p xs in if p x then x ∷ rest else rest

-- The keys that are there, in the order that a long remote error cannot displace.
unfoldable pub audit_keys : (String → String → Bool) → List (String × String) → List String
unfolding keep order_by is_one_of
audit_keys before details =
    let keys = map (λ d. d.0) details in
    local_keys
    ++ (order_by before
          (keep (λ k. not (is_one_of local_keys k) && not (is_one_of remote_keys k)) keys)
        ++ order_by before (keep (is_one_of remote_keys) keys))

abbrev and_space : String → String → String
and_space text rest =
    if text == "" then rest else if rest == "" then text else text ^^ (" " ^^ rest)

abbrev pub field : (String → String) → List (String × String) → String → String
field quote details key = elim (lookup key details) [
  | none ↦ ""
  | some value ↦ key ^^ ("=" ^^ audit_value quote value)
]

unfoldable pub join_fields : (String → String) → List (String × String) → List String → String
unfolding lookup audit_value
join_fields quote details [] = ""
join_fields quote details (key ∷ keys) =
    and_space (field quote details key) (join_fields quote details keys)

-- What the handlers share: who asks, from where and when, and which of the trail's writes fail.
pub record BackupCall : Type 0 where
  pub auth : AuthCalls
  pub sha256_hex : String → String
  pub host_cookies : Bool
  pub request : Request
  pub audit_io : Io
  pub now : ℕ
  pub ip : String

abbrev pub id_of : Outcome (User × Session) × Db → String × Db
id_of (granted (user, sess), db) = (user.id, db)
id_of (denied e, db) = ("", db)

unfoldable pub actor_id : BackupCall → Db → String × Db
unfolding authenticate
actor_id c db = id_of (authenticate c.sha256_hex c.host_cookies c.auth c.request db)

module _ {B K D : Type 0} (rc : Recovery B K D) where
  unfoldable pub audit_details : List (String × String) → String
  unfolding audit_keys join_fields
  audit_details details =
      rc.audit_safe (join_fields rc.quote details (audit_keys rc.comes_before details))

  abbrev pub trail_record : BackupCall → String → String → String → String → AuditRecord
  trail_record c actor action resource details = record {
    user_id = actor;
    action = action;
    resource = rc.audit_safe resource;
    details = rc.audit_safe details;
    ip_address = c.ip;
    created_at = 0;
  }

  -- An error of the record is logged and dropped.
  unfoldable pub audit_backup : BackupCall → String → String → String → String → Db → Db
  unfolding log_audit
  audit_backup c actor action resource details db =
      (log_audit c.audit_io c.now (trail_record c actor action resource details) db).1
