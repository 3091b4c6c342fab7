-- ===== src/Api/Backup/Pairing.antt =====
-- The handlers of internal/api/backup_handlers.go that pin a key, pair, unpair and set the
-- schedule. A decoded body is an argument, none where it does not decode.
pub mod Recorded
pub mod Scheduled
use Prim.Native.String.{◌++◌ as ◌^^◌}
use ky_server_base.Prelude.{
  ℕ, String, Bool, true, not, ◌||◌, Option, none, some, ◌==◌, if◌then◌else◌,
}
use ky_server_base.Prelude.Int.{ℤ}
use ky_server_base.Store.Models.{Db, Result, ok, err}
use ky_server_base.Store.Audit.{get_setting}
use ky_server_base.Store.Tx.{Io}
use ky_server_base.Config.Values.{Config}
use ky_server_base.Auth.Session
use ky_server_base.Api.Backup.{
  PinParse, pin_malformed, pin_parsed, another_key_stored, key_not_stored, key_stored, claim_failed,
  claimed, not_cleared, nothing_paired, cleared, bad_interval, interval_not_set, interval_set,
  World, Recovery, BackupCall, KeyStore, Claim, Clearing, IntervalSet, UrlError, actor_id,
  audit_backup,
}

pub record PairRequest : Type 0 where
  pub recovery_url : String
  pub pairing_code : String

pub data PairReply (K : Type 0) : Type 0 where
  method_not_allowed invalid_body fields_required pairing_failed paired_to_another : PairReply K
  key_not_saved no_sealer pairing_not_saved : PairReply K
  url_refused : String → PairReply K
  paired : K → PairReply K

abbrev private_hint : String
private_hint = " (set KY_BACKUP_ALLOW_PRIVATE_RECOVERY=true for a KyRecovery on your own network)"

abbrev url_message : UrlError → String
url_message e = if e.is_private then e.text ^^ private_hint else e.text

module _ {B K D : Type 0} (rc : Recovery B K D) where
  abbrev pub logged : BackupCall → String → String → String → String → World D → World D
  logged c actor action target details w = record w {
    db = audit_backup rc c actor action target details w.db;
  }

  abbrev pub after_pairing :
      BackupCall → String → String → Bool → K → Option String → World D → PairReply K × World D
  after_pairing c actor target allow_private key (some text) w = (
    pairing_not_saved,
    logged c actor "backup.pair_failed" target
        ("error=key pinned but the pairing was not stored: " ^^ text) w,
  )
  after_pairing c actor target allow_private key none w = (
    paired key,
    logged c actor "backup.paired" target
        ("recovery_key_id="
          ^^ (rc.key_id key ^^ (" allow_private=" ^^ rc.print_bool allow_private)))
        w,
  )

  -- The key is pinned; now the pairing is stored, its token sealed.
  unfoldable pub store_paired :
      BackupCall → String → String → String → Bool → K → String → World D → PairReply K × World D
  unfolding audit_backup
  store_paired c actor target url allow_private key token w =
      if not rc.can_seal_tokens
      then (no_sealer, w)
      else (let (o, db) = rc.store_pairing url token w.db in
          after_pairing c actor target allow_private key o (record w { db = db }))

  abbrev pub after_key :
      BackupCall
      → String
      → String
      → String
      → Bool
      → K
      → String
      → KeyStore × World D
      → PairReply K × World D
  after_key c actor target url allow_private key token (another_key_stored, w) = (
    paired_to_another,
    logged c actor "backup.pair_failed" target "error=already paired to a different recovery key" w,
  )
  after_key c actor target url allow_private key token (key_not_stored, w) = (key_not_saved, w)
  after_key c actor target url allow_private key token (key_stored, w) =
      store_paired c actor target url allow_private key token w

  unfoldable pub claimed_pairing :
      BackupCall → String → String → Bool → Claim K → World D → PairReply K × World D
  unfolding store_paired
  claimed_pairing c actor url allow_private (claim_failed text) w =
      (pairing_failed, logged c actor "backup.pair_failed" (rc.audit_safe url) ("error=" ^^ text) w)
  claimed_pairing c actor url allow_private (claimed key token) w =
      after_key c actor (rc.audit_safe url) url allow_private key token
        (rc.store_recovery_key key w)

unfoldable pub pair_remote {ℓ} :
    {A : Type ℓ} {B K D : Type 0}
    → Recovery B K D
    → Config A
    → BackupCall
    → Option PairRequest
    → World D
    → PairReply K × World D
unfolding claimed_pairing actor_id
pair_remote rc cfg c none w =
    if not (c.request.method == "POST") then (method_not_allowed, w) else (invalid_body, w)
pair_remote rc cfg c (some req) w =
    let private = cfg.backup.allow_private_recovery in
    if not (c.request.method == "POST")
    then (method_not_allowed, w)
    else if req.recovery_url == "" || req.pairing_code == ""
    then (fields_required, w)
    else elim (rc.validate_url req.recovery_url private) [
      | some e ↦ (url_refused (url_message e), w)
      | none ↦
          (let (actor, db) = actor_id c w.db in
            claimed_pairing rc c actor req.recovery_url private
              (rc.claim_pairing req.recovery_url req.pairing_code cfg.server.app_name)
              (record w { db = db }))
    ]

pub record PinRequest : Type 0 where
  pub public_key : String
  pub threshold : ℤ
  pub total_shares : ℤ

pub data PinReply (K : Type 0) : Type 0 where
  pin_method_not_allowed invalid_pin_body pinned_to_another pin_not_saved : PinReply K
  pin_refused : String → PinReply K
  pinned : K → PinReply K

module _ {B K D : Type 0} (rc : Recovery B K D) where
  abbrev pub after_pin : BackupCall → String → K → KeyStore × World D → PinReply K × World D
  after_pin c actor key (another_key_stored, w) = (
    pinned_to_another,
    logged rc c actor "admin.backup_key_pin" (rc.key_id key)
        "error=already pinned to a different recovery key" w,
  )
  after_pin c actor key (key_not_stored, w) = (pin_not_saved, w)
  after_pin c actor key (key_stored, w) = (
    pinned key,
    logged rc c actor "admin.backup_key_pin" (rc.key_id key)
        ("threshold="
          ^^ (rc.print_int (rc.threshold key)
              ^^ (" total_shares=" ^^ rc.print_int (rc.total_shares key))))
        w,
  )

  abbrev pub pin_claim : BackupCall → PinParse K → World D → PinReply K × World D
  pin_claim c (pin_malformed text) w = (pin_refused text, w)
  pin_claim c (pin_parsed key) w =
      let (actor, db) = actor_id c w.db in
      after_pin c actor key (rc.store_recovery_key key (record w { db = db }))

  unfoldable pub pin_key : BackupCall → Option PinRequest → World D → PinReply K × World D
  unfolding audit_backup actor_id
  pin_key c none w =
      if not (c.request.method == "POST")
      then (pin_method_not_allowed, w)
      else (invalid_pin_body, w)
  pin_key c (some req) w =
      if not (c.request.method == "POST")
      then (pin_method_not_allowed, w)
      else pin_claim c (rc.parse_pin req.public_key req.threshold req.total_shares) w

pub data UnpairReply : Type 0 where
  unpair_method_not_allowed not_paired_here pairing_not_removed unpaired : UnpairReply

abbrev text_of : Result String → String
text_of (ok text) = text
text_of (err e) = ""

module _ {B K D : Type 0} (rc : Recovery B K D) where
  abbrev pub after_clearing : BackupCall → String → String → Clearing × Db → UnpairReply × Db
  after_clearing c actor target (nothing_paired, db) = (not_paired_here, db)
  after_clearing c actor target (not_cleared text, db) = (
    pairing_not_removed,
    audit_backup rc c actor "admin.backup_unpair" target ("error=" ^^ text) db,
  )
  after_clearing c actor target (cleared, db) =
      (unpaired, audit_backup rc c actor "admin.backup_unpair" target "success" db)

  -- `read_io` says whether the read of the address fails, which is then the empty text.
  unfoldable pub unpair : BackupCall → Io → Db → UnpairReply × Db
  unfolding audit_backup actor_id get_setting
  unpair c read_io db =
      if not (c.request.method == "DELETE")
      then (unpair_method_not_allowed, db)
      else (let (actor, db') = actor_id c db in
          let (target, db'') = get_setting read_io "kyrecovery_url" db' in
          after_clearing c actor (rc.audit_safe (text_of target)) (rc.clear_pairing db''))

pub data ScheduleReply : Type 0 where
  schedule_method_not_allowed invalid_schedule_body schedule_not_saved : ScheduleReply
  schedule_not_read_back : ScheduleReply
  interval_refused : String → ScheduleReply
  scheduled : ℤ → ScheduleReply

module _ {B K D : Type 0} (rc : Recovery B K D) where
  -- What the store holds is read back for the answer and the trail.
  abbrev pub read_back : BackupCall → String → Option ℤ → Db → ScheduleReply × Db
  read_back c actor none db = (schedule_not_read_back, db)
  read_back c actor (some sec) db = (
    scheduled sec,
    audit_backup rc c actor "admin.backup_schedule" "" ("interval_sec=" ^^ rc.print_int sec) db,
  )

  abbrev pub after_interval : BackupCall → String → ℕ → IntervalSet × Db → ScheduleReply × Db
  after_interval c actor default (bad_interval text, db) = (interval_refused text, db)
  after_interval c actor default (interval_not_set, db) = (schedule_not_saved, db)
  after_interval c actor default (interval_set, db) =
      read_back c actor (rc.interval_sec default db) db

unfoldable pub set_schedule {ℓ} :
    {A : Type ℓ} {B K D : Type 0}
    → Recovery B K D
    → Config A
    → BackupCall
    → Option ℤ
    → Db
    → ScheduleReply × Db
unfolding audit_backup actor_id
set_schedule rc cfg c none db =
    if not (c.request.method == "PUT")
    then (schedule_method_not_allowed, db)
    else (invalid_schedule_body, db)
set_schedule rc cfg c (some seconds) db =
    if not (c.request.method == "PUT")
    then (schedule_method_not_allowed, db)
    else (let (actor, db') = actor_id c db in
        after_interval rc c actor cfg.backup.deposit_interval (rc.set_interval seconds db'))
