-- ===== src/Api/Backup/Capsules.antt =====
-- The handlers of internal/api/backup_handlers.go that make a capsule: the restore drill, the
-- export and the backup run, with RunDrill of internal/backup/run_drill.go.
pub mod Exported
use ky_server_base.Prelude.Checked.{Checked, good, bad, ◌>>=◌, ◌>>◌, >>=-good, >>-good}
use Prim.Native.String.{◌++◌ as ◌^^◌}
use ky_server_base.Prelude.{
  ℕ, String, Bool, true, false, not, Option, none, some, List, [], ◌∷◌, ◌==◌, if◌then◌else◌,
}
use ky_server_base.Store.Models.{Db}
use ky_server_base.Config.Values.{Config}
use ky_server_base.Backup.Drill.{Host, Check, Recipe, checks, failed_check}
use ky_server_base.Backup.Payload.{
  Machine, Payload, CollectError, collect, no_database_snapshot, capsule_too_large,
}
use ky_server_base.Dict.{insert}
use ky_server_base.Api.Backup.{
  receipt_unrecorded, key_pin_missing, not_paired, no_snapshot, no_destination, in_progress,
  key_mismatch, private_destination, too_large, remote, other_error, World, Recovery, BackupCall,
  KeyLoad, key_loaded, key_not_paired, key_differs, key_unreadable, Manifest, Sealed, sealed,
  seal_too_large, seal_failed, RunError, RunResult, actor_id, audit_backup, audit_details,
}

abbrev pub app_version : String
app_version = "1.0.0"

pub record DrillResult : Type 0 where
  pub passed : Bool
  pub error_message : String
  pub checks : List Check

-- flock without waiting: taken, held by another process, or an error.
pub data Flock : Type 0 where
  locked would_block lock_failed : Flock

-- What RunDrill calls of the system: the lock file, the drill's directory and its mode; and
-- recoveryclient.Drill, which seals the payload, opens it below the root and runs the checks.
pub record DrillCalls (B : Type 0) : Type 0 where
  pub opens_lock : Bool
  pub flock : Flock
  pub makes_root : Bool
  pub owns_root : Bool
  pub drill : String → Payload B → (String → Recipe → List String → List Check) → Option DrillResult

pub data DrillRun : Type 0 where
  drilled : DrillResult → DrillRun
  drill_busy drill_error : DrillRun

abbrev or_error : Option DrillResult → DrillRun
or_error none = drill_error
or_error (some result) = drilled result

abbrev pub under_lock : {B : Type 0} → DrillCalls B → Option DrillResult → Flock → DrillRun
under_lock calls result lock_failed = drill_error
under_lock calls result would_block = drill_busy
under_lock calls result locked =
    if not calls.makes_root
    then drill_error
    else if not calls.owns_root
    then drill_error
    else or_error result

unfoldable pub run_drill {ℓ} :
    {A : Type ℓ} {B : Type 0} → Host → DrillCalls B → Config A → Payload B → DrillRun
unfolding checks
run_drill h calls cfg payload =
    let root = h.join cfg.database.data_dir "drill" in
    if not calls.opens_lock
    then drill_error
    else under_lock calls (calls.drill root payload (checks h)) calls.flock

pub data DrillReply : Type 0 where
  drill_method_not_allowed drill_too_large drill_not_collected : DrillReply
  drill_conflict drill_failed : DrillReply
  drill_done : DrillResult → DrillReply

abbrev answer_drill : DrillRun → DrillReply
answer_drill (drilled result) = drill_done result
answer_drill drill_busy = drill_conflict
answer_drill drill_error = drill_failed

abbrev pub drill_collected {ℓ} :
    {A : Type ℓ} {B : Type 0}
    → Host
    → DrillCalls B
    → Config A
    → Checked CollectError (Payload B)
    → DrillReply
drill_collected h calls cfg (bad (no_database_snapshot text)) =
    drill_done
      (record { passed = false; error_message = text; checks = failed_check "Database" text ∷ [] })
drill_collected h calls cfg (bad capsule_too_large) = drill_too_large
drill_collected h calls cfg (bad e) = drill_not_collected
drill_collected h calls cfg (good payload) = answer_drill (run_drill h calls cfg payload)

unfoldable pub backup_drill {ℓ} :
    {A : Type ℓ} {B : Type 0} → Host → Machine B → DrillCalls B → Config A → BackupCall → DrillReply
unfolding run_drill collect
backup_drill h m calls cfg c =
    if not (c.request.method == "POST")
    then drill_method_not_allowed
    else drill_collected h calls cfg (collect m cfg app_version)

pub data ExportReply (B : Type 0) : Type 0 where
  export_method_not_allowed no_recovery_key recovery_key_mismatch key_not_read : ExportReply B
  export_too_large export_not_collected not_sealed : ExportReply B
  no_snapshot_to_export : String → ExportReply B
  exported : B → Manifest → ExportReply B

module _ {B K D : Type 0} (rc : Recovery B K D) where
  -- A capsule that leaves the server is a copy of all it holds: the trail says who took it.
  abbrev pub export_sealed : BackupCall → String → Sealed B → Db → ExportReply B × Db
  export_sealed c actor seal_too_large db = (export_too_large, db)
  export_sealed c actor seal_failed db = (not_sealed, db)
  export_sealed c actor (sealed raw manifest) db = (
    exported raw manifest,
    audit_backup rc c actor "admin.backup_export" manifest.capsule_id
        (audit_details rc (("size_bytes", rc.print_nat (rc.size raw)) ∷ [])) db,
  )

  abbrev pub export_collected :
      BackupCall → String → K → Checked CollectError (Payload B) → Db → ExportReply B × Db
  export_collected c actor key (bad (no_database_snapshot text)) db =
      (no_snapshot_to_export text, db)
  export_collected c actor key (bad capsule_too_large) db = (export_too_large, db)
  export_collected c actor key (bad e) db = (export_not_collected, db)
  export_collected c actor key (good payload) db = export_sealed c actor (rc.seal payload key) db

  abbrev pub export_keyed :
      BackupCall → String → KeyLoad K → Checked CollectError (Payload B) → Db → ExportReply B × Db
  export_keyed c actor key_not_paired payload db = (no_recovery_key, db)
  export_keyed c actor key_differs payload db = (recovery_key_mismatch, db)
  export_keyed c actor key_unreadable payload db = (key_not_read, db)
  export_keyed c actor (key_loaded key) payload db = export_collected c actor key payload db

unfoldable pub export_capsule {ℓ} :
    {A : Type ℓ} {B K D : Type 0}
    → Recovery B K D
    → Machine B
    → Config A
    → BackupCall
    → World D
    → ExportReply B × Db
unfolding audit_backup audit_details actor_id collect
export_capsule rc m cfg c w =
    if not (c.request.method == "POST")
    then (export_method_not_allowed, w.db)
    else (let (actor, db) = actor_id c w.db in
        export_keyed rc c actor (rc.load_recovery_key (record w { db = db }))
          (collect m cfg app_version) db)

-- The answer to a backup run; a refusal has its HTTP status and its text.
pub data RunReply : Type 0 where
  ran : RunResult → RunReply
  ran_unrecorded : RunResult → RunReply
  run_refused : ℕ → String → RunReply

abbrev and_local_copy : RunResult → String
and_local_copy result = if result.local_path == "" then "" else "; the local copy was written"

abbrev and_local_error : RunResult → String
and_local_error result = if result.local_error == "" then "" else "; " ^^ result.local_error

abbrev pub answer_run : String → RunResult → Option RunError → RunReply
answer_run too_large_message result none = ran result
answer_run too_large_message result (some e) = elim e [
  | receipt_unrecorded ↦ ran_unrecorded result
  | key_pin_missing ↦
      run_refused 412 "Paired, but recovery.pub is missing or does not match the pin"
  | not_paired ↦ run_refused 412 "No recovery key"
  | no_snapshot text ↦ run_refused 412 text
  | no_destination ↦
      run_refused 412 "Nowhere to put a capsule: pair with KyRecovery or set KY_BACKUP_DIR"
  | in_progress ↦ run_refused 409 "A backup is already in progress"
  | key_mismatch ↦
      run_refused 409 "Recovery key file does not match the pinned key ID; refusing to seal"
  | private_destination ↦ run_refused 412 (
      "The recovery host resolves to a private address"
      ^^ " (set KY_BACKUP_ALLOW_PRIVATE_RECOVERY=true for a KyRecovery on your own network)")
  | too_large ↦ run_refused 413 too_large_message
  | remote ↦
      run_refused 502 (
        "KyRecovery did not accept the deposit"
        ^^ (and_local_copy result ^^ and_local_error result))
  | other_error ↦ run_refused 500 "Backup failed before reaching KyRecovery"
]

module _ {B K D : Type 0} (rc : Recovery B K D) where
  abbrev pub record_run :
      BackupCall → String → RunResult → (String × String) × List (String × String) → Db → Db
  record_run c actor result ((action, outcome), details) db =
      audit_backup rc c actor action result.capsule_id
        (audit_details rc (insert "outcome" outcome details)) db

  abbrev pub after_run :
      BackupCall → String → String → (RunResult × Option RunError) × World D → RunReply × World D
  after_run c actor too_large_message ((result, e), w) = (
    answer_run too_large_message result e,
    record w { db = record_run c actor result (rc.outcome result e) w.db },
  )

  -- `too_large_message` is recoveryclient.TooLargeMessage.
  unfoldable pub run_backup : BackupCall → String → World D → RunReply × World D
  unfolding audit_backup audit_details actor_id
  run_backup c too_large_message w =
      if not (c.request.method == "POST")
      then (run_refused 405 "Method not allowed", w)
      else (let (actor, db) = actor_id c w.db in
          if not rc.can_seal_tokens
          then (run_refused 500 "Failed to prepare backup configuration", record w { db = db })
          else after_run c actor too_large_message (rc.run (record w { db = db })))
