-- ===== src/Api/Backup/Pairing/Scheduled.antt =====
-- What the answer of handleSetSchedule says (internal/api/backup_handlers.go).
use Prim.Native.String.{◌++◌ as ◌^^◌}
use ky_server_base.Prelude.{
  ℕ, String, ◌≡◌, refl, ◌∙◌, subst, inl, inr, false, Option, none, some, ◌==◌, Bool-cases,
}
use ky_server_base.Prelude.Int.{ℤ}
use ky_server_base.Store.Models.{Db}
use ky_server_base.Store.Tx.{write_audit}
use ky_server_base.Config.Values.{Config}
use ky_server_base.Api.Backup.{
  bad_interval, interval_not_set, interval_set, Recovery, BackupCall, IntervalSet, actor_id,
}
use ky_server_base.Api.Backup.Trail.{IsNewest, audit_backup-IsNewest, audit_backup-settings}
use ky_server_base.Api.Backup.Pairing.{scheduled, set_schedule, after_interval, read_back}

-- The interval is read of the settings alone.
abbrev pub ReadsSettings : {B K D : Type 0} → Recovery B K D → Type 0
ReadsSettings rc =
    (default : ℕ) (db db' : Db)
    → db.server_settings ≡ db'.server_settings
    → rc.interval_sec default db ≡ rc.interval_sec default db'

module _ {B K D : Type 0} (rc : Recovery B K D) where
  -- What a schedule that is reported leaves: the store holds it, and the trail names it.
  abbrev pub IsScheduled : BackupCall → ℕ → ℤ → Db → Type 0
  IsScheduled c default sec after =
      (rc.interval_sec default after ≡ some sec)
      × (c.audit_io write_audit ≡ false
          → (before : Db) × (actor : String) × IsNewest rc c actor "admin.backup_schedule" ""
              ("interval_sec=" ^^ rc.print_int sec) before after)

module _ {B K D : Type 0} (rc : Recovery B K D) (settings : ReadsSettings rc) where
  read_back-IsScheduled :
      (c : BackupCall) (actor : String) (default : ℕ) (o : Option ℤ) (db : Db) (sec : ℤ)
      → rc.interval_sec default db ≡ o
      → (read_back rc c actor o db).0 ≡ scheduled sec
      → IsScheduled rc c default sec (read_back rc c actor o db).1
  read_back-IsScheduled c actor default none db sec held e = absurd (cc e)
  read_back-IsScheduled c actor default (some s) db sec held e =
      let same : s ≡ sec = cc e in
      let details = "interval_sec=" ^^ rc.print_int s in
      subst (λ (x : ℤ). IsScheduled rc c default x (read_back rc c actor (some s) db).1) same
        (
          settings default _ db
                (audit_backup-settings rc c actor "admin.backup_schedule" "" details db)
              ∙ held,
          λ written. (
            db,
            actor,
            audit_backup-IsNewest rc c actor "admin.backup_schedule" "" details db written,
          ),
        )

  after_interval-IsScheduled :
      (c : BackupCall) (actor : String) (default : ℕ) (x : IntervalSet × Db) (sec : ℤ)
      → (after_interval rc c actor default x).0 ≡ scheduled sec
      → IsScheduled rc c default sec (after_interval rc c actor default x).1
  after_interval-IsScheduled c actor default (bad_interval text, db) sec e = absurd (cc e)
  after_interval-IsScheduled c actor default (interval_not_set, db) sec e = absurd (cc e)
  after_interval-IsScheduled c actor default (interval_set, db) sec e =
      read_back-IsScheduled c actor default (rc.interval_sec default db) db sec refl e

  -- A schedule that the answer reports is the one that the store holds afterwards, whatever was
  -- asked for, and the newest record of the trail, if it could be written, names it; the library
  -- reads the schedule of the settings.
  pub set_schedule-IsScheduled {ℓ} :
      {A : Type ℓ} (cfg : Config A) (c : BackupCall) (asked : Option ℤ) (db : Db) (sec : ℤ)
      → (set_schedule rc cfg c asked db).0 ≡ scheduled sec
      → IsScheduled rc c cfg.backup.deposit_interval sec (set_schedule rc cfg c asked db).1
  unfolding set_schedule
  set_schedule-IsScheduled cfg c none db sec e = elim (Bool-cases (c.request.method == "PUT")) [
    | inl put ↦ absurd (cc (rw put at e))
    | inr unput ↦ absurd (cc (rw unput at e))
  ]
  set_schedule-IsScheduled cfg c (some n) db sec e = elim (Bool-cases (c.request.method == "PUT")) [
    | inl put ↦ rw put (
        after_interval-IsScheduled c (actor_id c db).0 cfg.backup.deposit_interval
          (rc.set_interval n (actor_id c db).1) sec (rw put at e))
    | inr unput ↦ absurd (cc (rw unput at e))
  ]
