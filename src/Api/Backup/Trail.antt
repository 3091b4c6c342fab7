-- ===== src/Api/Backup/Trail.antt =====
-- The record that auditBackup leaves (internal/api/backup_handlers.go).
use ky_server_base.Store.Audit.{log_audit}
use ky_server_base.Prelude.{String, ◌≡◌, refl, inl, inr, false, ◌∷◌, Bool-cases}
use ky_server_base.Store.Models.{Db}
use ky_server_base.Store.Tx.{write_audit}
use ky_server_base.Api.Backup.{log_audit, Recovery, BackupCall, audit_backup, trail_record}

module _ {B K D : Type 0} (rc : Recovery B K D) where
  -- The newest record is the actor's, of this action on this resource.
  abbrev pub IsNewest : BackupCall → String → String → String → String → Db → Db → Type 0
  IsNewest c actor action resource details before after =
      (after.audit_records
        ≡ record (trail_record rc c actor action resource details) { created_at = c.now }
          ∷ before.audit_records)
      × (after.server_settings ≡ before.server_settings)

  pub audit_backup-IsNewest :
      (c : BackupCall) (actor action resource details : String) (db : Db)
      → c.audit_io write_audit ≡ false
      → IsNewest c actor action resource details db
          (audit_backup rc c actor action resource details db)
  unfolding audit_backup log_audit
  audit_backup-IsNewest c actor action resource details db written =
      rw (written, audit_backup, log_audit) (refl, refl)

  pub audit_backup-settings :
      (c : BackupCall) (actor action resource details : String) (db : Db)
      → (audit_backup rc c actor action resource details db).server_settings ≡ db.server_settings
  unfolding audit_backup log_audit
  audit_backup-settings c actor action resource details db =
      elim (Bool-cases (c.audit_io write_audit)) [
        | inl failed ↦ rw (failed, audit_backup, log_audit) refl
        | inr written ↦ rw (written, audit_backup, log_audit) refl
      ]
