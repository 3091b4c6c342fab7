-- ===== src/Api/Backup/Capsules/Exported.antt =====
-- What a capsule that handleExportCapsule hands out is, and what it leaves in the trail
-- (internal/api/backup_handlers.go).
use ky_server_base.Prelude.Checked.{Checked, good, bad}
use ky_server_base.Prelude.{◌≡◌, refl, ◌⊎◌, inl, inr, false, not, [], ◌∷◌, ◌==◌}
use ky_server_base.Prelude.{if_cases}
use ky_server_base.Store.Models.{Db}
use ky_server_base.Store.Tx.{write_audit}
use ky_server_base.Config.Values.{Config}
use ky_server_base.Backup.Payload.{
  Machine, Payload, collect, no_database_snapshot, capsule_too_large, key_of_wrong_size, io_failed,
}
use ky_server_base.Api.Backup.{
  World, Recovery, BackupCall, KeyLoad, key_loaded, key_not_paired, key_differs, key_unreadable,
  Sealed, sealed, seal_too_large, seal_failed, actor_id, audit_details,
}
use ky_server_base.Api.Backup.Trail.{IsNewest, audit_backup-IsNewest}
use ky_server_base.Api.Backup.Capsules.{
  CollectError, ExportReply, exported, export_capsule, export_keyed, export_collected,
  export_sealed, app_version,
}

module _ {B K D : Type 0} (rc : Recovery B K D) (c : BackupCall) where
  -- A capsule that leaves is the payload sealed to the pinned key, and the trail names its taker;
  -- every other answer leaves the database as the check of the session left it.
  abbrev pub IsExport :
      KeyLoad K → Checked CollectError (Payload B) → Db → ExportReply B × Db → Type 0
  IsExport key payload db (exported raw manifest, after) =
      ((k : K) × (p : Payload B) × (key ≡ key_loaded k)
        × (payload ≡ good p)
        × (rc.seal p k ≡ sealed raw manifest))
      × (c.audit_io write_audit ≡ false
          → IsNewest rc c (actor_id c db).0 "admin.backup_export" manifest.capsule_id
              (audit_details rc (("size_bytes", rc.print_nat (rc.size raw)) ∷ [])) (actor_id c db).1
              after)
  IsExport key payload db (_, after) = (after ≡ db) ⊎ (after ≡ (actor_id c db).1)

  export_sealed-IsExport :
      (k : K) (p : Payload B) (s : Sealed B) (db : Db)
      → rc.seal p k ≡ s
      → IsExport
          (key_loaded k)
          (good p)
          db
          (export_sealed rc c (actor_id c db).0 s (actor_id c db).1)
  export_sealed-IsExport k p seal_too_large db e = inr refl
  export_sealed-IsExport k p seal_failed db e = inr refl
  export_sealed-IsExport k p (sealed raw manifest) db e = (
    (k, p, refl, refl, e),
    λ written.
        audit_backup-IsNewest rc c (actor_id c db).0 "admin.backup_export" manifest.capsule_id _
          (actor_id c db).1 written,
  )

  export_collected-IsExport :
      (k : K) (payload : Checked CollectError (Payload B)) (db : Db)
      → IsExport
          (key_loaded k)
          payload
          db
          (export_collected rc c (actor_id c db).0 k payload (actor_id c db).1)
  export_collected-IsExport k (bad (no_database_snapshot text)) db = inr refl
  export_collected-IsExport k (bad capsule_too_large) db = inr refl
  export_collected-IsExport k (bad key_of_wrong_size) db = inr refl
  export_collected-IsExport k (bad io_failed) db = inr refl
  export_collected-IsExport k (good p) db = export_sealed-IsExport k p (rc.seal p k) db refl

  export_keyed-IsExport :
      (key : KeyLoad K) (payload : Checked CollectError (Payload B)) (db : Db)
      → IsExport key payload db (export_keyed rc c (actor_id c db).0 key payload (actor_id c db).1)
  export_keyed-IsExport key_not_paired payload db = inr refl
  export_keyed-IsExport key_differs payload db = inr refl
  export_keyed-IsExport key_unreadable payload db = inr refl
  export_keyed-IsExport (key_loaded k) payload db = export_collected-IsExport k payload db

  -- A capsule that is handed out is what the server collects, sealed to the recovery key that is
  -- pinned, and if the trail can be written its newest record names who took which capsule; every
  -- other answer hands out nothing and writes no record.
  pub export_capsule-IsExport {ℓ} :
      {A : Type ℓ} (m : Machine B) (cfg : Config A) (w : World D)
      → IsExport
          (rc.load_recovery_key (record w { db = (actor_id c w.db).1 }))
          (collect m cfg app_version)
          w.db
          (export_capsule rc m cfg c w)
  unfolding export_capsule
  export_capsule-IsExport m cfg w =
      let key = rc.load_recovery_key (record w { db = (actor_id c w.db).1 }) in
      let payload = collect m cfg app_version in
      if_cases (IsExport key payload w.db) (not (c.request.method == "POST")) (λ _. inl refl)
        (λ _. export_keyed-IsExport key payload w.db)
