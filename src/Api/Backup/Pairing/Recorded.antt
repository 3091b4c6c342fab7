-- ===== src/Api/Backup/Pairing/Recorded.antt =====
-- What handlePairRemoteRecovery leaves on the disk and in the trail
-- (internal/api/backup_handlers.go).
use ky_server_base.Prelude.{
  if_cases, String, ◌≡◌, refl, inl, inr, Bool, false, not, ◌||◌, Option, none, some, arith, ◌==◌,
  Bool-cases, Option-cases,
}
use ky_server_base.Store.Tx.{write_audit}
use ky_server_base.Config.Values.{Config}
use ky_server_base.Api.Backup.{
  World, Recovery, BackupCall, KeyStore, key_stored, key_not_stored, another_key_stored, Claim,
  claimed, claim_failed, actor_id,
}
use ky_server_base.Api.Backup.Trail.{IsNewest, audit_backup-IsNewest}
use ky_server_base.Api.Backup.Pairing.{
  key_not_saved, PairRequest, PairReply, pair_remote, claimed_pairing, after_key, store_paired,
  after_pairing, no_sealer, pairing_not_saved, paired,
}

-- The library never replaces a key on the disk by another: where it finds one, the disk stays as it
-- is. Any other error may come after the key's file is written.
abbrev pub KeepsOther : {B K D : Type 0} → Recovery B K D → Type 0
KeepsOther {K = K} {D = D} rc =
    (key : K) (w : World D)
    → (rc.store_recovery_key key w).0 ≡ another_key_stored
    → (rc.store_recovery_key key w).1.disk ≡ w.disk

module _ {B K D : Type 0} (rc : Recovery B K D) where
  -- What the library left of the claimed key where the handler returns from its call without a
  -- record.
  abbrev pub IsUnrecorded : BackupCall → Claim K → World D → KeyStore → World D → Type 0
  IsUnrecorded c claim w outcome after =
      (key : K) × (token : String) × (claim ≡ claimed key token)
      × (rc.store_recovery_key key (record w { db = (actor_id c w.db).1 }) ≡ (outcome, after))

  -- The claimed key is stored, and the newest record, made after the pairing was saved or was not,
  -- says what became of it and who asked.
  abbrev pub IsPinned :
      BackupCall → String → Claim K → World D → K → Option String → String → World D → Type 0
  IsPinned c url claim w key saved event after =
      (token : String) × (now : World D) × (details : String) × (claim ≡ claimed key token)
      × (rc.store_recovery_key key (record w { db = (actor_id c w.db).1 }) ≡ (key_stored, now))
      × (after.disk ≡ now.disk)
      × ((rc.store_pairing url token now.db).0 ≡ saved)
      × IsNewest rc c (actor_id c w.db).0 event (rc.audit_safe url) details
          (rc.store_pairing url token now.db).1 after.db

  -- A reply under which the disk may have changed: the trail's newest record says so, but for two
  -- replies, which leave what the library left. Every other reply leaves the disk.
  abbrev pub IsRecorded : BackupCall → String → Claim K → World D → PairReply K × World D → Type 0
  IsRecorded c url claim w (paired key, after) =
      IsPinned c url claim w key none "backup.paired" after
  IsRecorded c url claim w (pairing_not_saved, after) =
      (key : K) × (text : String) × IsPinned c url claim w key (some text) "backup.pair_failed"
        after
  IsRecorded c url claim w (no_sealer, after) =
      (rc.can_seal_tokens ≡ false) × IsUnrecorded c claim w key_stored after
  IsRecorded c url claim w (key_not_saved, after) = IsUnrecorded c claim w key_not_stored after
  IsRecorded c url claim w (_, after) = after.disk ≡ w.disk

  module _ (c : BackupCall) (written : c.audit_io write_audit ≡ false) (url : String) where
    after_pairing-IsRecorded :
        (claim : Claim K) (allow_private : Bool) (key : K) (token : String) (o : Option String)
        (w now : World D)
        → claim ≡ claimed key token
        → rc.store_recovery_key key (record w { db = (actor_id c w.db).1 }) ≡ (key_stored, now)
        → (rc.store_pairing url token now.db).0 ≡ o
        → IsRecorded c url claim w (
            after_pairing rc c
              (actor_id c w.db).0
              (rc.audit_safe url)
              allow_private
              key
              o
              (record now { db = (rc.store_pairing url token now.db).1 }))
    after_pairing-IsRecorded claim allow_private key token none w now mine same saved = (
      token,
      now,
      _,
      mine,
      same,
      refl,
      saved,
      audit_backup-IsNewest rc c (actor_id c w.db).0 "backup.paired" (rc.audit_safe url) _
          (rc.store_pairing url token now.db).1 written,
    )
    after_pairing-IsRecorded claim allow_private key token (some text) w now mine same saved = (
      key,
      text,
      (
        token,
        now,
        _,
        mine,
        same,
        refl,
        saved,
        audit_backup-IsNewest rc c (actor_id c w.db).0 "backup.pair_failed" (rc.audit_safe url) _
            (rc.store_pairing url token now.db).1 written,
      ),
    )

    store_paired-IsRecorded :
        (claim : Claim K) (allow_private : Bool) (key : K) (token : String) (w now : World D)
        → claim ≡ claimed key token
        → rc.store_recovery_key key (record w { db = (actor_id c w.db).1 }) ≡ (key_stored, now)
        → IsRecorded c url claim w (
            store_paired rc c
              (actor_id c w.db).0
              (rc.audit_safe url)
              url
              allow_private
              key
              token
              now)
    unfolding store_paired
    store_paired-IsRecorded claim allow_private key token w now mine same =
        if_cases (IsRecorded c url claim w) (not rc.can_seal_tokens)
          (λ unable. (ground arith, (key, token, mine, same)))
          (λ _.
            after_pairing-IsRecorded claim allow_private key token
              (rc.store_pairing url token now.db).0 w now mine same refl)

    after_key-IsRecorded :
        (claim : Claim K) (allow_private : Bool) (key : K) (token : String) (w : World D)
        (x : KeyStore × World D)
        → claim ≡ claimed key token
        → rc.store_recovery_key key (record w { db = (actor_id c w.db).1 }) ≡ x
        → (x.0 ≡ another_key_stored → x.1.disk ≡ w.disk)
        → IsRecorded c url claim w
            (after_key rc c (actor_id c w.db).0 (rc.audit_safe url) url allow_private key token x)
    after_key-IsRecorded claim allow_private key token w (key_stored, now) mine same law =
        store_paired-IsRecorded claim allow_private key token w now mine same
    after_key-IsRecorded claim allow_private key token w (another_key_stored, now) mine same law =
        law refl
    after_key-IsRecorded claim allow_private key token w (key_not_stored, now) mine same law =
        (key, token, mine, same)

    claimed_pairing-IsRecorded :
        KeepsOther rc
        → (allow_private : Bool) (claim : Claim K) (w : World D)
        → IsRecorded c url claim w (
            claimed_pairing rc c
              (actor_id c w.db).0
              url
              allow_private
              claim
              (record w { db = (actor_id c w.db).1 }))
    unfolding claimed_pairing
    claimed_pairing-IsRecorded keeps allow_private (claim_failed text) w = refl
    claimed_pairing-IsRecorded keeps allow_private (claimed key token) w =
        let now = record w { db = (actor_id c w.db).1 } in
        after_key-IsRecorded (claimed key token) allow_private key token w
          (rc.store_recovery_key key now) refl refl (keeps key now)

  -- Where the trail can be written, an answer to a pairing after which the disk may hold another key
  -- is on record, with two exceptions. Where the claimed key was stored, the newest record names who
  -- asked and the address: it is "backup.paired" where the pairing was saved too, and
  -- "backup.pair_failed" where it was not. The exceptions, a deployment key that cannot seal the
  -- token and an error of the library while it stores the claimed key, leave what the library left,
  -- in the trail too: the handler writes no record. With every other answer the disk is as it was.
  -- The library never replaces a key on the disk by another.
  pub pair_remote-IsRecorded {ℓ} :
      {A : Type ℓ} (cfg : Config A) (c : BackupCall) (req : PairRequest) (w : World D)
      → KeepsOther rc
      → c.audit_io write_audit ≡ false
      → IsRecorded c req.recovery_url
          (rc.claim_pairing req.recovery_url req.pairing_code cfg.server.app_name)
          w
          (pair_remote rc cfg c (some req) w)
  unfolding pair_remote
  pair_remote-IsRecorded cfg c req w keeps written =
      let private = cfg.backup.allow_private_recovery in
      elim (Bool-cases (c.request.method == "POST")) [
        | inr other ↦ rw other refl
        | inl post ↦ elim (Bool-cases (req.recovery_url == "" || req.pairing_code == "")) [
          | inl blank ↦ rw (post, blank) refl
          | inr given ↦ elim (Option-cases (rc.validate_url req.recovery_url private)) [
            | inr (e, bad) ↦ rw (post, given, bad) refl
            | inl good ↦
                rw (post, given, good)
                  (claimed_pairing-IsRecorded c written req.recovery_url keeps private
                    (rc.claim_pairing req.recovery_url req.pairing_code cfg.server.app_name) w)
          ]
        ]
      ]
