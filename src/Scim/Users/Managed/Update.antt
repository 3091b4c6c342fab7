-- ===== src/Scim/Users/Managed/Update.antt =====
-- The accounts that SCIM does not manage, and the retried update of internal/scim/handler.go.
use ky_server_base.Prelude.{
  ℕ, zero, suc, ◌+◌, String, ◌≡◌, ap, ◌∙◌, subst, Bool, Option, none, some, List, arith, eq_iff,
}
use ky_server_base.Sql.Laws.{find-some}
use ky_server_base.Store.Models.{
  User, Db, Backend, Result, ok, err, conflict, not_found, already_exists, session_expired,
  sso_session_ended, db_error,
}
use ky_server_base.Store.Users.{has_id}
use ky_server_base.Store.Users.Names.{IsKeyed}
use ky_server_base.Store.Users.Cas.{run_swap-scim_profile}
use ky_server_base.Store.Users.Access.{credentials}
use ky_server_base.Scim.Values.{Fields}
use ky_server_base.Scim.Patch.{
  no_target, admin_grant, Strings, PatchOperation, apply_user_patch, replace_user,
}
use ky_server_base.Scim.Users.{
  touched, or_no_target, retry_or_finish, grants_admin, reject_if, Answer, done, failed, Handler,
  go_on, Turn, Change, managed_user, prepare, write_back, settle_subject, update_from, update,
  replace, patch,
}
use ky_server_base.Scim.Users.Roles.{go_on-keeps, managed_user-state}
use ky_server_base.Scim.Users.Managed.{
  unmanaged, managed_user-done, LeavesUnmanaged, own_unmanaged, own_unmanaged-same, managed_alone,
  swap-unmanaged,
}
use ky_server_base.Scim.Patch.Kept.{apply_user_patch-credentials, replace_user-credentials}

-- A change that keeps every column that is not the profile's.
abbrev pub IsProfileChange : Change → Type 0
IsProfileChange change = (u v : User) → change u ≡ done v → credentials v ≡ credentials u

abbrev user_or : User → Answer User → User
user_or u (done v) = v
user_or u (failed e) = u

prepare-done :
    (allow_admin : Bool) (t : Turn) (id : String) (change : Change) (d : Db) (pair : User × User)
    → (prepare allow_admin t id change d).0 ≡ done pair
    → (user : User) × ((managed_user t.read_io id (t.before d)).0 ≡ done pair.0)
      × (change pair.0 ≡ done user)
      × (pair.1 ≡ settle_subject pair.0 user)
      × ((prepare allow_admin t id change d).1 ≡ t.between (t.before d))
unfolding prepare
prepare-done allow_admin t id change d pair e = (
  user_or pair.0 (change pair.0),
  ground (arith, managed_user-state t.read_io id (t.before d)),
  ground (arith, managed_user-state t.read_io id (t.before d)),
  ground (arith, managed_user-state t.read_io id (t.before d)),
  ground (arith, managed_user-state t.read_io id (t.before d)),
)

-- Ids stay unique and the unmanaged accounts stay as they were in `d`.
abbrev pub Leaves : Db → Db → Type 0
Leaves d d' = IsKeyed d'.users × (unmanaged d' ≡ unmanaged d)

prepare-Leaves :
    (allow_admin : Bool) (t : Turn) (id : String) (change : Change) (d : Db)
    → LeavesUnmanaged t.before
    → LeavesUnmanaged t.between
    → IsKeyed d.users
    → Leaves d (prepare allow_admin t id change d).1
unfolding prepare
prepare-Leaves allow_admin t id change d before between keyed =
    let first : Leaves d (managed_user t.read_io id (t.before d)).1 =
      rw managed_user-state (before d keyed) in
    let second : Leaves d (t.between (managed_user t.read_io id (t.before d)).1) =
      let (k, u) = between (managed_user t.read_io id (t.before d)).1 first.0 in (k, u ∙ first.1) in
    go_on-keeps (Leaves d) (managed_user t.read_io id (t.before d)) _ first (λ old e.
      go_on-keeps (Leaves d) (change old, (managed_user t.read_io id (t.before d)).1) _ first
        (λ user e'.
          go_on-keeps (Leaves d)
            (reject_if (grants_admin allow_admin old.role user.role) admin_grant
              (managed_user t.read_io id (t.before d)).1)
            _ first (λ _ _. second)))

settle_subject-id : (old user : User) → (settle_subject old user).id ≡ user.id
settle_subject-id old user = ground arith

write_back-Leaves :
    (b : Backend) (t : Turn) (pair : User × User) (d : Db)
    → own_unmanaged pair.1.id d ≡ 0
    → IsKeyed d.users
    → Leaves d (write_back b t pair d).1
unfolding write_back
write_back-Leaves b t (old, user) d alone keyed =
    rw run_swap-scim_profile (swap-unmanaged b t.write_io t.now old user d alone keyed)

-- The pair that a pass writes back names a row that SCIM manages.
prepare-alone :
    (allow_admin : Bool) (t : Turn) (id : String) (change : Change) (d : Db) (pair : User × User)
    → IsProfileChange change
    → LeavesUnmanaged t.before
    → LeavesUnmanaged t.between
    → IsKeyed d.users
    → (prepare allow_admin t id change d).0 ≡ done pair
    → own_unmanaged pair.1.id (prepare allow_admin t id change d).1 ≡ 0
prepare-alone allow_admin t id change d pair profile before between keyed e =
    let (user, read, made, settled, state) = prepare-done allow_admin t id change d pair e in
    let (found, managed) = managed_user-done t.read_io id (t.before d) pair.0 read in
    let (k, _) = before d keyed in
    let same_id : pair.1.id ≡ id = ground (
      arith,
      settled,
      settle_subject-id pair.0 user,
      profile pair.0 user made,
      find-some (has_id id) (t.before d).users found,
      eq_iff pair.0.id id,
    ) in
    rw (same_id, state)
      (own_unmanaged-same id (t.before d) (t.between (t.before d)) (between (t.before d) k).1
        ∙ managed_alone id (t.before d) pair.0 k found managed)

-- Other requests, in every pass, leave the unmanaged accounts and the ids.
abbrev pub AllLeave : (ℕ → Turn) → Type 0
AllLeave turn = (n : ℕ) → LeavesUnmanaged (turn n).before × LeavesUnmanaged (turn n).between

pass-Leaves :
    (b : Backend) (allow_admin : Bool) (t : Turn) (id : String) (change : Change) (d : Db)
    (rest : User × User → Handler User)
    → IsProfileChange change
    → LeavesUnmanaged t.before
    → LeavesUnmanaged t.between
    → IsKeyed d.users
    → ((pair : User × User) (d' : Db)
        → own_unmanaged pair.1.id d' ≡ 0
        → IsKeyed d'.users
        → Leaves d' (rest pair d').1)
    → Leaves d (go_on (prepare allow_admin t id change d) rest).1
pass-Leaves b allow_admin t id change d rest profile before between keyed keeps =
    let first = prepare-Leaves allow_admin t id change d before between keyed in
    go_on-keeps (Leaves d) (prepare allow_admin t id change d) rest first (λ pair e.
      let (k, u) =
        keeps pair (prepare allow_admin t id change d).1
          (prepare-alone allow_admin t id change d pair profile before between keyed e) first.0 in
      (k, u ∙ first.1))

finish-Leaves :
    (user : User) (x : Result (Unit {0}) × Db) (d : Db) (again : Handler User)
    → Leaves d x.1
    → Leaves d (again x.1).1
    → (Leaves d (retry_or_finish user x none).1)
      × (Leaves d (retry_or_finish user x (some again)).1)
finish-Leaves user (ok _, d') d again h h' = (h, h)
finish-Leaves user (err not_found, d') d again h h' = (h, h)
finish-Leaves user (err already_exists, d') d again h h' = (h, h)
finish-Leaves user (err session_expired, d') d again h h' = (h, h)
finish-Leaves user (err conflict, d') d again h h' = (h, h')
finish-Leaves user (err sso_session_ended, d') d again h h' = (h, h)
finish-Leaves user (err db_error, d') d again h h' = (h, h)

update_from-Leaves :
    (b : Backend) (allow_admin : Bool) (retries attempt : ℕ) (turn : ℕ → Turn) (id : String)
    (change : Change) (d : Db)
    → IsProfileChange change
    → AllLeave turn
    → IsKeyed d.users
    → Leaves d (update_from b allow_admin retries attempt turn id change d).1
unfolding update_from
update_from-Leaves b allow_admin zero attempt turn id change d profile others keyed =
    pass-Leaves b allow_admin (turn attempt) id change d _ profile (others attempt).0
      (others attempt).1 keyed
      (λ pair d' alone k.
        (finish-Leaves (touched (turn attempt) pair.1) (write_back b (turn attempt) pair d') d'
          (λ e. (failed no_target, e)) (write_back-Leaves b (turn attempt) pair d' alone k)
          (write_back-Leaves b (turn attempt) pair d' alone k)).0)
update_from-Leaves b allow_admin (suc retries) attempt turn id change d profile others keyed =
    pass-Leaves b allow_admin (turn attempt) id change d _ profile (others attempt).0
      (others attempt).1 keyed
      (λ pair d' alone k.
        let written = write_back-Leaves b (turn attempt) pair d' alone k in
        let (k', u') =
          update_from-Leaves b allow_admin retries (attempt + 1) turn id change
            (write_back b (turn attempt) pair d').1 profile others written.0 in
        (finish-Leaves (touched (turn attempt) pair.1) (write_back b (turn attempt) pair d') d'
          (update_from b allow_admin retries (attempt + 1) turn id change) written
          (k', u' ∙ written.1)).1)

-- Where ids are unique, a PUT or a PATCH through SCIM leaves every account that SCIM does not
-- manage exactly as it is, whatever id, attributes and operations it names, though other requests
-- write between its reads and writes, if those keep ids unique and leave the unmanaged accounts
-- too.
pub replace-patch-unmanaged :
    (b : Backend) (allow_admin : Bool) (lib : Strings) (turn : ℕ → Turn) (id : String)
    (attrs : Fields) (operations : List PatchOperation) (d : Db)
    → AllLeave turn
    → IsKeyed d.users
    → (unmanaged (replace b allow_admin turn id attrs d).1 ≡ unmanaged d)
      × (unmanaged (patch b allow_admin lib turn id operations d).1 ≡ unmanaged d)
unfolding replace patch update
replace-patch-unmanaged b allow_admin lib turn id attrs operations d others keyed = (
  (update_from-Leaves b allow_admin 3 0 turn id _ d put_profile others keyed).1,
  (update_from-Leaves b allow_admin 3 0 turn id _ d patch_profile others keyed).1,
)
  where
    put_profile : IsProfileChange (λ user. done (replace_user user attrs))
    put_profile u v e =
        subst (λ w. credentials w ≡ credentials u) (ap (user_or u) e)
          (replace_user-credentials u attrs)

    patched : (u v : User) (o : Option User) → or_no_target o ≡ done v → o ≡ some v
    patched u v none e = absurd (cc e)
    patched u v (some w) e = ap some (ap (user_or u) e)

    patch_profile : IsProfileChange (λ user. or_no_target (apply_user_patch lib user operations))
    patch_profile u v e =
        apply_user_patch-credentials lib u v operations
          (patched u v (apply_user_patch lib u operations) e)
