-- ===== src/Scim/Users/Roles.antt =====
-- The administrators before and after an update of an account through SCIM: the role check of
-- userResourceHandler.update in internal/scim/handler.go (KY_SCIM_ALLOW_ADMIN).
use ky_server_base.Prelude.{
  ℕ, zero, suc, ◌+◌, ◌≤◌, String, ◌≡◌, refl, inl, inr, Bool, false, ◌&&◌, arith, ◌==◌, eq_iff,
}
use ky_server_base.Sql.{count_where}
use ky_server_base.Sql.Laws.{count-update-le}
use ky_server_base.Store.Models.{User, Db, Backend}
use ky_server_base.Store.Tx.{Io}
use ky_server_base.Store.Users.{has_id, get_user_by_id}
use ky_server_base.Store.Users.Cas.{run_swap-scim_profile, run_swap, scim_profile}
use ky_server_base.Store.Users.Access.{run_swap-atomic}
use ky_server_base.Scim.Users.{
  Answer, done, failed, Handler, go_on, Turn, Change, grants_admin, managed_user, prepare,
  write_back, update_from, update,
}

-- The accounts of an id that are administrators.
abbrev pub admins : String → Db → ℕ
admins id db = count_where (λ u. has_id id u && u.role == "admin") db.users

pub go_on-keeps {ℓ κ} :
    {A : Type ℓ} {B : Type κ} (P : Db → Type 0) (x : Answer A × Db) (f : A → Handler B)
    → P x.1
    → ((a : A) → x.0 ≡ done a → P (f a x.1).1)
    → P (go_on x f).1
go_on-keeps P (done a, db) f h k = k a refl
go_on-keeps P (failed e, db) f h k = h

pub get_user_by_id-state : (io : Io) (id : String) (db : Db) → (get_user_by_id io id db).1 ≡ db
unfolding get_user_by_id
get_user_by_id-state io id db = ground arith

pub managed_user-state : (io : Io) (id : String) (db : Db) → (managed_user io id db).1 ≡ db
unfolding managed_user
managed_user-state io id db = ground (arith, get_user_by_id-state io id db)

-- A compare-and-swap write whose role was checked makes no new administrator.
swap-admins :
    (b : Backend) (io : Io) (now : ℕ) (old user : User) (id : String) (db : Db)
    → grants_admin false old.role user.role ≡ false
    → admins id (run_swap b io (scim_profile now user old.role old.status old.sso_subject) db).1
      ≤ admins id db
unfolding grants_admin
swap-admins b io now old user id db checked =
    elim (run_swap-atomic b io (scim_profile now user old.role old.status old.sso_subject) db) [
      | inl (_, _, e) ↦ rw e (
          count-update-le _ _ _ db.users (λ u hit made. ground (
            arith,
            eq_iff u.role old.role,
            eq_iff user.role "admin",
            eq_iff u.role "admin",
            eq_iff old.role "admin",
          )))
      | inr (_, _, e) ↦ rw e (omega arith)
    ]

-- The check of the role holds for the pair that a pass writes back.
prepare-checked :
    (allow_admin : Bool) (t : Turn) (id : String) (change : Change) (db : Db) (pair : User × User)
    → (prepare allow_admin t id change db).0 ≡ done pair
    → grants_admin allow_admin pair.0.role pair.1.role ≡ false
unfolding prepare
prepare-checked allow_admin t id change db pair e = ground arith

-- What other requests write meanwhile makes no administrator.
abbrev pub MakesNone : (Db → Db) → Type 0
MakesNone f = (id : String) (db : Db) → admins id (f db) ≤ admins id db

prepare-admins :
    (allow_admin : Bool) (t : Turn) (id : String) (change : Change) (k : String) (db : Db)
    → MakesNone t.before
    → MakesNone t.between
    → admins k (prepare allow_admin t id change db).1 ≤ admins k db
unfolding prepare
prepare-admins allow_admin t id change k db before between =
    ground
      (arith, managed_user-state t.read_io id (t.before db), before k db, between k (t.before db))

write_back-admins :
    (b : Backend) (t : Turn) (pair : User × User) (k : String) (db : Db)
    → grants_admin false pair.0.role pair.1.role ≡ false
    → admins k (write_back b t pair db).1 ≤ admins k db
unfolding write_back
write_back-admins b t (old, user) k db checked =
    rw run_swap-scim_profile (swap-admins b t.write_io t.now old user k db checked)

-- The turns' other requests make no administrator.
abbrev pub AllMakeNone : (ℕ → Turn) → Type 0
AllMakeNone turn = (n : ℕ) → MakesNone (turn n).before × MakesNone (turn n).between

pass-admins :
    (b : Backend) (t : Turn) (id : String) (change : Change) (k : String) (db : Db)
    (rest : User × User → Handler User)
    → MakesNone t.before
    → MakesNone t.between
    → ((pair : User × User) (d : Db)
        → grants_admin false pair.0.role pair.1.role ≡ false
        → admins k (rest pair d).1 ≤ admins k d)
    → admins k (go_on (prepare false t id change db) rest).1 ≤ admins k db
pass-admins b t id change k db rest before between keeps =
    let first = prepare-admins false t id change k db before between in
    go_on-keeps (λ d. admins k d ≤ admins k db) (prepare false t id change db) rest first
      (λ pair e. omega (
        arith,
        first,
        keeps pair (prepare false t id change db).1 (prepare-checked false t id change db pair e),
      ))

update_from-admins :
    (b : Backend) (retries attempt : ℕ) (turn : ℕ → Turn) (id : String) (change : Change)
    (k : String) (db : Db)
    → AllMakeNone turn
    → admins k (update_from b false retries attempt turn id change db).1 ≤ admins k db
unfolding update_from
update_from-admins b zero attempt turn id change k db steady =
    pass-admins b (turn attempt) id change k db _ (steady attempt).0 (steady attempt).1
      (λ pair d checked. ground (arith, write_back-admins b (turn attempt) pair k d checked))
update_from-admins b (suc retries) attempt turn id change k db steady =
    pass-admins b (turn attempt) id change k db _ (steady attempt).0 (steady attempt).1
      (λ pair d checked. ground (
        arith,
        write_back-admins b (turn attempt) pair k d checked,
        update_from-admins b retries (attempt + 1) turn id change k
            (write_back b (turn attempt) pair d).1 steady,
      ))

-- With the admin grant off, no update of an account through SCIM, whatever it changes, makes an
-- account an administrator that was none when the call began, though it reads and retries while
-- other requests write, if those make none either.
pub update-grants_none :
    (b : Backend) (turn : ℕ → Turn) (id : String) (change : Change) (k : String) (db : Db)
    → AllMakeNone turn
    → admins k (update b false turn id change db).1 ≤ admins k db
unfolding update
update-grants_none b turn id change k db steady =
    update_from-admins b 3 0 turn id change k db steady
