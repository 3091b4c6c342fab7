-- ===== src/Scim/Users/Managed.antt =====
-- The accounts that SCIM does not manage, and userResourceHandler.Delete of
-- internal/scim/handler.go.
pub mod Update
use ky_server_base.Prelude.{
  ℕ, String, ◌≡◌, refl, ap, ◌∙◌, ◌⊎◌, inl, inr, true, not, ◌&&◌, some, List, arith,
}
use ky_server_base.Sql.{count_where, select_where, find_where, delete_where}
use ky_server_base.Sql.Laws.{
  select-update_hidden, select-delete_hidden, count-select, count-zero_of_find, count_mono,
  count-update_same,
}
use ky_server_base.Store.Models.{User, Db, Backend}
use ky_server_base.Store.Tx.{Io}
use ky_server_base.Store.Users.{has_id, get_user_by_id, delete_user}
use ky_server_base.Store.Users.Names.{IsKeyed}
use ky_server_base.Store.Users.Cas.{run_swap, scim_profile, applies, new_row}
use ky_server_base.Store.Users.Access.{run_swap-atomic}
use ky_server_base.Scim.Values
use ky_server_base.Scim.Patch
use ky_server_base.Scim.Users.{done, managed_user, delete}
use ky_server_base.Scim.Users.Roles.{go_on-keeps, managed_user-state}

-- The accounts that SCIM does not manage.
abbrev pub unmanaged : Db → List User
unmanaged db = select_where (λ u. not u.scim_managed) db.users

-- The account that `managedUser` returns is a row with the id, and SCIM manages it.
pub managed_user-done :
    (io : Io) (id : String) (db : Db) (u : User)
    → (managed_user io id db).0 ≡ done u
    → (find_where (has_id id) db.users ≡ some u) × (u.scim_managed ≡ true)
unfolding managed_user get_user_by_id
managed_user-done io id db u e = ground arith

-- The rows of an id that SCIM does not manage, and the tables that other requests may leave: ids
-- stay unique and the unmanaged accounts as they are.
abbrev pub LeavesUnmanaged : (Db → Db) → Type 0
LeavesUnmanaged f =
    (d : Db) → IsKeyed d.users → IsKeyed (f d).users × (unmanaged (f d) ≡ unmanaged d)

abbrev pub own_unmanaged : String → Db → ℕ
own_unmanaged id d = count_where (λ u. has_id id u && not u.scim_managed) d.users

pub own_unmanaged-same :
    (id : String) (d d' : Db)
    → unmanaged d' ≡ unmanaged d
    → own_unmanaged id d' ≡ own_unmanaged id d
own_unmanaged-same id d d' e = ground (
  arith,
  count-select (has_id id) (λ (u : User). not u.scim_managed) d.users,
  count-select (has_id id) (λ (u : User). not u.scim_managed) d'.users,
  ap (λ (us : List User). count_where (has_id id) us) e,
)

-- Where a managed account has the id, no unmanaged one has it.
pub managed_alone :
    (id : String) (d : Db) (u : User)
    → IsKeyed d.users
    → find_where (has_id id) d.users ≡ some u
    → u.scim_managed ≡ true
    → own_unmanaged id d ≡ 0
managed_alone id d u keyed found managed =
    count-zero_of_find _ (has_id id) d.users (λ x h. ground arith) (keyed id) found (ground arith)

-- A write of a row that SCIM manages leaves the ids unique and the unmanaged accounts as they are.
pub swap-unmanaged :
    (b : Backend) (io : Io) (now : ℕ) (old user : User) (d : Db)
    → own_unmanaged user.id d ≡ 0
    → IsKeyed d.users
    → IsKeyed (run_swap b io (scim_profile now user old.role old.status old.sso_subject) d).1.users
      × (unmanaged (run_swap b io (scim_profile now user old.role old.status old.sso_subject) d).1
          ≡ unmanaged d)
swap-unmanaged b io now old user d alone keyed =
    let s = scim_profile now user old.role old.status old.sso_subject in
    elim (run_swap-atomic b io s d) [
      | inl (_, _, e) ↦ rw e (
        λ id.
            rw (count-update_same (has_id id) (applies s) (new_row s) d.users (λ x h. refl))
              (keyed id),
        select-update_hidden (λ u. not u.scim_managed) (applies s) (new_row s) d.users
            (omega (
              arith,
              alone,
              count_mono (λ u. applies s u && not u.scim_managed)
                  (λ u. has_id user.id u && not u.scim_managed) d.users (λ x h. ground arith),
            ))
            (λ x hit h. h),
      )
      | inr (_, _, e) ↦ rw e (keyed, refl)
    ]

delete_user-users :
    (io : Io) (id : String) (d : Db)
    → ((delete_user io id d).1.users ≡ d.users)
      ⊎ ((delete_user io id d).1.users ≡ delete_where (has_id id) d.users)
unfolding delete_user
delete_user-users io id d = ground arith

delete_user-unmanaged :
    (io : Io) (id : String) (d : Db)
    → own_unmanaged id d ≡ 0
    → unmanaged (delete_user io id d).1 ≡ unmanaged d
delete_user-unmanaged io id d alone = elim (delete_user-users io id d) [
  | inl e ↦ rw e
  | inr e ↦ rw e (select-delete_hidden (λ u. not u.scim_managed) (has_id id) d.users alone)
]

-- Where ids are unique, a DELETE through SCIM leaves every account that SCIM does not manage,
-- though other requests write between its read and its deletion, if those keep ids unique and leave
-- the unmanaged accounts.
pub delete-unmanaged :
    (read_io write_io : Io) (meanwhile : Db → Db) (id : String) (d : Db)
    → LeavesUnmanaged meanwhile
    → IsKeyed d.users
    → unmanaged (delete read_io write_io meanwhile id d).1 ≡ unmanaged d
unfolding delete
delete-unmanaged read_io write_io meanwhile id d others keyed =
    go_on-keeps (λ x. unmanaged x ≡ unmanaged d) (managed_user read_io id d) _
      (rw managed_user-state)
      (λ user e.
        let (found, managed) = managed_user-done read_io id d user e in
        let later = others d keyed in
        let alone =
          own_unmanaged-same id d (meanwhile d) later.1
          ∙ managed_alone id d user keyed found managed in
        rw managed_user-state
          (ground (arith, delete_user-unmanaged write_io id (meanwhile d) alone, later.1)))
