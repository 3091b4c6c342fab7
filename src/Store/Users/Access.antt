-- ===== src/Store/Users/Access.antt =====
-- What the compare-and-swap writes of an account promise: UpdateUserProfile, UpdateSCIMProfile,
-- TakeOverForSCIM and UpdateUserRole of internal/store/store.go.
use ky_server_base.Prelude.{
  ℕ, ◌<◌, String, ◌≡◌, refl, ◌≢◌, ◌⊎◌, inl, inr, Bool, true, false, ◌&&◌, Option, none, some, List,
  map, arith, ◌==◌, eq_iff, if◌then◌else◌,
}
use ky_server_base.Sql.{find_where, count_where}
use ky_server_base.Sql.Laws.{count-delete_self, count-delete_other, count-zero_of_find, map-update}
use ky_server_base.Store.Models.{User, Session, Db, Backend, ok, err, Error}
use ky_server_base.Store.Tx.{Io}
use ky_server_base.Store.Users.{has_id}
use ky_server_base.Store.Users.Names.{IsKeyed}
use ky_server_base.Store.Users.Cas.{
  Swap, profile, scim_profile, take_over, role_only, run_swap, target, read_role, read_status,
  applies, new_row, keeps_access, after_swap, run_swap-ok, run_swap-err, Result-cases,
}

-- A compare-and-swap write either reports success, and then a row passed its comparison and the
-- rows and sessions are those of `after_swap`, or reports an error and changes nothing at all.
pub run_swap-atomic :
    (b : Backend) (io : Io) (s : Swap) (db : Db)
    → ((run_swap b io s db).0 ≡ ok tt)
        × (0 < count_where (applies s) db.users)
        × ((run_swap b io s db).1 ≡ after_swap s db)
      ⊎ ((e : Error) × ((run_swap b io s db).0 ≡ err e) × ((run_swap b io s db).1 ≡ db))
run_swap-atomic b io s db = elim (Result-cases (run_swap b io s db).0) [
  | inl e ↦ let (found, done) = run_swap-ok b io s db e in inl (e, found, done)
  | inr (x, e) ↦ inr (x, e, run_swap-err b io s db e)
]

abbrev pub sessions_of : String → List Session → ℕ
sessions_of id = count_where (λ s. s.user_id == id)

-- A compare-and-swap write that reports success and changes the role or the status from what the
-- caller read leaves the account no session, and every other account its sessions.
pub run_swap-revokes :
    (b : Backend) (io : Io) (s : Swap) (db : Db)
    → (run_swap b io s db).0 ≡ ok tt
    → keeps_access s ≡ false
    → (sessions_of (target s).id (run_swap b io s db).1.sessions ≡ 0)
      × ((other : String)
          → other ≢ (target s).id
          → sessions_of other (run_swap b io s db).1.sessions ≡ sessions_of other db.sessions)
run_swap-revokes b io s db e changed =
    rw ((run_swap-ok b io s db e).1, changed)
      (
        count-delete_self (λ x. x.user_id == (target s).id) db.sessions,
        λ other h.
            count-delete_other _ _ db.sessions
              λ x mine. ground (arith, eq_iff x.user_id other, eq_iff x.user_id (target s).id),
      )

applies-has_id : (s : Swap) (u : User) → applies s u ≡ true → has_id (target s).id u ≡ true
applies-has_id (profile now user pr ps) u h = ground arith
applies-has_id (scim_profile now user pr ps subject) u h = ground arith
applies-has_id (take_over now user pr ps) u h = ground arith
applies-has_id (role_only now user pr) u h = ground arith

applies_fresh :
    (s : Swap) (u : User)
    → (u.role == read_role s && u.status == read_status s) ≡ false
    → applies s u ≡ false
applies_fresh (profile now user pr ps) u h = ground arith
applies_fresh (scim_profile now user pr ps subject) u h = ground arith
applies_fresh (take_over now user pr ps) u h = ground arith
applies_fresh (role_only now user pr) u h = ground arith

-- Where ids are unique and the account's role or status is no longer what the caller read, the
-- write reports no success and changes nothing: a stale read puts back no privilege that another
-- write took away.
pub run_swap-stale :
    (b : Backend) (io : Io) (s : Swap) (db : Db) (u : User)
    → IsKeyed db.users
    → find_where (has_id (target s).id) db.users ≡ some u
    → (u.role == read_role s && u.status == read_status s) ≡ false
    → ((run_swap b io s db).0 ≢ ok tt) × ((run_swap b io s db).1 ≡ db)
run_swap-stale b io s db u keyed found stale = elim (run_swap-atomic b io s db) [
  | inl (e, pos, done) ↦ absurd (omega (arith, none_applies, pos))
  | inr (x, e, same) ↦ (λ h. cc (e, h), same)
]
  where
    none_applies : count_where (applies s) db.users ≡ 0
    none_applies =
        count-zero_of_find (applies s) _ db.users (applies-has_id s) (keyed (target s).id) found
          (applies_fresh s u stale)

-- The columns that no compare-and-swap write touches: the credentials and the sign-in identity.
abbrev pub credentials : User → String × String × String × Bool × String × ℕ × Option ℕ
credentials u = (
  u.id, u.password_hash, u.push_device_id, u.must_change_password, u.sso_provider, u.created_at,
  u.last_login_at,
)

-- The subject of an account that is not SCIM's own.
abbrev pub adopted_subject : User → Option String
adopted_subject u = if u.sso_provider == "scim" then none else some u.sso_subject

-- Whatever a compare-and-swap write reports, every account keeps its password hash, its device,
-- its identity provider and, unless SCIM still owns the row, its sign-in subject.
pub run_swap-credentials :
    (b : Backend) (io : Io) (s : Swap) (db : Db)
    → (map credentials (run_swap b io s db).1.users ≡ map credentials db.users)
      × (map adopted_subject (run_swap b io s db).1.users ≡ map adopted_subject db.users)
run_swap-credentials b io s db = elim (run_swap-atomic b io s db) [
  | inl (_, _, done) ↦ rw done (
    map-update credentials (applies s) (new_row s) db.users (kept s),
    map-update adopted_subject (applies s) (new_row s) db.users (kept_subject s),
  )
  | inr (_, _, same) ↦ rw same (refl, refl)
]
  where
    kept : (s : Swap) (u : User) → credentials (new_row s u) ≡ credentials u
    kept (profile now user pr ps) u = refl
    kept (scim_profile now user pr ps subject) u = refl
    kept (take_over now user pr ps) u = refl
    kept (role_only now user pr) u = refl

    kept_subject : (s : Swap) (u : User) → adopted_subject (new_row s u) ≡ adopted_subject u
    kept_subject (profile now user pr ps) u = refl
    kept_subject (scim_profile now user pr ps subject) u = ground arith
    kept_subject (take_over now user pr ps) u = refl
    kept_subject (role_only now user pr) u = refl
