-- ===== src/Store/Users/Names.antt =====
-- Names that differ only in letter case: userStore.checkUsernameFree and the writes that call it.
use ky_server_base.Prelude.{
  ℕ, ◌+◌, ◌≤◌, ◌<◌, max, String, ◌≡◌, refl, ap, ◌⊎◌, inl, inr, Bool, true, false, not, ◌&&◌, List,
  [], ◌∷◌, arith, ◌==◌, eq_iff, Bool-cases,
}
use ky_server_base.Sql.{count_where, update_where}
use ky_server_base.Store.Models.{Error, User, Db, Backend, Result, ok, err}
use ky_server_base.Store.Tx.{Io, transaction, transaction-rollback}
use ky_server_base.Store.Users.{
  check_username_free, create_user, update_user, put_users, same_name, has_id, stamped, set_user,
}

-- How many accounts hold the name, in any letter case.
abbrev pub holders : Backend → String → List User → ℕ
holders b name = count_where (same_name b name)

-- Ids are a primary key.
abbrev pub IsKeyed : List User → Type 0
IsKeyed rows = (id : String) → count_where (has_id id) rows ≤ 1

pub check_username_free-state :
    (b : Backend) (io : Io) (name id : String) (db : Db)
    → (check_username_free b io name id db).1 ≡ db
unfolding check_username_free
check_username_free-state b io name id db = ground arith

-- After a passed check the account holds the name already, or nobody else does.
pub check_username_free-ok :
    (b : Backend) (io : Io) (name id : String) (db : Db)
    → (check_username_free b io name id db).0 ≡ ok tt
    → (0 < count_where (λ u. has_id id u && same_name b name u) db.users)
      ⊎ (count_where (λ u. same_name b name u && not (has_id id u)) db.users ≡ 0)
unfolding check_username_free
check_username_free-ok b io name id db h = ground arith

-- Whoever holds the name is the account itself or another one.
holders_split :
    (b : Backend) (name id : String) (rows : List User)
    → holders b name rows
      ≡ count_where (λ u. has_id id u && same_name b name u) rows
        + count_where (λ u. same_name b name u && not (has_id id u)) rows
unfolding count_where
holders_split b name id [] = omega arith
holders_split b name id (u ∷ us) = ground (arith, holders_split b name id us)

own-le :
    (b : Backend) (name id : String) (rows : List User)
    → count_where (λ u. has_id id u && same_name b name u) rows ≤ count_where (has_id id) rows
unfolding count_where
own-le b name id [] = omega arith
own-le b name id (u ∷ us) = ground (arith, own-le b name id us)

-- Two texts with one lowered form are the same name.
same_name_trans :
    (b : Backend) (name other : String) (u : User)
    → (b.lower name == b.lower other) ≡ true
    → same_name b name u ≡ same_name b other u
same_name_trans b name other u h = ground (
  arith,
  eq_iff (b.lower name) (b.lower other),
  eq_iff (b.lower u.username) (b.lower name),
  eq_iff (b.lower u.username) (b.lower other),
)

taken_same :
    (b : Backend) (id name k : String) (rows : List User)
    → (b.lower name == b.lower k) ≡ true
    → (count_where (λ u. same_name b k u && not (has_id id u)) rows
        ≡ count_where (λ u. same_name b name u && not (has_id id u)) rows)
      × (holders b k rows ≡ holders b name rows)
unfolding count_where
taken_same b id name k [] h = (refl, refl)
taken_same b id name k (u ∷ us) h =
    ground (arith, taken_same b id name k us h, same_name_trans b name k u h)

-- A write of one account's row, under any further test, that gives it a name.
module _ (b : Backend) (id name : String) (p : User → Bool) (f : User → User)
    (own_row : (u : User) → p u ≡ true → has_id id u ≡ true)
    (renames : (u : User) → (f u).username ≡ name) where
  named : (k : String) (u : User) → same_name b k (f u) ≡ (b.lower name == b.lower k)
  named k u = ap (λ (s : String). b.lower s == b.lower k) (renames u)

  holders-update_same :
      (k : String) (rows : List User)
      → holders b k (update_where p f rows)
        ≤ count_where (λ u. same_name b k u && not (has_id id u)) rows
          + count_where (has_id id) rows
  unfolding count_where update_where
  holders-update_same k [] = omega arith
  holders-update_same k (u ∷ us) = ground (arith, holders-update_same k us, own_row u)

  holders-update_other :
      (k : String) (rows : List User)
      → (b.lower name == b.lower k) ≡ false
      → holders b k (update_where p f rows) ≤ holders b k rows
  unfolding count_where update_where
  holders-update_other k [] h = omega arith
  holders-update_other k (u ∷ us) h = ground (arith, holders-update_other k us h, named k u)

  -- A name that the check let pass is no new clash.
  pub holders-update-le :
      (rows : List User)
      → IsKeyed rows
      → (0 < count_where (λ u. has_id id u && same_name b name u) rows)
        ⊎ (count_where (λ u. same_name b name u && not (has_id id u)) rows ≡ 0)
      → (k : String) → holders b k (update_where p f rows) ≤ max 1 (holders b k rows)
  holders-update-le rows keyed free k = elim (Bool-cases (b.lower name == b.lower k)) [
    | inl h ↦ omega (
      arith,
      holders-update_same k rows,
      taken_same b id name k rows h,
      holders_split b name id rows,
      own-le b name id rows,
      keyed id,
      free,
    )
    | inr h ↦ omega (arith, holders-update_other k rows h)
  ]

pub create_user-ok :
    (b : Backend) (io : Io) (now : ℕ) (user : User) (db : Db)
    → (create_user b io now user db).0 ≡ ok tt
    → ((check_username_free b io user.username "" db).0 ≡ ok tt)
      × ((create_user b io now user db).1 ≡ record db { users = stamped now user ∷ db.users })
unfolding create_user transaction put_users
create_user-ok b io now user db e =
    ground (arith, check_username_free-state b io user.username "" db)

-- A new row under a name that the check let pass.
holders-cons-le :
    (b : Backend) (row : User) (rows : List User)
    → count_where (has_id "") rows ≡ 0
    → (0 < count_where (λ u. has_id "" u && same_name b row.username u) rows)
      ⊎ (count_where (λ u. same_name b row.username u && not (has_id "" u)) rows ≡ 0)
    → (k : String) → holders b k (row ∷ rows) ≤ max 1 (holders b k rows)
unfolding count_where
holders-cons-le b row rows empty free k = elim (Bool-cases (same_name b k row)) [
  | inl h ↦ rw h (
      omega (
        arith,
        taken_same b "" row.username k rows h,
        holders_split b row.username "" rows,
        own-le b row.username "" rows,
        empty,
        free,
      ))
  | inr h ↦ rw h (omega arith)
]

-- Where no account has the empty id, a successful CreateUser leaves every name, in any letter case,
-- at most one holder or at most as many as it had, whether or not the index on LOWER(username)
-- exists.
pub create_user-holders :
    (b : Backend) (io : Io) (now : ℕ) (user : User) (db : Db)
    → count_where (has_id "") db.users ≡ 0
    → (create_user b io now user db).0 ≡ ok tt
    → (k : String)
    → holders b k (create_user b io now user db).1.users ≤ max 1 (holders b k db.users)
create_user-holders b io now user db h e k =
    let (passed, done) = create_user-ok b io now user db e in
    rw done (
      holders-cons-le b (stamped now user) db.users h
        (check_username_free-ok b io user.username "" db passed) k)

update_user-ok :
    (b : Backend) (io : Io) (now : ℕ) (user : User) (db : Db)
    → (update_user b io now user db).0 ≡ ok tt
    → ((check_username_free b io user.username user.id db).0 ≡ ok tt)
      × ((update_user b io now user db).1
          ≡ record db { users = update_where (has_id user.id) (set_user now user) db.users })
unfolding update_user transaction put_users
update_user-ok b io now user db e =
    ground (arith, check_username_free-state b io user.username user.id db)

-- Where ids are unique, a successful UpdateUser leaves every name, in any letter case, at most one
-- holder or at most as many as it had.
pub update_user-holders :
    (b : Backend) (io : Io) (now : ℕ) (user : User) (db : Db)
    → IsKeyed db.users
    → (update_user b io now user db).0 ≡ ok tt
    → (k : String)
    → holders b k (update_user b io now user db).1.users ≤ max 1 (holders b k db.users)
update_user-holders b io now user db keyed e k =
    let (passed, done) = update_user-ok b io now user db e in
    rw done (
      holders-update-le b user.id user.username (has_id user.id) (set_user now user) (λ u h. h)
        (λ u. refl) db.users keyed (check_username_free-ok b io user.username user.id db passed) k)

Done-cases : (r : Result (Unit {0})) → (r ≡ ok tt) ⊎ ((e : Error) × (r ≡ err e))
Done-cases (ok tt) = inl refl
Done-cases (err e) = inr (e, refl)

-- CreateUser adds the row, or reports an error and changes nothing.
pub create_user-cases :
    (b : Backend) (io : Io) (now : ℕ) (user : User) (db : Db)
    → ((create_user b io now user db).1 ≡ record db { users = stamped now user ∷ db.users })
      ⊎ ((create_user b io now user db).1 ≡ db)
create_user-cases b io now user db = elim (Done-cases (create_user b io now user db).0) [
  | inl e ↦ inl (create_user-ok b io now user db e).1
  | inr (x, e) ↦ inr (unfold create_user in transaction-rollback io _ db e)
]
