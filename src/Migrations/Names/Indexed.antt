-- ===== src/Migrations/Names/Indexed.antt =====
-- What EnsureUsernameIndex leaves (internal/store/migrations/migrations.go).
use ky_server_base.Prelude.{
  ◌≤◌, String, ◌≡◌, refl, sym, ap, ◌∙◌, inl, inr, Bool, true, false, not, ◌&&◌, ◌||◌, List, [], ◌∷◌,
  arith, ◌==◌, eq_iff, ltb, ltb→lt, Bool-cases,
}
use ky_server_base.Sql.{select_where, count_where, unique_by, order_by, any}
use ky_server_base.Sql.Laws.{count_mono}
use ky_server_base.Store.Models.{User, Db, Backend, Result, ok, err, users_ok}
use ky_server_base.Store.Tx.{Io, read_row, write_row}
use ky_server_base.Store.Users.{same_name}
use ky_server_base.Store.Users.Names.{holders}
use ky_server_base.Migrations.Names.{
  is_shared, shared_names, names_of, comes_before, group_names, answer_clashes, build_index,
  ensure_username_index,
}
use ky_server_base.Migrations.Names.Listed.{times_all, reported-times}

-- Where no account is reported, no account shares its name.
count-reported :
    (p : User → Bool) (rows : List User)
    → ((name : String) → count_where (λ u. p u && u.username == name) rows ≡ 0)
    → count_where p rows ≡ 0
unfolding count_where
count-reported p [] h = refl
count-reported p (u ∷ us) h = ground (
  arith,
  h u.username,
  eq_iff u.username u.username,
  count-reported p us (λ name. ground (arith, h name)),
)

-- No name is held twice, in any letter case.
holders-le :
    (b : Backend) (rows : List User)
    → count_where (is_shared b rows) rows ≡ 0
    → (name : String) → holders b name rows ≤ 1
holders-le b rows none_shared name = elim (Bool-cases (ltb 1 (holders b name rows))) [
  | inr few ↦ ground arith
  | inl many ↦ absurd (
      omega (
        arith,
        ltb→lt 1 (holders b name rows) many,
        count_mono (same_name b name) (is_shared b rows) rows (λ x same.
            ap (λ (s : String). ltb 1 (count_where (λ u. b.lower u.username == s) rows))
              ((eq_iff (b.lower x.username) (b.lower name)).0 same)
            ∙ many),
      ))
]

any-count {ℓ} : {A : Type ℓ} (p : A → Bool) (xs : List A) → count_where p xs ≡ 0 → any p xs ≡ false
unfolding any count_where
any-count p [] h = refl
any-count p (x ∷ xs) h = ground (arith, any-count p xs)

unique-holders :
    (b : Backend) (rows : List User)
    → ((name : String) → holders b name rows ≤ 1)
    → unique_by (λ u. b.lower u.username) rows ≡ true
unfolding unique_by count_where
unique-holders b [] h = refl
unique-holders b (u ∷ us) h =
    let fresh : count_where (λ y. b.lower y.username == b.lower u.username) us ≡ 0 =
      ground (arith, h u.username, eq_iff (b.lower u.username) (b.lower u.username)) in
    rw (any-count (λ y. b.lower y.username == b.lower u.username) us fresh)
      (unique-holders b us (λ name. ground (arith, h name)))

-- What the answer says of the database that the server found and of the one that it goes on with.
abbrev pub IsEnsured : Backend → Db → Result (List (List String)) × Db → Type 0
IsEnsured b db (ok [], after) =
    ((name : String) → holders b name db.users ≤ 1) × (after ≡ record db { username_index = true })
IsEnsured b db (ok (names ∷ clashes), after) =
    ((name : String)
      → times_all name (names ∷ clashes)
        ≡ count_where (λ u. is_shared b db.users u && u.username == name) db.users)
    × (after ≡ db)
IsEnsured b db (err e, after) = after ≡ db

build_index-IsEnsured :
    (b : Backend) (io : Io) (db : Db)
    → ((name : String) → holders b name db.users ≤ 1)
    → IsEnsured b db (build_index b io db)
build_index-IsEnsured b io db few =
    elim (Bool-cases (io write_row || not (unique_by (λ u. b.lower u.username) db.users))) [
      | inl failed ↦ rw failed refl
      | inr built ↦ rw built (few, refl)
    ]

answer_clashes-IsEnsured :
    (b : Backend) (io : Io) (db : Db) (clashes : List (List String))
    → ((name : String)
        → times_all name clashes
          ≡ count_where (λ u. is_shared b db.users u && u.username == name) db.users)
    → IsEnsured b db (answer_clashes b io db clashes)
unfolding times_all
answer_clashes-IsEnsured b io db [] h =
    build_index-IsEnsured b io db (
      holders-le b db.users (count-reported (is_shared b db.users) db.users (λ name. sym (h name))))
answer_clashes-IsEnsured b io db (names ∷ clashes) h = (h, refl)

-- A start that reports no clash found no two accounts with one name, in any letter case, and has
-- built the index; one that reports clashes names each account that shares its name as often as it
-- stands in the table, and no other, and changed nothing; one that fails changed nothing.
pub ensure_username_index-IsEnsured :
    (b : Backend) (to_lower : String → String) (io : Io) (db : Db)
    → IsEnsured b db (ensure_username_index b to_lower io db)
unfolding ensure_username_index
ensure_username_index-IsEnsured b to_lower io db = elim (Bool-cases (io read_row)) [
  | inl failed ↦ rw failed refl
  | inr read ↦ rw read (
      answer_clashes-IsEnsured b io db (group_names to_lower (shared_names b db.users) [] [])
        (λ name. reported-times b to_lower name db.users))
]

select_none {ℓ} :
    {A : Type ℓ} (p : A → Bool) (xs : List A) → ((x : A) → p x ≡ false) → select_where p xs ≡ []
unfolding select_where
select_none p [] h = refl
select_none p (x ∷ xs) h = rw (h x) (select_none p xs h)

shared_none :
    (b : Backend) (rows : List User)
    → ((name : String) → holders b name rows ≤ 1)
    → shared_names b rows ≡ []
unfolding shared_names order_by names_of
shared_none b rows few =
    ap (λ (us : List User). names_of (order_by (comes_before b) us))
      (select_none (is_shared b rows) rows (λ u. ground (arith, few u.username)))

-- Where no two accounts share a name and no statement fails, the index is built, and the table
-- keeps its constraints with it.
pub ensure_username_index-builds :
    (b : Backend) (to_lower : String → String) (io : Io) (db : Db)
    → io read_row ≡ false
    → io write_row ≡ false
    → users_ok b.lower false db.users ≡ true
    → ((name : String) → holders b name db.users ≤ 1)
    → (ensure_username_index b to_lower io db ≡ (ok [], record db { username_index = true }))
      × (users_ok b.lower true db.users ≡ true)
unfolding ensure_username_index users_ok
ensure_username_index-builds b to_lower io db read write fine few = (
  rw (read, shared_none b db.users few) (rw (write, unique-holders b db.users few) refl),
  ground (arith, unique-holders b db.users few),
)
