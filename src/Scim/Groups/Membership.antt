-- ===== src/Scim/Groups/Membership.antt =====
-- The members of a group after replaceMembers, and who may become one.
use ky_server_base.Prelude.{
  ℕ, ◌+◌, String, ◌≡◌, refl, sym, ap, ◌∙◌, Bool, true, false, not, ◌&&◌, ◌||◌, Option, none, some,
  List, [], ◌∷◌, arith, ◌==◌, eq_iff, if◌then◌else◌,
}
use ky_server_base.Sql.{any, delete_where, find_where, select_where}
use ky_server_base.Sql.Laws.{find-some}
use ky_server_base.Store.Models.{User, Group, Member, Db, Result, ok, err}
use ky_server_base.Store.Tx.{Io}
use ky_server_base.Store.Users.{has_id, get_user_by_id}
use ky_server_base.Scim.Users.{done, Calls}
use ky_server_base.Store.Groups.{
  is_member, members_in, add_group_member, remove_group_member, has_group_id, GroupView,
  get_group_by_id, update_group,
}
use ky_server_base.Scim.Groups.{
  Fields, GroupCalls, member_ok, replace, put_group, replaced, members_attr, contains,
  remove_members, add_members, replace_members, check_members,
}

-- Whether a user is in a group.
abbrev pub joined : String → String → Db → Bool
joined group_id user_id db = any (is_member group_id user_id) db.group_members

abbrev both : String → String → String → String → Bool
both g u h v = g == h && u == v

any-delete_member :
    (g u h v : String) (rows : List Member)
    → any (is_member h v) (delete_where (is_member g u) rows)
      ≡ (not (both g u h v) && any (is_member h v) rows)
unfolding any delete_where
any-delete_member g u h v [] = ground arith
any-delete_member g u h v (m ∷ rows) = ground (
  arith,
  any-delete_member g u h v rows,
  eq_iff m.group_id g,
  eq_iff m.group_id h,
  eq_iff g h,
  eq_iff m.user_id u,
  eq_iff m.user_id v,
  eq_iff u v,
)

joined-remove :
    (io : Io) (g u h v : String) (db : Db)
    → (remove_group_member io g u db).0 ≡ ok tt
    → joined h v (remove_group_member io g u db).1 ≡ (not (both g u h v) && joined h v db)
unfolding remove_group_member
joined-remove io g u h v db e = ground (arith, any-delete_member g u h v db.group_members)

joined-add :
    (io : Io) (g u h v : String) (db : Db)
    → (add_group_member io g u db).0 ≡ ok tt
    → joined h v (add_group_member io g u db).1 ≡ (both g u h v || joined h v db)
unfolding add_group_member any
joined-add io g u h v db e = ground (arith, eq_iff g h, eq_iff u v)

-- A loop that reports success removed exactly the old members that are not to stay.
joined-remove_members :
    (io : Calls) (n : ℕ) (g : String) (next old : List String) (h v : String) (db : Db)
    → (remove_members io n g next old db).0 ≡ ok tt
    → joined h v (remove_members io n g next old db).1
      ≡ (not (g == h && (contains old v && not (contains next v))) && joined h v db)
unfolding remove_members contains
joined-remove_members io n g next [] h v db e = ground arith
joined-remove_members io n g next (id ∷ old) h v db e = ground (
  arith,
  eq_iff id v,
  joined-remove_members io (n + 1) g next old h v db,
  joined-remove (io n) g id h v db,
  joined-remove_members io (n + 1) g next old h v (remove_group_member (io n) g id db).1,
)

-- A loop that reports success added exactly the next members that were not there.
joined-add_members :
    (io : Calls) (n : ℕ) (g : String) (old next : List String) (h v : String) (db : Db)
    → (add_members io n g old next db).0 ≡ ok tt
    → joined h v (add_members io n g old next db).1
      ≡ ((g == h && (contains next v && not (contains old v))) || joined h v db)
unfolding add_members contains
joined-add_members io n g old [] h v db e = ground arith
joined-add_members io n g old (id ∷ next) h v db e = ground (
  arith,
  eq_iff id v,
  joined-add_members io (n + 1) g old next h v db,
  joined-add (io n) g id h v db,
  joined-add_members io (n + 1) g old next h v (add_group_member (io n) g id db).1,
)

-- Where `old` lists the group's members, replaceMembers that reports success makes `next` its
-- members, as a set, and changes no other group.
pub replace_members-joined :
    (remove_io add_io : Calls) (g : String) (old next : List String) (h v : String) (db : Db)
    → ((u : String) → joined g u db ≡ contains old u)
    → (replace_members remove_io add_io g old next db).0 ≡ ok tt
    → joined h v (replace_members remove_io add_io g old next db).1
      ≡ (if g == h then contains next v else joined h v db)
unfolding replace_members
replace_members-joined remove_io add_io g old next h v db listed e = ground (
  arith,
  eq_iff g h,
  listed v,
  joined-remove_members remove_io 0 g next old h v db,
  joined-add_members add_io 0 g old next h v (remove_members remove_io 0 g next old db).1,
)

contains-members_in :
    (g u : String) (rows : List Member) → contains (members_in g rows) u ≡ any (is_member g u) rows
unfolding contains any select_where
contains-members_in g u [] = refl
contains-members_in g u (m ∷ rows) = ground (arith, contains-members_in g u rows)

get_user_by_id-state : (io : Io) (id : String) (db : Db) → (get_user_by_id io id db).1 ≡ db
unfolding get_user_by_id
get_user_by_id-state io id db = ground arith

pub check_members-state :
    (io : Calls) (n : ℕ) (old next : List String) (db : Db)
    → (check_members io n old next db).1 ≡ db
unfolding check_members
check_members-state io n old [] db = refl
check_members-state io n old (id ∷ next) db =
    ground (arith, check_members-state io (n + 1) old next db, get_user_by_id-state (io n) id db)

-- Whether SCIM manages the first account of an id.
abbrev managed_one : Option User → Bool
managed_one none = false
managed_one (some u) = u.scim_managed

pub is_managed : String → Db → Bool
is_managed id db = managed_one (find_where (has_id id) db.users)

member_ok-managed :
    (io : Io) (id : String) (db : Db)
    → (member_ok (get_user_by_id io id db)).0 ≡ done tt
    → is_managed id db ≡ true
unfolding get_user_by_id is_managed
member_ok-managed io id db e = ground arith

-- A member check that passes found every new member among the accounts that SCIM manages.
check_members-managed :
    (io : Calls) (n : ℕ) (old next : List String) (v : String) (db : Db)
    → (check_members io n old next db).0 ≡ done tt
    → contains next v ≡ true
    → contains old v ≡ false
    → is_managed v db ≡ true
unfolding check_members contains
check_members-managed io n old [] v db e h fresh = absurd (cc h)
check_members-managed io n old (id ∷ next) v db e h fresh = ground (
  arith,
  eq_iff id v,
  get_user_by_id-state (io n) id db,
  member_ok-managed (io n) id db,
  check_members-managed io (n + 1) old next v db,
)

get_group_by_id-found :
    (io : Io) (id : String) (db : Db) (g : GroupView)
    → (get_group_by_id io id db).0 ≡ ok g
    → (find_where (has_group_id id) db.groups ≡ some g.group)
      × (g.members ≡ members_in g.group.id db.group_members)
unfolding get_group_by_id
get_group_by_id-found io id db g e = ground arith

get_group_by_id-ok :
    (io : Io) (id : String) (db : Db) (g : GroupView)
    → (get_group_by_id io id db).0 ≡ ok g
    → (g.group.id ≡ id) × (g.members ≡ members_in id db.group_members)
get_group_by_id-ok io id db g e =
    let (found, members) = get_group_by_id-found io id db g e in
    let same = (eq_iff g.group.id id).0 (find-some (has_group_id id) db.groups found) in
    (same, members ∙ ap (λ (x : String). members_in x db.group_members) same)

pub get_group_by_id-state : (io : Io) (id : String) (db : Db) → (get_group_by_id io id db).1 ≡ db
unfolding get_group_by_id
get_group_by_id-state io id db = ground arith

update_group-members :
    (io : Io) (now : ℕ) (g : Group) (db : Db)
    → ((update_group io now g db).1.group_members ≡ db.group_members)
      × ((update_group io now g db).1.users ≡ db.users)
unfolding update_group
update_group-members io now g db = ground arith

put_group-joined :
    (io : GroupCalls) (now : ℕ) (id : String) (old new : GroupView) (db : Db) (r : GroupView)
    (h v : String)
    → ((u : String) → joined id u db ≡ contains old.members u)
    → (put_group io now id old new db).0 ≡ done r
    → (joined h v (put_group io now id old new db).1
        ≡ (if id == h then contains new.members v else joined h v db))
      × ((check_members io.check 0 old.members new.members db).0 ≡ done tt)
unfolding put_group
put_group-joined io now id old new db r h v listed e =
    let written : Db = (update_group io.write now new.group db).1 in
    let kept = update_group-members io.write now new.group db in
    let same =
      λ (u : String). ap (λ (ms : List Member). any (is_member id u) ms) kept.0 ∙ listed u in
    ground (
      arith,
      check_members-state io.check 0 old.members new.members db,
      kept,
      replace_members-joined io.removes io.adds id old.members new.members h v written same,
    )

-- What a successful replace read first.
replace-reads :
    (io : GroupCalls) (now : ℕ) (id : String) (attrs : Fields) (db : Db) (r : GroupView)
    → (replace io now id attrs db).0 ≡ done r
    → (g : GroupView) × ((get_group_by_id io.again id db).0 ≡ ok g)
      × (replace io now id attrs db ≡ put_group io now id g (replaced attrs g) db)
replace-reads io now id attrs db r e = go (get_group_by_id io.again id db).0 refl
  where
    go :
        (x : Result GroupView)
        → (get_group_by_id io.again id db).0 ≡ x
        → (g : GroupView) × ((get_group_by_id io.again id db).0 ≡ ok g)
          × (replace io now id attrs db ≡ put_group io now id g (replaced attrs g) db)
    go (ok g) h = (g, h, unfold replace in ground (arith, get_group_by_id-state io.again id db))
    go (err x) h = absurd (unfold replace in ground arith)

-- A PUT of a group that reports success makes the members that it names the group's members, as a
-- set, leaves every other group's members as they are, and every named member that the group did
-- not have is an account that SCIM manages.
pub replace-members :
    (io : GroupCalls) (now : ℕ) (id : String) (attrs : Fields) (db : Db) (r : GroupView)
    (h v : String)
    → (replace io now id attrs db).0 ≡ done r
    → (joined h v (replace io now id attrs db).1
        ≡ (if id == h then contains (members_attr attrs) v else joined h v db))
      × (contains (members_attr attrs) v ≡ true → joined id v db ≡ false → is_managed v db ≡ true)
replace-members io now id attrs db r h v e =
    let (g, read, same) = replace-reads io now id attrs db r e in
    let (_, members) = get_group_by_id-ok io.again id db g read in
    let listed = λ (u : String).
      sym (contains-members_in id u db.group_members)
      ∙ ap (λ (ms : List String). contains ms u) (sym members) in
    let (after, checked) =
      put_group-joined io now id g (replaced attrs g) db r h v listed (rw same at e) in
    (
      rw same after,
      λ named fresh.
          check_members-managed io.check 0 g.members (members_attr attrs) v db checked named
            (sym (listed v) ∙ fresh),
    )
