-- ===== src/Store/Groups.antt =====
-- The group store of internal/store/sqlstore.go (groupStore). A group's members are the rows of
-- `group_members`, read and written apart from the group's row.
use ky_server_base.Prelude.{
  ℕ, String, Bool, not, ◌&&◌, Option, none, some, List, [], ◌∷◌, map, ◌==◌, ltb, if◌then◌else◌,
  length,
}
use ky_server_base.Prelude.Int.{ℤ}
use ky_server_base.Sql.{
  find_where, select_where, count_where, update_where, delete_where, any, unique_by, order_by, page,
}
use ky_server_base.Store.Models.{
  Group, Member, Db, Backend, Result, ok, err, db_error, not_found, already_exists,
}
use ky_server_base.Store.Tx.{
  Op, Io, write_row, read_row, count_row, read_members, ◌>>=◌, ◌>>◌, pure, fail, gets, modify, stmt,
  refuse,
}

-- A group as the store returns it, with the ids of its members.
pub record GroupView : Type 0 where
  pub group : Group
  pub members : List String

abbrev pub has_group_id : String → Group → Bool
has_group_id id g = g.id == id

-- The primary key and UNIQUE display_name.
groups_ok : List Group → Bool
unfolding unique_by
groups_ok rows = unique_by (λ g. g.id) rows && unique_by (λ g. g.display_name) rows

put_groups : Io → (List Group → List Group) → Op (Unit {0})
unfolding groups_ok
put_groups io f db =
    if io write_row
    then (err db_error, db)
    else if groups_ok (f db.groups)
    then (ok tt, record db { groups = f db.groups })
    else (err already_exists, db)

abbrev or_now : ℕ → ℕ → ℕ
or_now t now = if ltb 0 t then t else now

pub create_group : Io → ℕ → Group → Op (Unit {0})
unfolding put_groups
create_group io now g = put_groups io λ rows.
    record g { created_at = or_now g.created_at now; updated_at = or_now g.updated_at now } ∷ rows

abbrev pub member_of : String → Member → Bool
member_of group_id m = m.group_id == group_id

abbrev pub members_in : String → List Member → List String
members_in group_id rows = map (λ m. m.user_id) (select_where (member_of group_id) rows)

pub get_members : Io → String → Op (List String)
get_members io group_id = do stmt io read_members; gets (λ db. members_in group_id db.group_members)

or_not_found {ℓ} : {A : Type ℓ} → Option A → Op A
or_not_found none = fail not_found
or_not_found (some a) = pure a

get_group : Io → (Group → Bool) → Op GroupView
unfolding or_not_found get_members
get_group io p = do
  stmt io read_row
  found ← gets (λ db. find_where p db.groups)
  g ← or_not_found found
  members ← get_members io g.id
  pure (record { group = g; members = members })

unfoldable pub get_group_by_id : Io → String → Op GroupView
unfolding get_group
get_group_by_id io id = get_group io (has_group_id id)

pub get_group_by_name : Backend → Io → String → Op GroupView
unfolding get_group
get_group_by_name b io name = get_group io (λ g. b.lower g.display_name == b.lower name)

abbrev pub set_group : ℕ → Group → Group → Group
set_group now g row = record row {
  display_name = g.display_name;
  external_id = g.external_id;
  updated_at = now;
}

unfoldable pub update_group : Io → ℕ → Group → Op (Unit {0})
unfolding put_groups
update_group io now g = do
  rows ← gets (λ db. count_where (has_group_id g.id) db.groups)
  put_groups io (update_where (has_group_id g.id) (set_group now g))
  refuse (not (ltb 0 rows)) not_found

-- The membership rows go with the group (ON DELETE CASCADE).
pub delete_group : Io → String → Op (Unit {0})
delete_group io id = do
  stmt io write_row
  rows ← gets (λ db. count_where (has_group_id id) db.groups)
  modify (λ db. record db {
    groups = delete_where (has_group_id id) db.groups;
    group_members = delete_where (member_of id) db.group_members;
  })
  refuse (not (ltb 0 rows)) not_found

-- The members of a listed group; an error of that query leaves them out.
or_none : Result (List String) × Db → List String
or_none (ok ids, db) = ids
or_none (err e, db) = []

pub list_groups : Backend → Io → ℤ → ℤ → Op (List GroupView × ℕ)
unfolding get_members or_none
list_groups b io offset limit = do
  stmt io count_row
  count ← gets (λ db. length db.groups)
  stmt io read_row
  views ← gets (λ db.
      map (λ g. record { group = g; members = or_none (get_members io g.id db) })
        (page offset limit (order_by (λ x y. b.leq x.display_name y.display_name) db.groups)))
  pure (views, count)

abbrev pub is_member : String → String → Member → Bool
is_member group_id user_id m = member_of group_id m && m.user_id == user_id

-- Both ids must exist (FOREIGN KEY); a row that is there stays as it is (ON CONFLICT DO NOTHING).
unfoldable pub add_group_member : Io → String → String → Op (Unit {0})
unfolding any
add_group_member io group_id user_id db =
    if io write_row
    then (err db_error, db)
    else if any (is_member group_id user_id) db.group_members
    then (ok tt, db)
    else if any (has_group_id group_id) db.groups && any (λ u. u.id == user_id) db.users
    then (
      ok tt,
      record db {
        group_members = record { group_id = group_id; user_id = user_id } ∷ db.group_members;
      },
    )
    else (err db_error, db)

unfoldable pub remove_group_member : Io → String → String → Op (Unit {0})
remove_group_member io group_id user_id = do
  stmt io write_row
  modify (λ db. record db {
    group_members = delete_where (is_member group_id user_id) db.group_members;
  })

pub get_user_groups : Backend → Io → String → Op (List Group)
get_user_groups b io user_id = do
  stmt io read_row
  gets (λ db.
      order_by (λ x y. b.leq x.display_name y.display_name)
        (select_where (λ g. any (is_member g.id user_id) db.group_members) db.groups))
