-- ===== src/Scim/Groups.antt =====
-- The SCIM group handlers of internal/scim/handler.go: Create, Get, Replace, Patch, Delete, the
-- member check and the difference-only member writes. The handler's mutex serialises Replace and
-- Patch, and no other request writes within one of them here.
pub mod Membership
pub mod Refusals
use ky_server_base.Prelude.{
  ℕ, ◌+◌, String, Bool, true, false, not, ◌&&◌, ◌||◌, Option, none, some, List, [], ◌∷◌, ◌++◌, ◌==◌,
  if◌then◌else◌,
}
use ky_server_base.Store.Models.{User, Group, Db, Result, ok, err, not_found}
use ky_server_base.Store.Tx.{Op, Io}
use ky_server_base.Store.Tx
use ky_server_base.Store.Users.{get_user_by_id}
use ky_server_base.Store.Groups.{
  GroupView, create_group, get_group_by_id, update_group, delete_group, add_group_member,
  remove_group_member,
}
use ky_server_base.Scim.Values.{
  Value, Fields, null, str, obj, end, field, get, string_value, member_values, member_maps,
}
use ky_server_base.Scim.Patch.{
  Strings, invalid_value, invalid_path, store_error, PatchOp, add, remove, PatchPath,
  PatchOperation, selector, is_remove, is_none,
}
use ky_server_base.Scim.Users.{
  Answer, done, failed, Handler, go_on, ◌>>=◌, ◌>>◌, answer, reject, stored_as, scim_store_error,
  Calls,
}

-- slices.Contains
unfoldable pub contains : List String → String → Bool
contains [] id = false
contains (x ∷ xs) id = x == id || contains xs id

-- The result of looking up one new member.
abbrev pub member_ok : Result User × Db → Answer (Unit {0}) × Db
member_ok (ok u, db) = ((if u.scim_managed then done tt else failed invalid_value), db)
member_ok (err not_found, db) = (failed invalid_value, db)
member_ok (err e, db) = (failed (store_error e), db)

-- The n-th lookup of the loop fails as `io n` says.
unfoldable pub check_members : Calls → ℕ → List String → List String → Handler (Unit {0})
unfolding contains
check_members io n old [] = answer tt
check_members io n old (id ∷ next) =
    let rest = check_members io (n + 1) old next in
    λ db.
      if contains old id
      then rest db
      else go_on (member_ok (get_user_by_id (io n) id db)) (λ _. rest)

-- The members of `old` that are not in `next` are removed.
unfoldable pub remove_members : Calls → ℕ → String → List String → List String → Op (Unit {0})
unfolding contains
remove_members io n group_id next [] db = (ok tt, db)
remove_members io n group_id next (id ∷ old) db =
    if contains next id
    then remove_members io (n + 1) group_id next old db
    else Tx.continue (remove_group_member (io n) group_id id db)
        (λ _. remove_members io (n + 1) group_id next old)

-- The members of `next` that are not in `old` are added.
unfoldable pub add_members : Calls → ℕ → String → List String → List String → Op (Unit {0})
unfolding contains
add_members io n group_id old [] db = (ok tt, db)
add_members io n group_id old (id ∷ next) db =
    if contains old id
    then add_members io (n + 1) group_id old next db
    else Tx.continue (add_group_member (io n) group_id id db)
        (λ _. add_members io (n + 1) group_id old next)

unfoldable pub replace_members : Calls → Calls → String → List String → List String → Op (Unit {0})
unfolding remove_members add_members
replace_members remove_io add_io group_id old next db =
    Tx.continue (remove_members remove_io 0 group_id next old db)
      (λ _. add_members add_io 0 group_id old next)

-- The failing statements of a group request's store calls, loop by loop.
pub record GroupCalls : Type 0 where
  pub read : Io
  pub again : Io
  pub check : Calls
  pub write : Io
  pub removes : Calls
  pub adds : Calls

abbrev pub members_attr : Fields → List String
members_attr attrs = elim (get "members" attrs) [ none ↦ [] | some v ↦ member_values v ]

unfoldable pub create : GroupCalls → ℕ → String → Fields → Handler GroupView
unfolding get string_value member_values check_members replace_members scim_store_error
create io now id attrs =
    let group : Group = record {
      id = id;
      display_name = string_value attrs "displayName" "";
      external_id = string_value attrs "externalId" "";
      created_at = 0;
      updated_at = 0;
    } in
    let members = members_attr attrs in
    do
      check_members io.check 0 [] members
      stored_as scim_store_error (create_group io.write now group)
      stored_as store_error (replace_members io.removes io.adds id [] members)
      answer (record {
        group = record group { created_at = now; updated_at = now };
        members = members;
      })

pub get_group : Io → String → Handler GroupView
unfolding scim_store_error
get_group io id = stored_as scim_store_error (get_group_by_id io id)

-- The group that a PUT makes of the one that was read.
abbrev pub replaced : Fields → GroupView → GroupView
replaced attrs g = record {
  group = record g.group {
    display_name = string_value attrs "displayName" g.group.display_name;
    external_id = string_value attrs "externalId" g.group.external_id;
  };
  members = members_attr attrs;
}

-- Its writes, after the read.
unfoldable pub put_group : GroupCalls → ℕ → String → GroupView → GroupView → Handler GroupView
unfolding check_members replace_members scim_store_error
put_group io now id old new = do
  check_members io.check 0 old.members new.members
  stored_as scim_store_error (update_group io.write now new.group)
  stored_as store_error (replace_members io.removes io.adds id old.members new.members)
  answer (record new { group = record new.group { updated_at = now } })

unfoldable pub replace : GroupCalls → ℕ → String → Fields → Handler GroupView
unfolding put_group scim_store_error
replace io now id attrs = do
  g ← stored_as scim_store_error (get_group_by_id io.again id)
  put_group io now id g (replaced attrs g)

unfoldable pub delete : Io → String → Handler (Unit {0})
unfolding scim_store_error
delete io id = stored_as scim_store_error (delete_group io id)

-- What PATCH computes before it writes.
pub record Draft : Type 0 where
  pub display_name : String
  pub external_id : String
  pub members : List String

unfoldable pub append_new : List String → List String → List String
unfolding contains
append_new members [] = members
append_new members (m ∷ ms) =
    append_new (if contains members m then members else members ++ m ∷ []) ms

unfoldable pub without : List String → List String → List String
unfolding contains
without gone [] = []
without gone (m ∷ ms) = let rest = without gone ms in if contains gone m then rest else m ∷ rest

abbrev is_null : Value → Bool
is_null null = true
is_null _ = false

abbrev set_text : PatchOp → Value → Draft → (String → Draft) → Draft
set_text o (str s) d f = if is_remove o then d else f s
set_text o _ d f = d

unfoldable pub set_members : PatchOp → Value → List String → List String
unfolding append_new without member_values
set_members add value members = append_new members (member_values value)
set_members remove value members =
    without (member_values value) (if is_null value then [] else members)
set_members _ value members = member_values value

unfoldable pub apply : PatchOp → String → Value → Draft → Draft
unfolding set_members
apply o attr value d =
    if attr == "displayname"
    then set_text o value d (λ s. record d { display_name = s })
    else if attr == "externalid"
    then set_text o value d (λ s. record d { external_id = s })
    else if attr == "members"
    then record d { members = set_members o value d.members }
    else d

-- The attributes of a value without a path, in the order of the map; `none` is an invalid path.
unfoldable pub apply_fields : Strings → PatchOp → Fields → Draft → Option Draft
unfolding apply
apply_fields lib o end d = some d
apply_fields lib o (field key value rest) d =
    let attr = lib.to_lower key in
    let more = apply_fields lib o rest (apply o attr value d) in
    if not (attr == "members") && lib.contains attr "members" then none else more

abbrev fields_of : Value → Fields
fields_of (obj m) = m
fields_of _ = end

abbrev is_some : Option String → Bool
is_some o = not (is_none o)

-- `members[value eq "id"]`
abbrev remove_selected : PatchOp → Option (String × String) → Draft → Option Draft
remove_selected o none d = none
remove_selected o (some (attr, target)) d =
    if attr == "value" && is_remove o
    then some (apply o "members" (member_maps (target ∷ [])) d)
    else none

abbrev apply_filter : Strings → PatchOperation → Option String → Draft → Option Draft
apply_filter lib o none d = some (apply o.op "members" o.value d)
apply_filter lib o (some filter) d = remove_selected o.op (selector lib filter) d

unfoldable pub apply_path : Strings → PatchOperation → PatchPath → Draft → Option Draft
unfolding apply selector member_maps
apply_path lib o p d =
    if lib.equal_fold p.attribute "members"
    then (if is_some p.sub_attribute || is_some p.attribute_sub
        then none
        else apply_filter lib o p.value_expression d)
    else if is_none p.value_expression && is_none p.sub_attribute
    then some (apply o.op (lib.to_lower p.attribute) o.value d)
    else some d

unfoldable pub apply_operation : Strings → PatchOperation → Draft → Option Draft
unfolding apply_path apply_fields
apply_operation lib o d = elim o.path [
  | none ↦ apply_fields lib o.op (fields_of o.value) d
  | some p ↦ apply_path lib o p d
]

unfoldable pub apply_operations : Strings → List PatchOperation → Draft → Option Draft
unfolding apply_operation
apply_operations lib [] d = some d
apply_operations lib (o ∷ os) d = elim (apply_operation lib o d) [
  | none ↦ none
  | some d' ↦ apply_operations lib os d'
]

abbrev pub draft_of : GroupView → Draft
draft_of g = record {
  display_name = g.group.display_name;
  external_id = g.group.external_id;
  members = g.members;
}

-- The attributes that PATCH hands to `replace`.
abbrev pub draft_attrs : Draft → Fields
draft_attrs d =
    field "displayName" (str d.display_name)
      (field "externalId" (str d.external_id) (field "members" (member_maps d.members) end))

abbrev pub put_draft : GroupCalls → ℕ → String → Option Draft → Handler GroupView
put_draft io now id none = reject invalid_path
put_draft io now id (some d) = replace io now id (draft_attrs d)

unfoldable pub patch : GroupCalls → ℕ → Strings → String → List PatchOperation → Handler GroupView
unfolding replace apply_operations scim_store_error
patch io now lib id operations = do
  g ← stored_as scim_store_error (get_group_by_id io.read id)
  put_draft io now id (apply_operations lib operations (draft_of g))
