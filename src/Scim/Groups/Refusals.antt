-- ===== src/Scim/Groups/Refusals.antt =====
-- Refused writes of a group (internal/scim/handler.go).
use ky_server_base.Prelude.{ℕ, String, ◌≡◌, refl, ◌≢◌, ◌⊎◌, Option, none, some, List, arith}
use ky_server_base.Store.Models.{Db, Error, Result, ok, err}
use ky_server_base.Store.Groups.{GroupView, get_group_by_id}
use ky_server_base.Scim.Values.{Fields}
use ky_server_base.Scim.Patch.{Strings, ScimError, invalid_path, invalid_value, PatchOperation}
use ky_server_base.Scim.Users.{failed, scim_store_error}
use ky_server_base.Scim.Groups.{
  GroupCalls, put_group, replaced, replace, patch, draft_of, draft_attrs, apply_operations, Draft,
  put_draft,
}
use ky_server_base.Scim.Groups.Membership.{check_members-state, get_group_by_id-state}

-- Errors that no store call is reported as.
abbrev pub IsRefusal : ScimError → Type 0
IsRefusal e = (e ≡ invalid_value) ⊎ (e ≡ invalid_path)

scim_store_error-refusal : (x : Error) (e : ScimError) → IsRefusal e → scim_store_error x ≢ e
unfolding scim_store_error
scim_store_error-refusal x e r h = ground arith

put_group-refused :
    (io : GroupCalls) (now : ℕ) (id : String) (old new : GroupView) (db : Db) (e : ScimError)
    → IsRefusal e
    → (put_group io now id old new db).0 ≡ failed e
    → (put_group io now id old new db).1 ≡ db
unfolding put_group scim_store_error
put_group-refused io now id old new db e r h =
    ground (arith, check_members-state io.check 0 old.members new.members db)

replace-refused :
    (io : GroupCalls) (now : ℕ) (id : String) (attrs : Fields) (db : Db) (e : ScimError)
    → IsRefusal e
    → (replace io now id attrs db).0 ≡ failed e
    → (replace io now id attrs db).1 ≡ db
replace-refused io now id attrs db e r h = go (get_group_by_id io.again id db).0 refl
  where
    go :
        (x : Result GroupView)
        → (get_group_by_id io.again id db).0 ≡ x
        → (replace io now id attrs db).1 ≡ db
    go (ok g) read =
        unfold replace in
        ground (
          arith,
          get_group_by_id-state io.again id db,
          put_group-refused io now id g (replaced attrs g) db e r,
        )
    go (err x) read = unfold replace in ground (arith, get_group_by_id-state io.again id db)

-- A PATCH of a group that is refused as an invalid path or for an invalid member has written
-- nothing, though operations before the bad one were good.
pub patch-refused :
    (io : GroupCalls) (now : ℕ) (lib : Strings) (id : String) (operations : List PatchOperation)
    (db : Db) (e : ScimError)
    → IsRefusal e
    → (patch io now lib id operations db).0 ≡ failed e
    → (patch io now lib id operations db).1 ≡ db
patch-refused io now lib id operations db e r h = go (get_group_by_id io.read id db).0 refl
  where
    put :
        (d : Option Draft)
        → (put_draft io now id d db).0 ≡ failed e
        → (put_draft io now id d db).1 ≡ db
    put none k = refl
    put (some d) k = replace-refused io now id (draft_attrs d) db e r k

    go :
        (x : Result GroupView)
        → (get_group_by_id io.read id db).0 ≡ x
        → (patch io now lib id operations db).1 ≡ db
    go (ok g) read =
        unfold patch in
        ground (
          arith,
          get_group_by_id-state io.read id db,
          put (apply_operations lib operations (draft_of g)),
        )
    go (err x) read = unfold patch in ground (arith, get_group_by_id-state io.read id db)
