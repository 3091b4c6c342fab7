-- ===== src/Scim/Tests.antt =====
-- The theorems on SCIM at concrete requests (internal/scim/handler.go).
use Prim.Native.String.{String, ◌++◌ as ◌^^◌}
use ky_server_base.Prelude.{
  eq_iff, sym, subst, ℕ, ◌+◌, ◌≤◌, ◌≡◌, refl, true, false, none, some, List, [], ◌∷◌, arith, ◌==◌,
  if◌then◌else◌,
}
use ky_server_base.Store.Users.{get_user_by_id}
use ky_server_base.Sql.{select_where, update_where, count_where, find_where}
use ky_server_base.Store.Models.{User, Backend, Group, Db}
use ky_server_base.Store.Samples.{alice, quiet, sqlite, bob, two, two-IsKeyed}
use ky_server_base.Store.Users.Access.{credentials}
use ky_server_base.Store.Groups.{GroupView, get_group_by_id, update_group, add_group_member}
use ky_server_base.Scim.Values.{
  Fields, str, obj, end, field, member_maps, member_values, get, string_value,
}
use ky_server_base.Scim.Patch.{
  Strings, add, replace as replace_op, PatchOperation, apply_user_patch,
}
use ky_server_base.Scim.Patch.Kept.{apply_user_patch-credentials}
use ky_server_base.Scim.Users.{Turn, update, replace, patch, done}
use ky_server_base.Prelude.Int.{pos}
use ky_server_base.Sql.{order_by, page}
use ky_server_base.Store.Lists.{matches, list_scim_users}
use ky_server_base.Scim.List.{Filter, filtered, attribute, window}
use ky_server_base.Scim.List.Exact.{AreFound, Answered, filtered-Answered}
use ky_server_base.Scim.Users.Roles.{admins, update-grants_none}
use ky_server_base.Scim.Users.Managed.{unmanaged}
use ky_server_base.Scim.Users.Managed.Update.{replace-patch-unmanaged}
use ky_server_base.Scim.Groups.{GroupCalls, replace as replace_group, contains, members_attr}
use ky_server_base.Scim.Groups.Membership.{joined, is_managed, replace-members}

abbrev turn : ℕ → Turn
turn n = record {
  read_io = quiet;
  write_io = quiet;
  now = 60 + n;
  before = λ db. db;
  between = λ db. db;
}

-- Texts without capitals, and no filter.
abbrev texts : Strings
texts = record {
  to_lower = λ s. if s == "displayName" then "displayname" else s;
  equal_fold = λ s t. s == t;
  eq_selector = λ _. none;
  contains = λ s t. s == t;
}

abbrev as_admin : Fields
as_admin = field "userName" (str "bob") (field "roles" (str "admin") end)

update-grants_none_example :
    admins "u2" (update sqlite false turn "u2" (λ u. done (record u { role = "admin" })) two).1
    ≤ admins "u2" two
update-grants_none_example =
    update-grants_none sqlite turn "u2" (λ u. done (record u { role = "admin" })) "u2" two
      (λ n. ((λ id db. omega arith), (λ id db. omega arith)))

abbrev rename : PatchOperation
rename = record { op = replace_op; path = none; value = obj (field "displayName" (str "B.") end) }

apply_user_patch-credentials_example :
    credentials (record bob { display_name = "B." }) ≡ credentials bob
unfolding apply_user_patch
apply_user_patch-credentials_example =
    apply_user_patch-credentials texts bob (record bob { display_name = "B." }) (rename ∷ []) refl

replace-patch-unmanaged_example :
    (unmanaged (replace sqlite true turn "u2" as_admin two).1 ≡ unmanaged two)
    × (unmanaged (patch sqlite true texts turn "u2" (rename ∷ []) two).1 ≡ unmanaged two)
replace-patch-unmanaged_example =
    replace-patch-unmanaged sqlite true texts turn "u2" as_admin (rename ∷ []) two
      (λ n. ((λ d k. (k, refl)), (λ d k. (k, refl)))) two-IsKeyed

-- One group that has no members.
abbrev staff : Group
staff = record {
  id = "g1";
  display_name = "Staff";
  external_id = "";
  created_at = 5;
  updated_at = 5;
}

abbrev with_staff : Db
with_staff = record two { groups = staff ∷ [] }

abbrev group_calls : GroupCalls
group_calls = record {
  read = quiet;
  again = quiet;
  check = λ _. quiet;
  write = quiet;
  removes = λ _. quiet;
  adds = λ _. quiet;
}

abbrev with_bob : Fields
with_bob = field "members" (member_maps ("u2" ∷ [])) end

abbrev bobs_staff : GroupView
bobs_staff = record { group = record staff { updated_at = 60 }; members = "u2" ∷ [] }

replace-members_example :
    (joined "g1" "u2" (replace_group group_calls 60 "g1" with_bob with_staff).1 ≡ (
      if "g1" == "g1" then contains (members_attr with_bob) "u2" else joined "g1" "u2" with_staff))
    × (contains (members_attr with_bob) "u2" ≡ true
        → joined "g1" "u2" with_staff ≡ false
        → is_managed "u2" with_staff ≡ true)
unfolding replace_group get_group_by_id find_where get member_values member_maps select_where
    get_user_by_id update_group update_where count_where add_group_member string_value
replace-members_example =
    replace-members group_calls 60 "g1" with_bob with_staff bobs_staff "g1" "u2" refl

-- The first operation is good, the second has an invalid path.
abbrev bad_patch : List PatchOperation
bad_patch =
    rename
    ∷ record {
      op = add;
      path = some (record {
        attribute = "members";
        sub_attribute = some "value";
        attribute_sub = none;
        value_expression = none;
      });
      value = str "u2";
    }
    ∷ []

-- Bob before SCIM managed him.
abbrev unadopted : Db
unadopted = record two { users = record bob { scim_managed = false } ∷ [] }

abbrev filter : Filter
filter = record {
  search = record { trim_space = λ s. s; to_lower = λ s. s };
  equal_fold = λ s t. s == t;
  equality_filter = λ _. none;
}

-- A database whose LIKE finds a text between the percent signs, and in it every text.
abbrev exact_like : Backend
exact_like = record {
  like = λ text pattern. pattern == ("%" ^^ (text ^^ "%"));
  leq = λ _ _. true;
  lower = λ s. s;
  is_postgres = false;
}

bob_found :
    (text : String)
    → (text == "bob@example.org") ≡ true
    → ("%bob@example.org%" == ("%" ^^ (text ^^ "%"))) ≡ true
bob_found text e =
    subst (λ t. ("%bob@example.org%" == ("%" ^^ (t ^^ "%"))) ≡ true)
      (sym ((eq_iff text "bob@example.org").0 e)) refl

all_found : (u : User) → AreFound exact_like filter "bob@example.org" u
all_found u = (bob_found u.username, bob_found u.display_name, bob_found u.email)

filtered-Answered_example :
    Answered filter "email" "bob@example.org" (pos 1) (pos 10) two (bob ∷ []) 1
unfolding filtered list_scim_users count_where matches attribute select_where order_by page window
filtered-Answered_example =
    filtered-Answered exact_like filter quiet (pos 1) (pos 10) "email" "bob@example.org" two
      (bob ∷ []) 1 (all_found alice, (all_found bob, tt)) refl refl
