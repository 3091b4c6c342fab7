-- ===== src/Scim/Patch.antt =====
-- PUT and PATCH of a SCIM user, as changes of a user record: replaceUser, applyUserValue,
-- applyUserValues, applyUserPatch, selector and selects of internal/scim/handler.go.
pub mod Kept
use ky_server_base.Prelude.{
  String, Bool, true, false, not, ◌&&◌, ◌||◌, Option, none, some, List, [], ◌∷◌, ◌==◌,
  if◌then◌else◌,
}
use ky_server_base.Store.Models.{User, Error}
use ky_server_base.Scim.Values.{
  Value, Fields, bool, str, obj, end, field, get, text_or, primary_value, primary_of, role_value,
  string_value, status_from_active,
}

-- The standard library's strings.ToLower and strings.EqualFold, and the regular expression
-- eqSelector with strconv.Unquote: the attribute and the value of a filter of its form; and
-- strings.Contains(text, part).
pub record Strings : Type 0 where
  pub to_lower : String → String
  pub equal_fold : String → String → Bool
  pub eq_selector : String → Option (String × String)
  pub contains : String → String → Bool

-- What a SCIM handler returns besides a resource.
pub data ScimError : Type 0 where
  resource_not_found uniqueness invalid_value admin_grant no_target invalid_path : ScimError
  store_error : Error → ScimError

pub data PatchOp : Type 0 where
  add remove replace : PatchOp

-- A path of the library: the attribute, the sub-attribute behind a filter and the one behind the
-- attribute's name, if they are there, and the filter as text.
pub record PatchPath : Type 0 where
  pub attribute : String
  pub sub_attribute : Option String
  pub attribute_sub : Option String
  pub value_expression : Option String

pub record PatchOperation : Type 0 where
  pub op : PatchOp
  pub path : Option PatchPath
  pub value : Value

abbrev pub is_remove : PatchOp → Bool
is_remove remove = true
is_remove _ = false

abbrev pub is_replace : PatchOp → Bool
is_replace replace = true
is_replace _ = false

abbrev pub is_add : PatchOp → Bool
is_add add = true
is_add _ = false

-- replaceUser: an omitted roles keeps the role.
unfoldable pub replace_user : User → Fields → User
unfolding get string_value status_from_active primary_of role_value
replace_user user attrs = record user {
  username = username;
  email = primary_of (get "emails" attrs);
  display_name = string_value attrs "displayName" username;
  role = role_sent (get "roles" attrs);
  status = status_from_active attrs;
  sso_subject = string_value attrs "externalId" user.sso_subject;
}
  where
    username : String
    username = text_or "" (get "userName" attrs)

    role_sent : Option Value → String
    role_sent none = user.role
    role_sent (some v) = role_value v

abbrev pub set_active : User → Value → User
set_active user (bool true) = record user { status = "active" }
set_active user (bool false) = record user { status = "inactive" }
set_active user _ = user

abbrev pub set_text : User → Value → (String → User) → User
set_text user (str s) f = f s
set_text user _ f = user

unfoldable pub apply_user_value : User → String → Value → User
unfolding role_value primary_value
apply_user_value user path value =
    if path == "active"
    then set_active user value
    else if path == "displayname"
    then set_text user value (λ s. record user { display_name = s })
    else if path == "username"
    then set_text user value (λ s. record user { username = s })
    else if path == "externalid"
    then set_text user value (λ s. record user { sso_subject = s })
    else if path == "roles" || path == "role"
    then record user { role = role_value value }
    else if path == "emails"
    then record user { email = primary_value value }
    else user

-- The keys in the order in which Go ranges over the map.
unfoldable pub apply_user_values : Strings → User → Fields → User
unfolding apply_user_value
apply_user_values lib user end = user
apply_user_values lib user (field key value rest) =
    apply_user_values lib (apply_user_value user (lib.to_lower key) value) rest

-- selector: a filter `attr eq value`, its attribute lowered.
abbrev pub selected : Strings → Option (String × String) → Option (String × String)
selected lib none = none
selected lib (some (attr, value)) = some (lib.to_lower attr, value)

unfoldable pub selector : Strings → String → Option (String × String)
selector lib e = selected lib (lib.eq_selector e)

-- The stored element of a multi-valued attribute, each value as fmt.Sprint prints it.
pub data Element : Type 0 where
  -- a role: `value` and `primary`
  role_element : String → Element
  -- an address: `value`, `type` and `primary`
  email_element : String → Element

abbrev pub printed : Element → String → Option String
printed (role_element v) attr =
    if attr == "value" then some v else if attr == "primary" then some "true" else none
printed (email_element v) attr =
    if attr == "value"
    then some v
    else if attr == "type"
    then some "work"
    else if attr == "primary"
    then some "true"
    else none

abbrev pub holds : Strings → Option String → String → Bool
holds lib none value = false
holds lib (some got) value = lib.equal_fold got value

abbrev pub selects_in : Strings → Element → Option (String × String) → Bool
selects_in lib element none = false
selects_in lib element (some (attr, value)) = holds lib (printed element attr) value

unfoldable pub selects : Strings → String → Element → Bool
unfolding selector
selects lib e element = selects_in lib element (selector lib e)

-- The single value that the user has under `emails` or `roles`.
abbrev pub stored : User → String → Option Element
stored user attr =
    if attr == "emails"
    then (if user.email == "" then none else some (email_element user.email))
    else some (role_element user.role)

-- An `add` under a filter over an empty attribute is matched against the value that it adds.
abbrev pub target_of : PatchOperation → Option Element → Option Element
target_of o none = if is_add o.op then some (email_element (primary_value o.value)) else none
target_of o (some e) = some e

abbrev pub matched : Strings → Option String → PatchOperation → Option Element → Bool
matched lib none o e = true
matched lib (some filter) o none = false
matched lib (some filter) o (some e) = selects lib filter e

abbrev write_multi : User → String → PatchOperation → User
write_multi user attr o =
    if not (is_remove o.op)
    then apply_user_value user attr o.value
    else if attr == "emails"
    then record user { email = "" }
    else record user { role = "user" }

-- A path into `emails` or `roles`; `none` is noTarget.
abbrev apply_multi : Strings → User → String → PatchPath → PatchOperation → Option User
apply_multi lib user attr p o =
    if matched lib p.value_expression o (target_of o (stored user attr))
    then some (write_multi user attr o)
    else if is_replace o.op
    then none
    else some user

abbrev apply_single : User → String → PatchOperation → User
apply_single user attr o =
    if not (is_remove o.op)
    then apply_user_value user attr o.value
    else if attr == "displayname"
    then record user { display_name = user.username }
    else if attr == "externalid"
    then record user { sso_subject = "" }
    else user

abbrev name_of : Option String → String
name_of none = ""
name_of (some s) = s

abbrev pub sub_of : PatchPath → String
sub_of p =
    if name_of p.sub_attribute == "" then name_of p.attribute_sub else name_of p.sub_attribute

abbrev pub is_none : Option String → Bool
is_none none = true
is_none (some s) = false

unfoldable pub apply_path : Strings → User → PatchPath → PatchOperation → Option User
unfolding apply_user_value primary_value selects
apply_path lib user p o =
    let attr = lib.to_lower p.attribute in
    let sub = sub_of p in
    if attr == "emails" || attr == "roles"
    then (if not (sub == "") && not (lib.equal_fold sub "value")
        then some user
        else apply_multi lib user attr p o)
    else if not (is_none p.value_expression) || not (sub == "")
    then some user
    else some (apply_single user attr o)

abbrev pub apply_whole : Strings → User → PatchOp → Value → User
apply_whole lib user remove value = user
apply_whole lib user _ (obj values) = apply_user_values lib user values
apply_whole lib user _ _ = user

unfoldable pub apply_operation : Strings → User → PatchOperation → Option User
unfolding apply_path apply_user_values
apply_operation lib user o = elim o.path [
  | none ↦ some (apply_whole lib user o.op o.value)
  | some p ↦ apply_path lib user p o
]

-- `none` is ScimErrorNoTarget.
unfoldable pub apply_user_patch : Strings → User → List PatchOperation → Option User
unfolding apply_operation
apply_user_patch lib user [] = some user
apply_user_patch lib user (o ∷ os) = elim (apply_operation lib user o) [
  | none ↦ none
  | some u ↦ apply_user_patch lib u os
]
