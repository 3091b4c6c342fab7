-- ===== src/Scim/Patch/Kept.antt =====
-- What PUT and PATCH of a SCIM user keep of the account: applyUserPatch and replaceUser of
-- internal/scim/handler.go.
use ky_server_base.Prelude.{
  String, ◌≡◌, refl, ◌∙◌, true, false, not, ◌&&◌, ◌||◌, Option, none, some, List, [], ◌∷◌, arith,
  ◌==◌, if_both,
}
use ky_server_base.Store.Models.{User}
use ky_server_base.Store.Users.Access.{credentials}
use ky_server_base.Scim.Values.{Value, Fields, bool, str, obj, end, field}
use ky_server_base.Scim.Patch.{
  Strings, PatchOperation, PatchPath, add, remove, PatchOp, replace as replace_op, is_remove,
  is_replace, is_none, set_active, set_text, apply_whole, matched, target_of, stored, sub_of,
  apply_user_value, apply_user_values, apply_path, apply_operation, apply_user_patch, replace_user,
}

-- The user that a change makes of `u` keeps the columns that are not the profile's.
abbrev Kept : User → User → Type 0
Kept u v = credentials v ≡ credentials u

abbrev KeptIf : User → Option User → Type 0
KeptIf u none = Unit {0}
KeptIf u (some v) = Kept u v

set_active-Kept : (u : User) (v : Value) → Kept u (set_active u v)
set_active-Kept u (bool true) = refl
set_active-Kept u (bool false) = refl
set_active-Kept u v = refl

set_text-Kept :
    (u : User) (v : Value) (f : String → User)
    → ((s : String) → Kept u (f s))
    → Kept u (set_text u v f)
set_text-Kept u (str s) f h = h s
set_text-Kept u v f h = refl

apply_user_value-Kept : (u : User) (path : String) (v : Value) → Kept u (apply_user_value u path v)
unfolding apply_user_value
apply_user_value-Kept u path v = if_both (Kept u) (path == "active") (set_active-Kept u v) (
    if_both (Kept u) (path == "displayname") (set_text-Kept u v _ (λ s. refl)) (
      if_both (Kept u) (path == "username") (set_text-Kept u v _ (λ s. refl)) (
        if_both (Kept u) (path == "externalid") (set_text-Kept u v _ (λ s. refl)) (
          if_both (Kept u) (path == "roles" || path == "role") refl
            (if_both (Kept u) (path == "emails") refl refl)))))

apply_user_values-Kept :
    (lib : Strings) (u : User) (m : Fields) → Kept u (apply_user_values lib u m)
unfolding apply_user_values
apply_user_values-Kept lib u end = refl
apply_user_values-Kept lib u (field key v rest) =
    apply_user_values-Kept lib (apply_user_value u (lib.to_lower key) v) rest
    ∙ apply_user_value-Kept u (lib.to_lower key) v

apply_whole-Kept :
    (lib : Strings) (u : User) (o : PatchOp) (v : Value) → Kept u (apply_whole lib u o v)
apply_whole-Kept lib u remove v = refl
apply_whole-Kept lib u add (obj m) = apply_user_values-Kept lib u m
apply_whole-Kept lib u replace_op (obj m) = apply_user_values-Kept lib u m
apply_whole-Kept lib u add v = refl
apply_whole-Kept lib u replace_op v = refl

apply_path-Kept :
    (lib : Strings) (u : User) (p : PatchPath) (o : PatchOperation)
    → KeptIf u (apply_path lib u p o)
unfolding apply_path
apply_path-Kept lib u p o =
    let attr = lib.to_lower p.attribute in
    let sub = sub_of p in
    if_both (KeptIf u) (attr == "emails" || attr == "roles")
      (if_both (KeptIf u) (not (sub == "") && not (lib.equal_fold sub "value")) refl (
        if_both (KeptIf u) (matched lib p.value_expression o (target_of o (stored u attr)))
          (if_both (Kept u) (not (is_remove o.op)) (apply_user_value-Kept u attr o.value)
            (if_both (Kept u) (attr == "emails") refl refl))
          (if_both (KeptIf u) (is_replace o.op) tt refl)))
      (if_both (KeptIf u) (not (is_none p.value_expression) || not (sub == "")) refl (
        if_both (Kept u) (not (is_remove o.op)) (apply_user_value-Kept u attr o.value) (
          if_both (Kept u) (attr == "displayname") refl
            (if_both (Kept u) (attr == "externalid") refl refl))))

apply_operation-Kept :
    (lib : Strings) (u : User) (o : PatchOperation) → KeptIf u (apply_operation lib u o)
unfolding apply_operation
apply_operation-Kept lib u o = go o.path refl
  where
    go : (p : Option PatchPath) → o.path ≡ p → KeptIf u (apply_operation lib u o)
    go none e = rw (e, apply_operation) (apply_whole-Kept lib u o.op o.value)
    go (some p) e = rw (e, apply_operation) (apply_path-Kept lib u p o)

-- A PATCH that is not refused keeps the account's id, password hash, device, mandatory password
-- change, identity provider, creation time and last login, whatever its operations.
pub apply_user_patch-credentials :
    (lib : Strings) (u v : User) (operations : List PatchOperation)
    → apply_user_patch lib u operations ≡ some v
    → credentials v ≡ credentials u
unfolding apply_user_patch
apply_user_patch-credentials lib u v [] e = ground arith
apply_user_patch-credentials lib u v (o ∷ os) e =
    go (apply_operation lib u o) refl (apply_operation-Kept lib u o)
      (λ w. apply_user_patch-credentials lib w v os)
  where
    go :
        (r : Option User)
        → apply_operation lib u o ≡ r
        → KeptIf u r
        → ((w : User) → apply_user_patch lib w os ≡ some v → credentials v ≡ credentials w)
        → credentials v ≡ credentials u
    go none h k rest = absurd (ground (arith, e, h))
    go (some w) h k rest = rest w (rw (h, apply_user_patch) at e) ∙ k

-- A PUT keeps them too.
pub replace_user-credentials :
    (u : User) (attrs : Fields) → credentials (replace_user u attrs) ≡ credentials u
unfolding replace_user
replace_user-credentials u attrs = refl
