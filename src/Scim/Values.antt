-- ===== src/Scim/Values.antt =====
-- The JSON values that the SCIM handlers read (internal/scim/handler.go), and the readers of
-- attributes: primaryValue, roleValue, memberValues, memberMaps, stringValue, statusFromActive.
use ky_server_base.Prelude.{
  String, ◌≡◌, refl, ◌≢◌, Bool, false, Option, none, some, List, [], ◌∷◌, arith, ◌==◌, eq_iff,
  if◌then◌else◌,
}

-- Go's interface{} after JSON decoding; `null` is nil, `other` a number.
mutual
  pub data Value : Type 0 where
    null : Value
    other : Value
    bool : Bool → Value
    str : String → Value
    arr : Items → Value
    obj : Fields → Value

  -- A map[string]interface{}, in the order in which it is ranged over.
  pub data Fields : Type 0 where
    end : Fields
    field : String → Value → Fields → Fields

  pub data Items : Type 0 where
    nil : Items
    cons : Value → Items → Items

unfoldable pub get : String → Fields → Option Value
get key end = none
get key (field k v rest) = if k == key then some v else get key rest

-- `v, _ := x.(string)`
abbrev pub text_or : String → Option Value → String
text_or d (some (str s)) = s
text_or d _ = d

-- The first item that is an object with a text value, or a text.
unfoldable pub first_text : Items → String
first_text nil = ""
first_text (cons (obj m) rest) = elim (get "value" m) [ some (str s) ↦ s | _ ↦ first_text rest ]
first_text (cons (str s) rest) = s
first_text (cons _ rest) = first_text rest

unfoldable pub primary_value : Value → String
unfolding get first_text
primary_value (obj m) = text_or "" (get "value" m)
primary_value (arr items) = first_text items
primary_value (str s) = s
primary_value _ = ""

-- attrs["emails"] of a map without it is nil.
unfoldable pub primary_of : Option Value → String
unfolding primary_value
primary_of none = ""
primary_of (some v) = primary_value v

unfoldable pub role_value : Value → String
unfolding primary_value
role_value v = let r = primary_value v in if r == "" then "user" else r

abbrev if_text : String → String → String
if_text fallback s = if s == "" then fallback else s

unfoldable pub string_value : Fields → String → String → String
unfolding get
string_value attrs key fallback = if_text fallback (text_or "" (get key attrs))

abbrev status_of : Option Value → String
status_of (some (bool false)) = "inactive"
status_of _ = "active"

unfoldable pub status_from_active : Fields → String
unfolding get
status_from_active attrs = status_of (get "active" attrs)

-- `m["value"].(string)` of each item that is an object, the empty ones left out.
abbrev keep_text : Option Value → List String → List String
keep_text (some (str s)) rest = if s == "" then rest else s ∷ rest
keep_text _ rest = rest

unfoldable pub item_values : Items → List String
unfolding get
item_values nil = []
item_values (cons (obj m) rest) = keep_text (get "value" m) (item_values rest)
item_values (cons _ rest) = item_values rest

unfoldable pub member_values : Value → List String
unfolding item_values
member_values (arr items) = item_values items
member_values _ = []

unfoldable pub member_items : List String → Items
member_items [] = nil
member_items (id ∷ ids) = cons (obj (field "value" (str id) end)) (member_items ids)

unfoldable pub member_maps : List String → Value
unfolding member_items
member_maps ids = arr (member_items ids)

abbrev pub AllNamed : List String → Type 0
AllNamed [] = Unit {0}
AllNamed (id ∷ ids) = (id ≢ "") × AllNamed ids

item_values-member_items : (ids : List String) → AllNamed ids → item_values (member_items ids) ≡ ids
unfolding item_values member_items
item_values-member_items [] h = refl
item_values-member_items (id ∷ ids) h =
    ground (arith, item_values-member_items ids h.1, eq_iff id "")

-- The members that a group resource shows are read back as they are, if none has the empty id.
pub member_values-member_maps :
    (ids : List String) → AllNamed ids → member_values (member_maps ids) ≡ ids
unfolding member_values member_maps
member_values-member_maps ids h = item_values-member_items ids h
