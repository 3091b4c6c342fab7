-- ===== src/Scim/List.antt =====
-- The list of accounts that SCIM shows, with its filter: userResourceHandler.GetAll of
-- internal/scim/handler.go. An account stands for the resource printed from it.
pub mod Exact
use ky_server_base.Prelude.{
  ℕ, zero, suc, ◌+◌, ◌-◌, min, String, Bool, Option, none, some, List, [], ◌∷◌, ◌==◌, ltb,
  if◌then◌else◌, length, take, drop,
}
use ky_server_base.Prelude.Int.{ℤ, pos, negsuc}
use ky_server_base.Sql.{select_where}
use ky_server_base.Store.Models.{User, Db, Backend, Error, Result, ok, err, not_found}
use ky_server_base.Store.Tx.{Io}
use ky_server_base.Store.Users.{get_user_by_username}
use ky_server_base.Store.Lists.{Search, list_scim_users}

-- The search of the store, strings.EqualFold, and the regular expression equalityFilter: the
-- attribute and the value of a filter of its form.
pub record Filter : Type 0 where
  pub search : Search
  pub equal_fold : String → String → Bool
  pub equality_filter : String → Option (String × String)

pub data ListError : Type 0 where
  invalid_filter too_many : ListError
  store_error : Error → ListError

pub data Listed : Type 0 where
  refused : ListError → Listed
  -- the accounts of the page, and how many there are
  listed : List User → ℕ → Listed

abbrev pub max_candidates : ℕ
max_candidates = 1000

-- The column that a filter compares.
unfoldable pub attribute : Search → String → User → String
attribute lib name u =
    let attr = lib.to_lower name in
    if attr == "username"
    then u.username
    else if attr == "displayname"
    then u.display_name
    else u.email

-- `users[start:end]`, from the 1-based index and the count of the request.
abbrev to_nat : ℤ → ℕ
to_nat (pos n) = n
to_nat (negsuc n) = 0

abbrev end_of : ℕ → ℤ → ℕ → ℕ
end_of start (pos zero) total = total
end_of start (pos (suc n)) total = min (start + suc n) total
end_of start (negsuc n) total = total

unfoldable pub window : ℤ → ℤ → List User → List User
window start_index count users =
    let total = length users in
    let start = min (to_nat start_index - 1) total in
    take (end_of start count total - start) (drop start users)

unfoldable pub page_of : Filter → String → String → ℤ → ℤ → List User → Listed
unfolding attribute window
page_of f name value start_index count candidates =
    let users = select_where (λ u. f.equal_fold (attribute f.search name u) value) candidates in
    listed (window start_index count users) (length users)

-- The exact lookup of a userName.
abbrev pub by_username : Result User → (List User → Listed) → Listed
by_username (ok u) next = next (if u.scim_managed then u ∷ [] else [])
by_username (err not_found) next = next []
by_username (err e) next = refused (store_error e)

abbrev pub by_search : Result (List User × ℕ) → (List User → Listed) → Listed
by_search (err e) next = refused (store_error e)
by_search (ok (users, total)) next =
    if ltb max_candidates total then refused too_many else next users

abbrev pub all_of : Result (List User × ℕ) → Listed
all_of (err e) = refused (store_error e)
all_of (ok (users, total)) = listed users total

-- The candidates of a filter, and the page of those that pass it.
unfoldable pub filtered : Backend → Filter → Io → ℤ → ℤ → Db → Option (String × String) → Listed
unfolding page_of list_scim_users get_user_by_username
filtered b f io start_index count db none = refused invalid_filter
filtered b f io start_index count db (some (name, value)) =
    if f.search.trim_space value == ""
    then refused invalid_filter
    else if f.equal_fold name "userName"
    then by_username (get_user_by_username b io value db).0 (page_of f name value start_index count)
    else by_search (list_scim_users b f.search io (pos 0) (pos max_candidates) value db).0
        (page_of f name value start_index count)

abbrev predecessor : ℤ → ℤ
predecessor (pos zero) = negsuc 0
predecessor (pos (suc n)) = pos n
predecessor (negsuc n) = negsuc (suc n)

unfoldable pub get_all : Backend → Filter → Io → ℤ → ℤ → String → Db → Listed
unfolding filtered list_scim_users
get_all b f io start_index count filter db =
    if filter == ""
    then all_of (list_scim_users b f.search io (predecessor start_index) count "" db).0
    else filtered b f io start_index count db (f.equality_filter filter)
