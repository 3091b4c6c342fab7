-- ===== src/Store/Lists.antt =====
-- The paged lists of accounts of internal/store/sqlstore.go: ListUsers, ListSCIMUsers, listUsers.
use Prim.Native.String.{◌++◌ as ◌^^◌}
use ky_server_base.Prelude.{ℕ, String, Bool, true, false, not, ◌&&◌, ◌||◌, List, ◌==◌, ltb, leb}
use ky_server_base.Prelude.Int.{ℤ}
use ky_server_base.Sql.{select_where, count_where, order_by, page}
use ky_server_base.Store.Models.{User, Backend}
use ky_server_base.Store.Tx.{Op, Io, count_row, read_row, ◌>>=◌, ◌>>◌, pure, gets, stmt}

-- strings.TrimSpace and strings.ToLower
pub record Search : Type 0 where
  pub trim_space : String → String
  pub to_lower : String → String

-- The row matches `%search%` in one of three columns, or there is no search.
unfoldable pub matches : Backend → Search → String → User → Bool
matches b lib search u =
    let text = lib.trim_space search in
    let pattern = "%" ^^ (lib.to_lower text ^^ "%") in
    text == ""
    || (b.like (b.lower u.username) pattern
        || (b.like (b.lower u.display_name) pattern || b.like (b.lower u.email) pattern))

-- The WHERE clause.
unfoldable pub is_listed : Backend → Search → String → Bool → User → Bool
unfolding matches
is_listed b lib search scim_only u = (not scim_only || u.scim_managed) && matches b lib search u

-- ORDER BY created_at DESC, id
abbrev pub newest_first : Backend → User → User → Bool
newest_first b u v =
    ltb v.created_at u.created_at || (leb v.created_at u.created_at && b.leq u.id v.id)

unfoldable pub list_users : Backend → Search → Io → ℤ → ℤ → String → Bool → Op (List User × ℕ)
unfolding is_listed
list_users b lib io offset limit search scim_only = do
  stmt io count_row
  total ← gets (λ db. count_where (is_listed b lib search scim_only) db.users)
  stmt io read_row
  users ← gets (λ db.
      page offset limit
        (order_by (newest_first b) (select_where (is_listed b lib search scim_only) db.users)))
  pure (users, total)

unfoldable pub list_all_users : Backend → Search → Io → ℤ → ℤ → String → Op (List User × ℕ)
unfolding list_users
list_all_users b lib io offset limit search = list_users b lib io offset limit search false

unfoldable pub list_scim_users : Backend → Search → Io → ℤ → ℤ → String → Op (List User × ℕ)
unfolding list_users
list_scim_users b lib io offset limit search = list_users b lib io offset limit search true
