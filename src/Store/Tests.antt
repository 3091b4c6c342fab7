-- ===== src/Store/Tests.antt =====
-- The store's theorems at concrete tables (internal/store/sqlstore.go).
use ky_server_base.Prelude.{◌<◌, String, ◌≡◌, refl, ◌≢◌, ◌⊎◌, map}
use ky_server_base.Sql.{update_where, find_where, count_where}
use ky_server_base.Store.Tx.{transaction}
use ky_server_base.Store.Models.{users_ok, users_ok, User, ok, err, Error}
use ky_server_base.Store.Tx.{transaction}
use ky_server_base.Store.Users.{
  check_username_free, put_users, swap_row, update_profile, put_users, swap_row,
  check_username_free, update_profile,
}
use ky_server_base.Store.Samples.{quiet, sqlite, alice, bob, two, two-IsKeyed}
use ky_server_base.Store.Users.Cas.{Swap, profile, run_swap, applies, after_swap}
use ky_server_base.Store.Users.Access.{
  run_swap-atomic, run_swap-revokes, run_swap-stale, run_swap-credentials, sessions_of, credentials,
  adopted_subject,
}

-- An administrator reads alice as an administrator and makes her a user.
abbrev demote : Swap
demote = profile 50 (record alice { role = "user" }) "admin" "active"

-- Somebody who read alice as a user, before she became an administrator.
abbrev rename_stale : Swap
rename_stale = profile 50 (record alice { role = "user"; display_name = "A" }) "user" "active"

run_swap-atomic_example :
    ((run_swap sqlite quiet demote two).0 ≡ ok tt)
      × (0 < count_where (applies demote) two.users)
      × ((run_swap sqlite quiet demote two).1 ≡ after_swap demote two)
    ⊎ ((e : Error) × ((run_swap sqlite quiet demote two).0 ≡ err e)
        × ((run_swap sqlite quiet demote two).1 ≡ two))
run_swap-atomic_example = run_swap-atomic sqlite quiet demote two

run_swap-revokes_example :
    (sessions_of "u1" (run_swap sqlite quiet demote two).1.sessions ≡ 0)
    × ((other : String)
        → other ≢ "u1"
        → sessions_of other (run_swap sqlite quiet demote two).1.sessions
          ≡ sessions_of other two.sessions)
unfolding run_swap update_profile transaction check_username_free swap_row put_users users_ok
    count_where update_where
run_swap-revokes_example = run_swap-revokes sqlite quiet demote two refl refl

run_swap-stale_example :
    ((run_swap sqlite quiet rename_stale two).0 ≢ ok tt)
    × ((run_swap sqlite quiet rename_stale two).1 ≡ two)
unfolding run_swap update_profile transaction check_username_free swap_row put_users users_ok
    count_where update_where find_where
run_swap-stale_example = run_swap-stale sqlite quiet rename_stale two alice two-IsKeyed refl refl

run_swap-credentials_example :
    (map credentials (run_swap sqlite quiet demote two).1.users ≡ map credentials two.users)
    × (map adopted_subject (run_swap sqlite quiet demote two).1.users
        ≡ map adopted_subject two.users)
run_swap-credentials_example = run_swap-credentials sqlite quiet demote two

abbrev carol : User
carol = record bob { id = "u3"; username = "Carol"; email = "carol@example.org" }
