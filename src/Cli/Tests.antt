-- ===== src/Cli/Tests.antt =====
-- The theorems on the command line's accounts at concrete tables (cmd/server/main.go).
use ky_server_base.Prelude.{String, ◌≡◌, refl, false, some, arith}
use ky_server_base.Sql.{count_where, find_where}
use ky_server_base.Store.Models.{users_ok}
use ky_server_base.Store.Users.{check_username_free, put_users}
use ky_server_base.Store.Samples.{quiet, sqlite, two}
use ky_server_base.Cli.{AdminCall, run_init_admin, admin_created}
use ky_server_base.Cli.Promotion.{run_init_admin-no_promotion}

abbrev call : AdminCall
call = record {
  read_io = quiet;
  write_io = quiet;
  now = 60;
  meanwhile = λ db. db;
  drawn_id = "u3";
  hash = λ pass. some pass;
}

-- "carol" is nobody yet.
run_init_admin-no_promotion_example :
    ((run_init_admin sqlite call "carol" "correct horse" false two).0 ≡ admin_created)
    × ◌≡◌ {A = String} "u3" "u3"
unfolding run_init_admin count_where find_where check_username_free put_users users_ok
run_init_admin-no_promotion_example =
    run_init_admin-no_promotion sqlite call "carol" "correct horse" two "u3" refl refl (omega arith)
