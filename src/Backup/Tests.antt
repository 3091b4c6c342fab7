-- ===== src/Backup/Tests.antt =====
-- A drill of a capsule of three files.
use ky_server_base.Prelude.Checked.{good}
use ky_server_base.Prelude.{
  String, ◌≡◌, refl, true, some, List, [], ◌∷◌, map, arith, ◌==◌, if◌then◌else◌,
}
use ky_server_base.Backup.Drill.{
  Host, Entry, checks, texts, items, flag, other, answers, database_path, settings_path,
  encryption_key_path,
}
use ky_server_base.Backup.Samples.{machine, config}
use ky_server_base.Backup.Payload.{
  File, collect, payload_of, files_of, required_files, recipe_of, recovery_pub_path,
}
use ky_server_base.Backup.Payload.Accepted.{opened, collect-AllPassed}
use ky_server_base.Backup.Drill.Passed.{IsPresent, HasPassed, AllPassed, checks-HasPassed}

abbrev host : Host
host = record {
  trim_space = λ s. s;
  clean = λ s. s;
  is_local = λ _. true;
  join = λ dir name. name;
  abs = λ path. some path;
  lstat = λ _. some (record { is_regular = true; size = 10 });
  is_env = λ name. name == "KY_PORT";
  print = λ _. "3";
  integrity_check = λ _. answers "ok";
}

abbrev paths : List String
paths = database_path ∷ settings_path ∷ encryption_key_path ∷ []

abbrev entries : String → Entry
entries name =
    if name == "required_files"
    then items (map some paths)
    else if name == "sqlite_paths"
    then items (some database_path ∷ [])
    else if name == "expected_env"
    then texts ("KY_PORT" ∷ "KY_DB_DRIVER" ∷ [])
    else if name == "check_sqlite_integrity"
    then flag true
    else other

all_passed : AllPassed (checks host "data/drill" (some entries) paths)
unfolding checks
all_passed = (refl, (refl, (refl, (refl, tt))))

checks-HasPassed_example : HasPassed host "data/drill" paths
checks-HasPassed_example = checks-HasPassed host "data/drill" (some entries) paths all_passed

abbrev four_files : List (File String)
four_files = files_of machine config "bytes"

collects : collect machine config "1.0.0" ≡ good (payload_of config "1.0.0" four_files)
unfolding collect
collects = refl

abbrev there : (name : String) → IsPresent host "data/drill" name
there name = (record { is_regular = true; size = 10 }, refl, refl, omega arith)

collect-AllPassed_example :
    AllPassed
      (checks host "data/drill" (opened (some (recipe_of four_files))) (required_files four_files))
collect-AllPassed_example =
    collect-AllPassed machine config "1.0.0" (payload_of config "1.0.0" four_files) host
      "data/drill"
      ((refl, refl, refl), ((refl, refl, refl), ((refl, refl, refl), ((refl, refl, refl), tt))))
      (refl, (refl, tt)) collects
      (
        there database_path,
        (there settings_path, (there encryption_key_path, (there recovery_pub_path, tt))),
      )
      (database_path, refl, refl)
