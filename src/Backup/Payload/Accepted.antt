-- ===== src/Backup/Payload/Accepted.antt =====
-- A capsule that the server seals is one that its own drill accepts (internal/backup/payload.go and
-- internal/backup/drill.go).
use ky_server_base.Prelude.Checked.{good, refuse_if, >>=-good, good_inj}
use ky_server_base.Prelude.{
  String, ◌≡◌, refl, subst, inl, inr, true, not, ◌||◌, Option, none, some, List, [], ◌∷◌, map,
  arith, ◌==◌, Bool-cases,
}
use ky_server_base.Prelude.{All}
use ky_server_base.Config.Values.{Config}
use ky_server_base.Backup.Drill.{
  checks_of, sqlite_integrity_check, checks, env_check, env_checks, is_present, missing_files,
  sqlite_checks, demands, Host, Entry, Recipe, texts, items, database_path, settings_path,
  encryption_key_path,
}
use ky_server_base.Backup.Drill.Passed.{AllPassed, IsPresent, IsSound}
use ky_server_base.Backup.Payload.{
  key_of_wrong_size, is_32, snapshot_sqlite, snapshot_sqlite, check_database_path,
  no_database_snapshot, refuse_with, no_snapshot, recipe_of, Machine, Payload, collect,
  recovery_pub_path, env_names, required_files, payload_of, files_of, recovery_file, file_at,
}

-- A recipe as it comes out of the capsule's JSON: a list of texts is a list of any values.
abbrev decoded : Entry → Entry
decoded (texts list) = items (map some list)
decoded e = e

abbrev pub opened : Recipe → Recipe
opened none = none
opened (some recipe) = some (λ name. decoded (recipe name))

abbrev pub member_paths : List String
member_paths = database_path ∷ settings_path ∷ encryption_key_path ∷ recovery_pub_path ∷ []

-- A clean relative path without spaces around it.
abbrev pub IsPlain : Host → String → Type 0
IsPlain h s = (h.clean s ≡ s) × (h.is_local s ≡ true) × (h.trim_space s ≡ s)

abbrev pub IsTrimmed : Host → String → Type 0
IsTrimmed h s = h.trim_space s ≡ s

collect-payload {ℓ} :
    {A : Type ℓ} {B : Type 0} (m : Machine B) (cfg : Config A) (app_version : String)
    (p : Payload B)
    → collect m cfg app_version ≡ good p
    → (database : B) × (payload_of cfg app_version (files_of m cfg database) ≡ p)
unfolding collect
collect-payload m cfg app_version p e =
    let (_, _, e1) =
      >>=-good
        (refuse_if (not (m.to_lower cfg.database.driver == "sqlite"))
          (no_snapshot cfg.database.driver))
        _ e in
    let (_, _, e2) = >>=-good (refuse_with no_database_snapshot (check_database_path m cfg)) _ e1 in
    let (database, _, e3) =
      >>=-good (snapshot_sqlite m cfg.database.dsn cfg.database.data_dir) _ e2 in
    let (_, _, e4) =
      >>=-good (refuse_if (not (is_32 (m.key_len cfg.security.encryption_key))) key_of_wrong_size) _
        e3 in
    (database, good_inj _ refl e4)

module _ (h : Host) (plain : All (IsPlain h) member_paths)
    (trimmed : All (IsTrimmed h) env_names) where
  demands-good :
      {B : Type 0} (a b c : B) (key : Option B)
      → let files =
          file_at database_path a
          ∷ file_at settings_path b
          ∷ file_at encryption_key_path c
          ∷ recovery_file key in
        demands h (opened (some (recipe_of files))) (required_files files)
        ≡ good (record {
          required = required_files files;
          sqlite_paths = database_path ∷ [];
          env = env_names;
        })
  unfolding demands
  demands-good a b c none =
      let ((c1, l1, t1), ((c2, l2, t2), ((c3, l3, t3), _))) = plain in
      let (e1, (e2, _)) = trimmed in rw (t1, t2, t3, e1, e2, c1, c2, c3, l1, l2, l3) refl
  demands-good a b c (some key) =
      let ((c1, l1, t1), ((c2, l2, t2), ((c3, l3, t3), ((c4, l4, t4), _)))) = plain in
      let (e1, (e2, _)) = trimmed in
      rw (t1, t2, t3, t4, e1, e2, c1, c2, c3, c4, l1, l2, l3, l4) refl

present-is_present :
    (h : Host) (dir name : String)
    → IsPresent h dir name
    → is_present (h.lstat (h.join dir name)) ≡ true
present-is_present h dir name (info, found, regular, filled) =
    rw found (ground (arith, regular, filled))

missing_files-empty :
    (h : Host) (dir : String) (names : List String)
    → All (IsPresent h dir) names
    → missing_files h dir names ≡ []
unfolding missing_files
missing_files-empty h dir [] all = refl
missing_files-empty h dir (name ∷ names) (here, there) =
    rw (present-is_present h dir name here) (missing_files-empty h dir names there)

sqlite_checks-passed :
    (h : Host) (dir name : String)
    → IsPresent h dir name
    → IsSound h dir name
    → AllPassed (sqlite_checks h dir (name ∷ []))
unfolding sqlite_checks sqlite_integrity_check
sqlite_checks-passed h dir name there (absolute, at, ok) =
    rw (present-is_present h dir name there, at, ok) (refl, tt)

env_check-default :
    (h : Host) (name : String)
    → (name == "KY_PORT" || name == "KY_DB_DRIVER") ≡ true
    → (env_check h name).passed ≡ true
env_check-default h name e = elim (Bool-cases (h.is_env name)) [
  | inl set ↦ rw set refl
  | inr unset ↦ rw (unset, e) refl
]

-- A drill of what the capsule brought passes, where the files lie restored.
drill-passes :
    (h : Host) (dir : String) (required : List String)
    → All (IsPresent h dir) required
    → IsPresent h dir database_path
    → IsSound h dir database_path
    → AllPassed (
        checks_of h dir (
          good
            (record { required = required; sqlite_paths = database_path ∷ []; env = env_names })))
unfolding env_checks sqlite_checks
drill-passes h dir required all there sound = rw (missing_files-empty h dir required all) (
  refl,
  (
    (sqlite_checks-passed h dir database_path there sound).0,
    (env_check-default h "KY_PORT" refl, (env_check-default h "KY_DB_DRIVER" refl, tt)),
  ),
)

payload-passes {ℓ} :
    {A : Type ℓ} {B : Type 0} (m : Machine B) (cfg : Config A) (app_version : String) (database : B)
    (h : Host) (dir : String)
    → let p = payload_of cfg app_version (files_of m cfg database) in
      All (IsPlain h) member_paths
      → All (IsTrimmed h) env_names
      → All (IsPresent h dir) (required_files p.files)
      → IsSound h dir database_path
      → AllPassed (checks h dir (opened p.recipe) (required_files p.files))
unfolding checks
payload-passes m cfg app_version database h dir plain trimmed all sound =
    let key = m.read_file (m.recovery_key_path cfg.database.data_dir) in
    rw
      (demands-good h plain trimmed database (m.settings_json cfg.server cfg.database.driver)
        (m.hex_line cfg.security.encryption_key) key)
      (drill-passes h dir (required_files (files_of m cfg database)) all all.0 sound)

-- What the server seals, its own drill accepts: for every payload that is collected, whatever the
-- configuration, a drill of its files passes all its checks as soon as each of them lies regular
-- and not empty at its path and SQLite finds the database sound, the recipe as the capsule's JSON
-- gives it back; the four paths are clean local ones, and no name has spaces around it.
pub collect-AllPassed {ℓ} :
    {A : Type ℓ} {B : Type 0} (m : Machine B) (cfg : Config A) (app_version : String)
    (p : Payload B) (h : Host) (dir : String)
    → All (IsPlain h) member_paths
    → All (IsTrimmed h) env_names
    → collect m cfg app_version ≡ good p
    → All (IsPresent h dir) (required_files p.files)
    → IsSound h dir database_path
    → AllPassed (checks h dir (opened p.recipe) (required_files p.files))
collect-AllPassed {B = B} m cfg app_version p h dir plain trimmed e =
    let (database, same) = collect-payload m cfg app_version p e in
    subst
      (λ (q : Payload B).
        All (IsPresent h dir) (required_files q.files)
        → IsSound h dir database_path
        → AllPassed (checks h dir (opened q.recipe) (required_files q.files)))
      same (payload-passes m cfg app_version database h dir plain trimmed)
