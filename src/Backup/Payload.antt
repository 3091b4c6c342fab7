-- ===== src/Backup/Payload.antt =====
-- internal/backup/payload.go: what a capsule carries, and the recipe that its drill follows.
pub mod Accepted
use ky_server_base.Prelude.Checked.{Checked, good, bad, ◌>>=◌, ◌>>◌, refuse_if, >>=-good, >>-good}
use Prim.Native.Char
use Prim.Native.Nat
use Prim.Native.String.{◌++◌ as ◌^^◌}
use text.Mathlib.Text
use ky_server_base.Prelude.{
  ℕ, String, Bool, true, false, not, ◌&&◌, Option, none, some, List, [], ◌∷◌, map, ◌==◌, ltb, leb,
  if◌then◌else◌,
}
use ky_server_base.Prelude.Int.{ℤ}
use ky_server_base.Config.Values.{Config, ServerConfig}
use ky_server_base.Backup.Drill.{
  Entry, texts, flag, other, Recipe, database_path, settings_path, encryption_key_path,
}

-- What the payload is made with, over a type of bytes: strings.ToLower, strings.TrimPrefix of
-- "file:", strings.Cut at "?" (the part before), filepath's Join and Abs, the printing of a quoted
-- text, hex.EncodeToString with a line feed, json.MarshalIndent of the settings, the length of a
-- key; then what the calls on the files answer: sql.Open and os.MkdirTemp, recoveryclient's
-- SQLiteSnapshot (its error, if any), os.Stat's size and os.ReadFile. `max_bytes` is
-- recoveryclient.MaxCapsuleFileBytes and `recovery_key_path` its RecoveryKeyPath.
pub record Machine (B : Type 0) : Type 0 where
  pub to_lower : String → String
  pub trim_file_prefix : String → String
  pub before_question : String → String
  pub join : String → String → String
  pub abs : String → Option String
  pub quote : String → String
  pub hex_line : String → B
  pub settings_json : ServerConfig → String → B
  pub key_len : String → ℕ
  pub opens : String → Bool
  pub make_temp : String → Option String
  pub sqlite_snapshot : String → String → Option String
  pub stat_size : String → Option ℕ
  pub read_file : String → Option B
  pub max_bytes : ℕ
  pub recovery_key_path : String → String

-- A file of the capsule, which gets the mode 0600.
pub record File (B : Type 0) : Type 0 where
  pub path : String
  pub content : B

-- recoveryclient.Payload; `recipe` is VerificationRecipe.
pub record Payload (B : Type 0) : Type 0 where
  pub service_name : String
  pub app_version : String
  pub files : List (File B)
  pub ports : List ℤ
  pub env : List String
  pub recipe : Recipe

-- The first is ErrNoDatabaseSnapshot with its text.
pub data CollectError : Type 0 where
  no_database_snapshot : String → CollectError
  capsule_too_large key_of_wrong_size io_failed : CollectError

abbrev pub or_io {ℓ} : {A : Type ℓ} → Option A → Checked CollectError A
or_io none = bad io_failed
or_io (some a) = good a

abbrev pub recovery_pub_path : String
recovery_pub_path = "data/recovery.pub"

abbrev are_same : Option String → Option String → Bool
are_same (some got) (some want) = got == want
are_same _ _ = false

-- The error's text, where the SQLite database is not the one that a capsule restores.
unfoldable pub check_database_path {ℓ} :
    {A : Type ℓ} {B : Type 0} → Machine B → Config A → Option String
check_database_path m cfg =
    let path = m.before_question (m.trim_file_prefix cfg.database.dsn) in
    let want = m.join cfg.database.data_dir "ky_server.db" in
    if not (m.to_lower cfg.database.driver == "sqlite")
    then none
    else if are_same (m.abs path) (m.abs want)
    then none
    else some (
        "backup: the SQLite database is "
        ^^ (m.quote path
            ^^ (", but a capsule restores only "
                ^^ (m.quote want
                    ^^ " (KY_DATA_DIR/ky_server.db); unset KY_DB_DSN or move the database there"))))

abbrev pub no_snapshot : String → CollectError
no_snapshot text =
    no_database_snapshot ("backup: no consistent database snapshot for this driver: " ^^ text)

abbrev pub refuse_with : (String → CollectError) → Option String → Checked CollectError (Unit {0})
refuse_with e none = good tt
refuse_with e (some text) = bad (e text)

-- The directory of the snapshot is removed in the end.
unfoldable pub snapshot_sqlite : {B : Type 0} → Machine B → String → String → Checked CollectError B
snapshot_sqlite m dsn data_dir = do
  refuse_if (not (m.opens dsn)) io_failed
  dir ← or_io (m.make_temp data_dir)
  let path = m.join dir "ky_server.db"
  refuse_with no_snapshot (m.sqlite_snapshot dsn path)
  size ← or_io (m.stat_size path)
  refuse_if (ltb m.max_bytes size) capsule_too_large
  or_io (m.read_file path)

abbrev pub file_at : {B : Type 0} → String → B → File B
file_at path content = record { path = path; content = content }

-- The recovery key is a member where it can be read.
abbrev pub recovery_file : {B : Type 0} → Option B → List (File B)
recovery_file none = []
recovery_file (some key) = file_at recovery_pub_path key ∷ []

abbrev pub files_of {ℓ} : {A : Type ℓ} {B : Type 0} → Machine B → Config A → B → List (File B)
files_of m cfg database =
    file_at database_path database
    ∷ file_at settings_path (m.settings_json cfg.server cfg.database.driver)
    ∷ file_at encryption_key_path (m.hex_line cfg.security.encryption_key)
    ∷ recovery_file (m.read_file (m.recovery_key_path cfg.database.data_dir))

abbrev pub required_files : {B : Type 0} → List (File B) → List String
required_files files = map (λ f. f.path) files

abbrev pub env_names : List String
env_names = "KY_PORT" ∷ "KY_DB_DRIVER" ∷ []

abbrev pub recipe_of : {B : Type 0} → List (File B) → String → Entry
recipe_of files name =
    if name == "check_sqlite_integrity"
    then flag true
    else if name == "sqlite_paths"
    then texts (database_path ∷ [])
    else if name == "required_files"
    then texts (required_files files)
    else if name == "expected_env"
    then texts env_names
    else other

abbrev pub payload_of {ℓ} :
    {A : Type ℓ} {B : Type 0} → Config A → String → List (File B) → Payload B
payload_of cfg app_version files = record {
  service_name = cfg.server.app_name;
  app_version = app_version;
  files = files;
  ports = cfg.server.port ∷ [];
  env = env_names;
  recipe = some (recipe_of files);
}

abbrev is_32 : ℕ → Bool
is_32 n = leb 32 n && leb n 32

unfoldable pub collect {ℓ} :
    {A : Type ℓ} {B : Type 0} → Machine B → Config A → String → Checked CollectError (Payload B)
unfolding check_database_path snapshot_sqlite
collect m cfg app_version = do
  refuse_if (not (m.to_lower cfg.database.driver == "sqlite")) (no_snapshot cfg.database.driver)
  refuse_with no_database_snapshot (check_database_path m cfg)
  database ← snapshot_sqlite m cfg.database.dsn cfg.database.data_dir
  refuse_if (not (is_32 (m.key_len cfg.security.encryption_key))) key_of_wrong_size
  good (payload_of cfg app_version (files_of m cfg database))

abbrev pub recovery_member : Option ℕ → List String
recovery_member none = []
recovery_member (some size) = recovery_pub_path ∷ []

-- What the screen says that a capsule carries now.
unfoldable pub members {ℓ} : {A : Type ℓ} {B : Type 0} → Machine B → Config A → List String
members m cfg =
    database_path
    ∷ settings_path
    ∷ encryption_key_path
    ∷ recovery_member (m.stat_size (m.recovery_key_path cfg.database.data_dir))
