-- ===== src/Backup/Drill.antt =====
-- Checks of internal/backup/drill.go: what a restore drill demands of an opened capsule.
pub mod Demanded
pub mod Passed
use ky_server_base.Prelude.Checked.{Checked, good, bad, ◌>>=◌, ◌>>◌, >>=-good, >>-good}
use Prim.Native.Char
use Prim.Native.Nat
use Prim.Native.String.{◌++◌ as ◌^^◌}
use ky_server_base.Prelude.{
  is_char, ℕ, ◌+◌, ◌-◌, String, Bool, true, false, not, ◌&&◌, ◌||◌, Option, none, some, List, [],
  ◌∷◌, ◌++◌, ◌==◌, ltb, if◌then◌else◌, length,
}
use ky_server_base.Sql.{any}

-- A value of the recipe's JSON: a list of texts, a list of which some items are texts, a Boolean,
-- or anything else, nothing included.
pub data Entry : Type 0 where
  texts : List String → Entry
  items : List (Option String) → Entry
  flag : Bool → Entry
  other : Entry

-- The recipe's entries by name; none where the recipe is no object.
abbrev pub Recipe : Type 0
Recipe = Option (String → Entry)

pub record FileInfo : Type 0 where
  pub is_regular : Bool
  pub size : ℕ

-- What PRAGMA integrity_check of a file answers: the file is not opened, the query fails, or it
-- gives a text.
pub data Integrity : Type 0 where
  not_opened : Integrity
  no_answer : Integrity
  answers : String → Integrity

-- What the checks call of the system: strings.TrimSpace, filepath's Clean, IsLocal, Join and Abs,
-- os.Lstat, os.LookupEnv, the printing of a number, and SQLite's integrity check of a file.
pub record Host : Type 0 where
  pub trim_space : String → String
  pub clean : String → String
  pub is_local : String → Bool
  pub join : String → String → String
  pub abs : String → Option String
  pub lstat : String → Option FileInfo
  pub is_env : String → Bool
  pub print : ℕ → String
  pub integrity_check : String → Integrity

pub record Check : Type 0 where
  pub name : String
  pub passed : Bool
  pub message : String

abbrev pub failed_check : String → String → Check
failed_check name message = record { name = name; passed = false; message = message }

abbrev pub passed_check : String → String → Check
passed_check name message = record { name = name; passed = true; message = message }

abbrev pub demand : Bool → String → Checked String (Unit {0})
demand true message = good tt
demand false message = bad message

-- strings.ContainsRune, for a rune by its code.
unfoldable pub has_rune : ℕ → String → Bool
has_rune n String.[] = false
has_rune n (String.◌∷◌ c s) = if is_char n c then true else has_rune n s

-- slices.Contains
unfoldable pub contains : List String → String → Bool
unfolding any
contains list name = any (λ x. x == name) list

-- The items of a list of any values, if all are texts.
unfoldable pub all_texts : List (Option String) → Checked String (List String)
all_texts [] = good []
all_texts (none ∷ rest) = bad "expected strings"
all_texts (some s ∷ rest) = all_texts rest >>= λ list. good (s ∷ list)

abbrev pub list_of : Entry → Checked String (List String)
list_of (texts list) = good list
list_of (items list) = all_texts list
list_of _ = bad "expected a nonempty string list"

abbrev pub is_empty : List String → Bool
is_empty [] = true
is_empty (x ∷ xs) = false

abbrev pub prefixed {ℓ} : {A : Type ℓ} → String → Checked String A → Checked String A
prefixed prefix (good a) = good a
prefixed prefix (bad message) = bad (prefix ^^ message)

unfoldable pub recipe_strings : Host → Entry → Checked String (List String)
unfolding all_texts any has_rune
recipe_strings h value = do
  list ← list_of value
  demand (not (is_empty list)) "expected a nonempty string list"
  demand (not (any (λ s. h.trim_space s == "" || has_rune 0 s) list))
      "invalid empty or NUL-containing member"
  good list

-- A clean relative path below the drill's directory.
unfoldable pub is_drill_path : Host → String → Bool
unfolding has_rune
is_drill_path h name =
    (h.clean name == name && not (name == "."))
    && (h.is_local name && not (has_rune 92 name || has_rune 0 name))

-- Each of the names stands in the list; the first that does not is named.
unfoldable pub includes : String → List String → List String → Checked String (Unit {0})
unfolding contains
includes omission list [] = good tt
includes omission list (name ∷ names) = do
  demand (contains list name) (omission ^^ name)
  includes omission list names

-- Every file of the capsule is required.
unfoldable pub covers : List String → List String → Checked String (Unit {0})
unfolding contains
covers required [] = good tt
covers required (file ∷ files) = do
  demand (contains required file) "required_files omits a capsule member"
  covers required files

-- Every path is clean and a member of the capsule.
unfoldable pub are_members : Host → List String → List String → Checked String (Unit {0})
unfolding contains is_drill_path
are_members h files [] = good tt
are_members h files (name ∷ names) = do
  demand (is_drill_path h name && contains files name)
      "File check must name a clean relative capsule member"
  are_members h files names

abbrev pub database_path : String
database_path = "data/ky_server.db"

abbrev pub settings_path : String
settings_path = "config/settings.json"

abbrev pub encryption_key_path : String
encryption_key_path = "data/encryption.key"

pub record Demands : Type 0 where
  pub required : List String
  pub sqlite_paths : List String
  pub env : List String

abbrev is_on : Entry → Bool
is_on (flag on) = on
is_on _ = false

abbrev object_of : Recipe → Checked String (String → Entry)
object_of none = bad "Expected a recipe object"
object_of (some recipe) = good recipe

-- The demands of a recipe that is in order; `files` are the paths of the capsule.
unfoldable pub demands : Host → Recipe → List String → Checked String Demands
unfolding recipe_strings includes covers are_members
demands h value files = do
  recipe ← object_of value
  required ← prefixed "required_files: " (recipe_strings h (recipe "required_files"))
  sqlite_paths ← prefixed "sqlite_paths: " (recipe_strings h (recipe "sqlite_paths"))
  env ← prefixed "expected_env: " (recipe_strings h (recipe "expected_env"))
  demand (is_on (recipe "check_sqlite_integrity")) "check_sqlite_integrity must be true"
  includes "required_files omits " required
      (database_path ∷ settings_path ∷ encryption_key_path ∷ [])
  demand (contains sqlite_paths database_path) "sqlite_paths omits the database"
  includes "expected_env omits " env ("KY_PORT" ∷ "KY_DB_DRIVER" ∷ [])
  covers required files
  are_members h files required
  are_members h files sqlite_paths
  good (record { required = required; sqlite_paths = sqlite_paths; env = env })

abbrev pub is_present : Option FileInfo → Bool
is_present none = false
is_present (some info) = info.is_regular && ltb 0 info.size

-- One failed check for each required file that is missing, empty or not regular.
unfoldable pub missing_files : Host → String → List String → List Check
missing_files h dir [] = []
missing_files h dir (name ∷ names) =
    let rest = missing_files h dir names in
    if is_present (h.lstat (h.join dir name))
    then rest
    else failed_check ("Required File: " ^^ name) "File missing, empty or not regular" ∷ rest

abbrev pub file_checks : Host → ℕ → List Check → List Check
file_checks h count [] =
    passed_check "Required Files" (("All " ^^ h.print count) ^^ " required files verified") ∷ []
file_checks h count missing = missing

abbrev pub answered : String → Integrity → Check
answered name not_opened = failed_check name "Failed to open database"
answered name no_answer = failed_check name "PRAGMA integrity_check failed"
answered name (answers result) =
    if result == "ok"
    then passed_check name "PRAGMA integrity_check passed ok"
    else failed_check name "PRAGMA integrity_check failed"

abbrev pub integrity_of : Host → String → Option String → Check
integrity_of h name none = failed_check name "Invalid database path"
integrity_of h name (some absolute) = answered name (h.integrity_check absolute)

unfoldable pub sqlite_integrity_check : Host → String → String → Check
sqlite_integrity_check h name path =
    let title = "SQLite Integrity: " ^^ name in
    if is_present (h.lstat path)
    then integrity_of h title (h.abs path)
    else failed_check title "Database missing, empty or not regular"

unfoldable pub sqlite_checks : Host → String → List String → List Check
unfolding sqlite_integrity_check
sqlite_checks h dir [] = []
sqlite_checks h dir (name ∷ names) =
    sqlite_integrity_check h name (h.join dir name) ∷ sqlite_checks h dir names

-- KY_PORT and KY_DB_DRIVER have defaults, so that leaving them unset is in order.
abbrev pub env_check : Host → String → Check
env_check h name =
    let title = "Environment: " ^^ name in
    if h.is_env name
    then passed_check title "Configured"
    else if name == "KY_PORT" || name == "KY_DB_DRIVER"
    then passed_check title "Not set; the default applies"
    else failed_check title "Missing"

unfoldable pub env_checks : Host → List String → List Check
env_checks h [] = []
env_checks h (name ∷ names) = env_check h name ∷ env_checks h names

abbrev pub checks_of : Host → String → Checked String Demands → List Check
checks_of h dir (bad message) = failed_check "Verification Recipe" message ∷ []
checks_of h dir (good d) =
    file_checks h (length d.required) (missing_files h dir d.required)
    ++ (sqlite_checks h dir d.sqlite_paths ++ env_checks h d.env)

unfoldable pub checks : Host → String → Recipe → List String → List Check
unfolding demands missing_files sqlite_checks env_checks
checks h dir recipe files = checks_of h dir (demands h recipe files)
