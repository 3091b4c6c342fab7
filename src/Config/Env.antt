-- ===== src/Config/Env.antt =====
-- The environment that internal/config/config.go reads, its readers of single variables, and a
-- check that refuses the start.
use ky_server_base.Prelude.Checked.{Checked, good, bad}
use ky_server_base.Prelude.Int.{ℤ, pos, negsuc}
use ky_server_base.Prelude.{ℕ, ◌*◌, String, Bool, ◌||◌, Option, none, some, ◌==◌, if◌then◌else◌}
use ky_server_base.Config.Proxies.{Refusal}

-- What keyfile.FromEnv answers: an error, no variable, or the key.
pub data KeyRead : Type 0 where
  malformed unset : KeyRead
  key_given : String → KeyRead

-- The environment; strings.TrimSpace, strings.ToLower, strconv.Atoi, time.ParseDuration, the
-- printing of an int and filepath.Join; the two calls of ky-primitives/keyfile, of which the second
-- may fail; and the two texts that are drawn at random.
pub record Os : Type 0 where
  pub lookup_env : String → Option String
  pub trim_space : String → String
  pub to_lower : String → String
  pub atoi : String → Option ℤ
  pub parse_duration : String → Option ℤ
  pub print_int : ℤ → String
  pub join : String → String → String
  pub key_from_env : KeyRead
  pub load_or_create : String → Option String
  pub drawn_secret : String
  pub drawn_token : String

pub data ConfigError : Type 0 where
  secret_required secret_too_short key_malformed key_unavailable : ConfigError
  duration_malformed duration_negative interval_below_minimum keep_below_one : ConfigError
  insecure_cookies_on_https cookie_domain_on_https : ConfigError
  bad_trusted_proxies : Refusal → ConfigError

abbrev pub value_or : String → String → String
value_or given default = if given == "" then default else given

abbrev pub default_interval : ℕ
default_interval = 24 * (3600 * 1000000000)

abbrev pub min_deposit_interval : ℕ
min_deposit_interval = 15 * (60 * 1000000000)

abbrev pub default_pow_difficulty : ℕ
default_pow_difficulty = 500000

abbrev pub default_app_name : String
default_app_name = "Busnes.app"

-- A blank value counts as none.
unfoldable pub get_env : Os → String → String → String
get_env os key default = elim (os.lookup_env key) [
  | none ↦ default
  | some value ↦ value_or (os.trim_space value) default
]

abbrev int_or : ℤ → Option ℤ → ℤ
int_or default none = default
int_or default (some n) = n

unfoldable pub get_env_int : Os → String → ℤ → ℤ
get_env_int os key default = elim (os.lookup_env key) [
  | none ↦ default
  | some value ↦ int_or default (os.atoi (os.trim_space value))
]

abbrev is_yes : String → Bool
is_yes value = value == "true" || (value == "1" || (value == "yes" || value == "on"))

-- A value that is there but none of the four words is false, a blank one too.
unfoldable pub get_env_bool : Os → String → Bool → Bool
get_env_bool os key default = elim (os.lookup_env key) [
  | none ↦ default
  | some value ↦ is_yes (os.to_lower (os.trim_space value))
]

abbrev not_negative : Option ℤ → Checked ConfigError ℕ
not_negative none = bad duration_malformed
not_negative (some (pos n)) = good n
not_negative (some (negsuc n)) = bad duration_negative

abbrev duration_of : Os → ℕ → String → Checked ConfigError ℕ
duration_of os default value =
    if value == "" then good default else not_negative (os.parse_duration value)

unfoldable pub get_env_duration : Os → String → ℕ → Checked ConfigError ℕ
get_env_duration os key default = elim (os.lookup_env key) [
  | none ↦ good default
  | some value ↦ duration_of os default (os.trim_space value)
]
