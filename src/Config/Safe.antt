-- ===== src/Config/Safe.antt =====
-- What a configuration guarantees that LoadFromEnv accepts (internal/config/config.go).
use Prim.Native.String.{◌++◌ as ◌^^◌}
use ky_server_base.Prelude.Checked.{good, >>=-good, good_inj}
use text.Mathlib.Text.{starts_with}
use ky_server_base.Prelude.{
  ℕ, zero, suc, ◌≤◌, String, ◌≡◌, refl, subst, ◌≢◌, ◌⊎◌, Bool, true, List, arith, eq_iff,
}
use ky_server_base.Prelude.Int.{ℤ, pos, negsuc}
use ky_server_base.Config.Texts.{trim_right_slashes, byte_len}
use ky_server_base.Config.Proxies.{Prefix, Netip, parse_trusted_proxies, parsed}
use ky_server_base.Config.Values.{Config}
use ky_server_base.Config.Env.{get_env_int, Os, get_env, min_deposit_interval}
use ky_server_base.Config.Load.{
  load_from_env, session_secret_of, encryption_key_of, deposit_interval_of, backup_keep_of,
  trusted_proxies_of, cookies_of, Cookies,
}

-- A secret is long enough, and in production it is the operator's own.
abbrev pub IsSecret : Os → String → String → Type 0
IsSecret os env secret =
    (16 ≤ byte_len secret)
    × (env ≡ "production" → (secret ≡ get_env os "KY_SESSION_SECRET" "") × (secret ≢ ""))

session_secret_of-IsSecret :
    (os : Os) (env secret : String)
    → session_secret_of os env ≡ good secret
    → IsSecret os env secret
unfolding session_secret_of
session_secret_of-IsSecret os env secret e =
    let given = get_env os "KY_SESSION_SECRET" "" in
    (
      ground arith,
      λ live. (
        ground (arith, eq_iff env "production", eq_iff given ""),
        λ blank. ground (arith, eq_iff env "production", eq_iff given "", eq_iff secret ""),
      ),
    )

abbrev pub IsInterval : ℕ → Type 0
IsInterval n = (n ≡ 0) ⊎ (min_deposit_interval ≤ n)

deposit_interval_of-IsInterval : (os : Os) (n : ℕ) → deposit_interval_of os ≡ good n → IsInterval n
unfolding deposit_interval_of
deposit_interval_of-IsInterval os n e = ground arith

backup_keep_of-pos :
    (os : Os) (keep : ℤ) → backup_keep_of os ≡ good keep → (n : ℕ) × (keep ≡ pos (suc n))
unfolding backup_keep_of
backup_keep_of-pos os (pos zero) e = ground arith
backup_keep_of-pos os (pos (suc n)) e = (n, refl)
backup_keep_of-pos os (negsuc n) e = ground arith

-- On https a browser takes the cookies as __Host- cookies.
abbrev pub IsHostSafe : Bool → Bool → String → Type 0
IsHostSafe https secure domain = https ≡ true → (secure ≡ true) × (domain ≡ "")

cookies_of-IsHostSafe :
    (os : Os) (env app_url : String) (c : Cookies)
    → cookies_of os env app_url ≡ good c
    → IsHostSafe (starts_with (os.to_lower app_url) "https://") c.secure c.domain
      × (c.host ≡ starts_with (os.to_lower app_url) "https://")
unfolding cookies_of
cookies_of-IsHostSafe os env app_url c e =
    let domain = get_env os "KY_COOKIE_DOMAIN" "" in
    (λ h. (ground arith, ground (arith, eq_iff domain "")), ground arith)

trusted_proxies_of-parsed {ℓ} :
    {A : Type ℓ} (os : Os) (net : Netip A) (ps : List (Prefix A))
    → trusted_proxies_of os net ≡ good ps
    → parse_trusted_proxies net (get_env os "KY_TRUSTED_PROXIES" "") ≡ parsed ps
unfolding trusted_proxies_of
trusted_proxies_of-parsed os net ps e = ground arith

-- The address of the server as the environment gives it, or the default.
abbrev pub app_url_of : Os → String
app_url_of os = get_env os "KY_APP_URL" (
    "http://localhost:"
    ^^ os.print_int (get_env_int os "KY_PORT" (get_env_int os "PORT" (pos 8080))))

abbrev pub is_https : Os → Bool
is_https os = starts_with (os.to_lower (app_url_of os)) "https://"

-- What LoadFromEnv guarantees of the configuration that it returns.
pub record IsSafe {ℓ} {A : Type ℓ} (os : Os) (net : Netip A) (cfg : Config A) : Type ℓ where
  pub secret : IsSecret os cfg.server.environment cfg.security.session_secret
  pub interval : IsInterval cfg.backup.deposit_interval
  pub keep : (n : ℕ) × (cfg.backup.keep ≡ pos (suc n))
  pub host_cookies : cfg.security.host_cookies ≡ is_https os
  pub cookies : IsHostSafe (is_https os) cfg.security.cookie_secure cfg.security.cookie_domain
  pub app_url : cfg.server.app_url ≡ trim_right_slashes (app_url_of os)
  pub proxies :
      parse_trusted_proxies net (get_env os "KY_TRUSTED_PROXIES" "")
      ≡ parsed cfg.security.trusted_proxies

-- A configuration that is accepted is safe: the session secret is at least sixteen bytes, and in
-- production it is that of the environment; the schedule is off or at least fifteen minutes; at
-- least one capsule is kept; the cookies are __Host- cookies just where the address of the server
-- starts with https://, in any letter case, and there they are Secure and without a domain; and
-- the allowlist is what the variable holds, every entry of it parsed.
pub load_from_env-IsSafe {ℓ} :
    {A : Type ℓ} (os : Os) (net : Netip A) (cfg : Config A)
    → load_from_env os net ≡ good cfg
    → IsSafe os net cfg
unfolding load_from_env
load_from_env-IsSafe {A} os net cfg e =
    let (secret, s, e1) = >>=-good (session_secret_of os (get_env os "KY_ENV" "development")) _ e in
    let (key, k, e2) = >>=-good (encryption_key_of os _) _ e1 in
    let (interval, i, e3) = >>=-good (deposit_interval_of os) _ e2 in
    let (keep, n, e4) = >>=-good (backup_keep_of os) _ e3 in
    let (proxies, p, e5) = >>=-good (trusted_proxies_of os net) _ e4 in
    let (cookies, c, e6) = >>=-good (cookies_of os (get_env os "KY_ENV" "development") _) _ e5 in
    subst (λ (x : Config A). IsSafe os net x) (good_inj _ refl e6)
      (record {
        secret = session_secret_of-IsSecret os _ secret s;
        interval = deposit_interval_of-IsInterval os interval i;
        keep = backup_keep_of-pos os keep n;
        host_cookies = (cookies_of-IsHostSafe os _ _ cookies c).1;
        cookies = (cookies_of-IsHostSafe os _ _ cookies c).0;
        app_url = refl;
        proxies = trusted_proxies_of-parsed os net proxies p;
      })
