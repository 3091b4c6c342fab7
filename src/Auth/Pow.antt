-- ===== src/Auth/Pow.antt =====
-- The proof-of-work puzzle of internal/auth/pow.go. Times are unix seconds.
pub mod Spent
pub mod Verify
use Prim.Native.String.{◌++◌ as ◌^^◌}
use ky_server_base.Prelude.{
  ℕ, ◌+◌, ◌-◌, ◌*◌, max, String, Bool, true, false, not, ◌&&◌, Option, none, some, List, [], ◌==◌,
  leb, if◌then◌else◌, length,
}
use ky_server_base.Prelude.Int.{ℤ, pos, ltb_ℤ}
use ky_server_base.Dict.{lookup, insert, delete_if}

pub record PowChallenge : Type 0 where
  pub algorithm : String
  pub salt : String
  pub challenge : String
  pub max_number : ℤ
  pub expires_at : ℤ
  pub signature : String

pub record PowSolution : Type 0 where
  pub algorithm : String
  pub salt : String
  pub challenge : String
  pub number : ℤ
  pub max_number : ℤ
  pub expires_at : ℤ
  pub signature : String

-- What the puzzle takes from the standard library: SHA-256 in hex, HMAC-SHA256 in hex (data, then
-- secret), decimal printing, and reading a solution from its base64 form (padded or raw) as JSON.
pub record PowEnv : Type 0 where
  pub sha256_hex : String → String
  pub hmac_sha256 : String → String → String
  pub itoa : ℤ → String
  pub decode : String → Option PowSolution

-- config.DefaultPoWDifficulty
abbrev pub default_difficulty : ℕ
default_difficulty = 500000

abbrev pub effective : ℤ → ℤ
effective difficulty = if ltb_ℤ (pos 0) difficulty then difficulty else pos default_difficulty

abbrev pub joined : PowEnv → String → String → ℤ → ℤ → String
joined env salt challenge max_number expires_at =
    salt ^^ (":" ^^ (challenge ^^ (":" ^^ (env.itoa max_number ^^ (":" ^^ env.itoa expires_at)))))

-- The puzzle of a random salt and a random number below the difficulty.
unfoldable pub generate : PowEnv → ℤ → String → String → ℕ → ℕ → PowChallenge
generate env difficulty secret salt random now = record {
  algorithm = "SHA-256";
  salt = salt;
  challenge = challenge;
  max_number = effective difficulty;
  expires_at = pos (now + 300);
  signature =
      env.hmac_sha256 (joined env salt challenge (effective difficulty) (pos (now + 300))) secret;
}
  where
    challenge : String
    challenge = env.sha256_hex (salt ^^ env.itoa (pos (random + 1)))

pub record PowSpent : Type 0 where
  pub salts : List (String × ℤ)
  pub prune_at : ℕ

abbrev pub new_spent : PowSpent
new_spent = record { salts = []; prune_at = 1024 }

-- `exp, ok := p.salts[salt]; ok && exp >= now`
abbrev pub is_live : ℕ → Option ℤ → Bool
is_live now none = false
is_live now (some expires) = not (ltb_ℤ expires (pos now))

-- Expired salts go when the set has reached its mark, and the mark follows the rest.
unfoldable pub prune : ℕ → PowSpent → PowSpent
prune now p =
    if leb p.prune_at (length p.salts)
    then (let kept = delete_if (λ expires. ltb_ℤ expires (pos now)) p.salts in
        record { salts = kept; prune_at = max 1024 (2 * length kept) })
    else p

unfoldable pub spend : ℕ → String → ℤ → PowSpent → Bool × PowSpent
unfolding prune
spend now salt expires p =
    if is_live now (lookup salt p.salts)
    then (false, p)
    else let q = prune now p in (true, record q { salts = insert salt expires q.salts })

-- The tests that need no secret.
unfoldable pub well_formed : ℕ → PowSolution → Bool
well_formed now sol =
    sol.algorithm == "SHA-256"
    && (not (sol.salt == "")
        && (not (sol.challenge == "")
            && (not (sol.signature == "")
                && (not (ltb_ℤ sol.number (pos 1))
                    && (not (ltb_ℤ sol.max_number (pos 1))
                        && (not (ltb_ℤ sol.max_number sol.number)
                            && not (ltb_ℤ sol.expires_at (pos now))))))))

-- The signature and the work.
unfoldable pub proves : PowEnv → String → PowSolution → Bool
proves env secret sol =
    env.hmac_sha256 (joined env sol.salt sol.challenge sol.max_number sol.expires_at) secret
      == sol.signature
    && env.sha256_hex (sol.salt ^^ env.itoa sol.number) == sol.challenge

-- `none` for the spent set is Go's nil: nothing is recorded. `now` and `later` are the times of the
-- expiry test and of the entry into the set.
unfoldable pub verify : PowEnv → ℕ → ℕ → String → String → Option PowSpent → Bool × Option PowSpent
unfolding well_formed proves spend
verify env now later encoded secret spent = elim (env.decode encoded) [
  | none ↦ (false, spent)
  | some sol ↦
      if not (well_formed now sol && proves env secret sol) then (false, spent) else elim spent [
        | none ↦ (true, none)
        | some p ↦ let (fresh, q) = spend later sol.salt sol.expires_at p in (fresh, some q)
      ]
]
