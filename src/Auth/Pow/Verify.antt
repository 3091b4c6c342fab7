-- ===== src/Auth/Pow/Verify.antt =====
-- VerifyPoWSolution, on puzzles of GeneratePoWChallenge and on a solution sent twice.
use ky_server_base.Prelude.{
  ℕ, ◌+◌, ◌≤◌, String, ◌≡◌, refl, ◌≢◌, inl, inr, true, false, ◌&&◌, Option, none, some, List, arith,
  eq_iff, eq_refl, Bool-cases,
}
use ky_server_base.Prelude.Int.{ℤ, pos, negsuc, ltb_ℤ}
use ky_server_base.Dict.{lookup}
use Prim.Native.String.{◌++◌ as ◌^^◌}
use ky_server_base.Auth.Pow.{
  is_live, joined, PowEnv, PowChallenge, PowSolution, PowSpent, spend, generate, effective,
  well_formed, proves, verify,
}
use ky_server_base.Auth.Pow.Spent.{
  spend_fresh, spend_expired, IsSpentSet, spends, Until, spend_once, spend_expired,
}

-- The solution that a client sends for a puzzle.
abbrev pub solved : PowChallenge → ℤ → PowSolution
solved c number = record {
  algorithm = c.algorithm;
  salt = c.salt;
  challenge = c.challenge;
  number = number;
  max_number = c.max_number;
  expires_at = c.expires_at;
  signature = c.signature;
}

in_range :
    (difficulty : ℤ) (random now at : ℕ)
    → ltb_ℤ (pos random) (effective difficulty) ≡ true
    → at ≤ now + 300
    → (ltb_ℤ (pos (random + 1)) (pos 1) ≡ false)
      × (ltb_ℤ (effective difficulty) (pos 1) ≡ false)
      × (ltb_ℤ (effective difficulty) (pos (random + 1)) ≡ false)
      × (ltb_ℤ (pos (now + 300)) (pos at) ≡ false)
in_range (pos d) random now at h early = ground arith
in_range (negsuc d) random now at h early = ground arith

-- The winning number of a generated puzzle passes the tests of the secret, the work and the range.
solved-proves :
    (env : PowEnv) (difficulty : ℤ) (secret salt : String) (random now at : ℕ)
    → ((x : String) → env.sha256_hex x ≢ "")
    → ((x y : String) → env.hmac_sha256 x y ≢ "")
    → salt ≢ ""
    → ltb_ℤ (pos random) (effective difficulty) ≡ true
    → at ≤ now + 300
    → let sol = solved (generate env difficulty secret salt random now) (pos (random + 1)) in
      (well_formed at sol && proves env secret sol) ≡ true
unfolding well_formed proves generate
solved-proves env difficulty secret salt random now at digest mac salted drawn early =
    let (a, b, c, d) = in_range difficulty random now at drawn early in
    let challenge = env.sha256_hex (salt ^^ env.itoa (pos (random + 1))) in
    let text = joined env salt challenge (effective difficulty) (pos (now + 300)) in
    ground (
      arith,
      a,
      b,
      c,
      d,
      eq_iff salt "",
      eq_iff challenge "",
      digest (salt ^^ env.itoa (pos (random + 1))),
      mac text secret,
      eq_iff (env.hmac_sha256 text secret) "",
      eq_refl challenge,
      eq_refl (env.hmac_sha256 text secret),
    )

-- The winning number of a generated puzzle, sent within five minutes, is accepted by a server with
-- the same secret, whatever its spent set holds, if that has no live entry of the puzzle's salt,
-- and the set then has the salt until the puzzle's expiry; the digests are not empty, the salt is
-- not, and the number was drawn below the difficulty in force.
pub generate-verify :
    (env : PowEnv) (difficulty : ℤ) (secret salt encoded : String) (random now at later : ℕ)
    (p : PowSpent)
    → ((x : String) → env.sha256_hex x ≢ "")
    → ((x y : String) → env.hmac_sha256 x y ≢ "")
    → salt ≢ ""
    → ltb_ℤ (pos random) (effective difficulty) ≡ true
    → at ≤ now + 300
    → is_live later (lookup salt p.salts) ≡ false
    → env.decode encoded
      ≡ some (solved (generate env difficulty secret salt random now) (pos (random + 1)))
    → (q : PowSpent) × (verify env at later encoded secret (some p) ≡ (true, some q))
      × (lookup salt q.salts ≡ some (pos (now + 300)))
unfolding verify generate
generate-verify env difficulty secret salt encoded random now at later p digest mac salted drawn
      early unspent sent =
    let (fresh, held) = spend_fresh later salt (pos (now + 300)) p unspent in
    (
      (spend later salt (pos (now + 300)) p).1,
      rw
          (
            sent,
            verify,
            solved-proves env difficulty secret salt random now at digest mac salted drawn early,
            fresh,
          )
          refl,
      held,
    )

-- What acceptance by a server with a spent set says.
verify-accepts :
    (env : PowEnv) (now later : ℕ) (encoded secret : String) (p : PowSpent)
    → (verify env now later encoded secret (some p)).0 ≡ true
    → (sol : PowSolution) × (env.decode encoded ≡ some sol)
      × ((well_formed now sol && proves env secret sol) ≡ true)
      × ((spend later sol.salt sol.expires_at p).0 ≡ true)
      × ((verify env now later encoded secret (some p)).1
          ≡ some (spend later sol.salt sol.expires_at p).1)
verify-accepts env now later encoded secret p first = go (env.decode encoded) refl
  where
    go :
        (o : Option PowSolution)
        → env.decode encoded ≡ o
        → (sol : PowSolution) × (env.decode encoded ≡ some sol)
          × ((well_formed now sol && proves env secret sol) ≡ true)
          × ((spend later sol.salt sol.expires_at p).0 ≡ true)
          × ((verify env now later encoded secret (some p)).1
              ≡ some (spend later sol.salt sol.expires_at p).1)
    go none e = absurd (unfold verify in ground arith)
    go (some sol) e = (
      sol,
      e,
      unfold verify in ground arith,
      unfold verify in ground arith,
      unfold verify in ground arith,
    )

expired_refused :
    (env : PowEnv) (now later : ℕ) (encoded secret : String) (spent : Option PowSpent)
    (sol : PowSolution)
    → env.decode encoded ≡ some sol
    → ltb_ℤ sol.expires_at (pos now) ≡ true
    → (verify env now later encoded secret spent).0 ≡ false
unfolding verify
expired_refused env now later encoded secret spent sol e late = ground arith

spent_refused :
    (env : PowEnv) (now later : ℕ) (encoded secret : String) (p : PowSpent) (sol : PowSolution)
    → env.decode encoded ≡ some sol
    → (spend later sol.salt sol.expires_at p).0 ≡ false
    → (verify env now later encoded secret (some p)).0 ≡ false
unfolding verify
spent_refused env now later encoded secret p sol e used = unfold verify in ground arith

-- A solution that is accepted by a server whose spent set has each salt once is refused when it is
-- sent again, after any further salts were spent no later than then, if both clock readings of the
-- second call give the same second.
pub verify_once :
    (env : PowEnv) (now later at : ℕ) (encoded secret : String) (p q : PowSpent)
    (between : List (ℕ × String × ℤ))
    → IsSpentSet p
    → (verify env now later encoded secret (some p)).0 ≡ true
    → (verify env now later encoded secret (some p)).1 ≡ some q
    → Until at between
    → (verify env at at encoded secret (some (spends between q))).0 ≡ false
verify_once env now later at encoded secret p q between d first kept early =
    let (sol, e, good, fresh, state) = verify-accepts env now later encoded secret p first in
    let same : q ≡ (spend later sol.salt sol.expires_at p).1 = cc (kept, state) in
    elim (Bool-cases (ltb_ℤ sol.expires_at (pos at))) [
      | inl late ↦ expired_refused env at at encoded secret (some (spends between q)) sol e late
      | inr live ↦ spent_refused env at at encoded secret (spends between q) sol e (
          rw same (
            spend_once later at sol.salt sol.expires_at sol.expires_at p between d fresh early
              live))
    ]

-- Where the second of its expiry passes between the two clock readings of a call, a solution that
-- is well formed and proven is accepted although it is in the spent set.
pub verify_replayed_at_expiry :
    (env : PowEnv) (now later : ℕ) (encoded secret : String) (p : PowSpent) (sol : PowSolution)
    → env.decode encoded ≡ some sol
    → (well_formed now sol && proves env secret sol) ≡ true
    → lookup sol.salt p.salts ≡ some sol.expires_at
    → ltb_ℤ sol.expires_at (pos later) ≡ true
    → (verify env now later encoded secret (some p)).0 ≡ true
unfolding verify
verify_replayed_at_expiry env now later encoded secret p sol e good spent late =
    ground (arith, spend_expired later sol.salt sol.expires_at sol.expires_at p spent late)
