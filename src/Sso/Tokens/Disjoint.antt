-- ===== src/Sso/Tokens/Disjoint.antt =====
-- No token is taken both for an ID token and for a logout token (internal/sso).
use ky_server_base.Prelude.{
  ℕ, String, ◌≡◌, refl, sym, ap, ◌∙◌, ◌≢◌, inl, inr, Bool, true, false, not, ◌&&◌, ◌||◌, Option,
  none, some, List, arith, ◌==◌, eq_iff, Bool-cases, Option-cases,
}
use ky_server_base.Sso.{LogoutClaims}
use ky_server_base.Sso.Tokens.{
  RawClaims, IdToken, IdentityClaims, Verified, verified, unverified, Flow, flow_config,
  LogoutToken, claims_from_id_token, exchange, verify_logout, checked_logout, is_logout_type,
  is_logout_claims, logout_claims, identity, roles_of, expect_nonce, with_id_token,
}

verified_inj {ℓ} : {A : Type ℓ} {x y : A} → verified x ≡ verified y → x ≡ y
verified_inj e = cc e

both_left : (a b : Bool) → (a && b) ≡ true → a ≡ true
both_left true b h = refl
both_left false b h = h

both_right : (a b : Bool) → (a && b) ≡ true → b ≡ true
both_right true b h = h
both_right false b h = absurd (cc h)

payload_inj : {a b : String} → some (some a) ≡ some (some b) → a ≡ b
payload_inj e = cc e

-- The token that an exchange rests on.
abbrev pub IsExchanged : (String → Option IdToken) → String → String → IdentityClaims → Type 0
IsExchanged verify expected raw claims =
    (raw ≢ "")
    × ((token : IdToken) × (verify raw ≡ some token)
        × (token.nonce ≡ expected)
        × (expected ≢ "")
        × (claims.issued_at ≡ token.issued_at))
    × (claims.subject ≢ "")

identity-subject :
    (raw : RawClaims) (issued_at : ℕ) (roles : Verified (Option (List String)))
    (claims : IdentityClaims)
    → identity raw issued_at roles ≡ verified claims
    → (claims.subject ≡ raw.sub) × (claims.issued_at ≡ issued_at)
identity-subject raw issued_at (verified roles) claims e = ground arith
identity-subject raw issued_at (unverified x) claims e = absurd (cc e)

claims_from-subject :
    (token : IdToken) (claims : IdentityClaims)
    → claims_from_id_token token ≡ verified claims
    → (claims.subject ≢ "") × (claims.issued_at ≡ token.issued_at)
unfolding claims_from_id_token
claims_from-subject token claims e = elim (Option-cases token.claims) [
  | inl undecoded ↦ absurd (cc (rw (undecoded, claims_from_id_token) at e))
  | inr (raw, decoded) ↦ elim (Bool-cases (raw.sub == "")) [
    | inl blank ↦ absurd (cc (rw (decoded, claims_from_id_token, blank) at e))
    | inr named ↦
        let (sub, at_time) =
          identity-subject raw token.issued_at (roles_of raw.roles) claims
            (rw (decoded, claims_from_id_token, named) at e) in
        (λ h. ground (arith, eq_iff raw.sub ""), at_time)
  ]
]

expect_nonce-token :
    (expected : String) (o : Option IdToken) (claims : IdentityClaims)
    → expect_nonce expected o ≡ verified claims
    → ((token : IdToken) × (o ≡ some token)
        × (token.nonce ≡ expected)
        × (expected ≢ "")
        × (claims.issued_at ≡ token.issued_at))
      × (claims.subject ≢ "")
expect_nonce-token expected none claims e = absurd (cc e)
expect_nonce-token expected (some token) claims e =
    let passed : (expected == "" || not (token.nonce == expected)) ≡ false = ground arith in
    let (named, at_time) = claims_from-subject token claims (rw passed at e) in
    (
      (
        token,
        refl,
        ground (arith, eq_iff token.nonce expected),
        λ blank. ground (arith, eq_iff expected ""),
        at_time,
      ),
      named,
    )

with_id_token-IsExchanged :
    (verify : String → Option IdToken) (expected : String) (o : Option (Option String))
    (claims : IdentityClaims)
    → with_id_token verify expected o ≡ verified claims
    → (raw : String) × (o ≡ some (some raw)) × IsExchanged verify expected raw claims
with_id_token-IsExchanged verify expected none claims e = absurd (cc e)
with_id_token-IsExchanged verify expected (some none) claims e = absurd (cc e)
with_id_token-IsExchanged verify expected (some (some raw)) claims e =
    elim (Bool-cases (raw == "")) [
      | inl blank ↦ absurd (cc (rw blank at e))
      | inr given ↦
          let (token, named) = expect_nonce-token expected (verify raw) claims (rw given at e) in
          (raw, refl, (λ h. ground (arith, eq_iff raw ""), token, named))
    ]

-- An exchange that succeeds rests on a raw ID token that verifies, carries the nonce that the
-- browser's cookie held, which is not blank, and names a subject.
pub exchange-IsExchanged :
    (f : Flow) (answer : String → String → Option (Option String))
    (verify : String → Option IdToken) (code verifier expected : String) (claims : IdentityClaims)
    → exchange f answer verify code verifier expected ≡ verified claims
    → (raw : String) × (answer code verifier ≡ some (some raw))
      × IsExchanged verify expected raw claims
unfolding exchange
exchange-IsExchanged f answer verify code verifier expected claims e =
    elim (Option-cases (flow_config f)) [
      | inl ready ↦
          with_id_token-IsExchanged verify expected (answer code verifier) claims
            (rw (ready, exchange) at e)
      | inr (x, refused) ↦ absurd (cc (rw (refused, exchange) at e))
    ]

checked_logout-token :
    (kind : Option String) (o : Option LogoutToken) (claims : LogoutClaims)
    → checked_logout kind o ≡ verified claims
    → (t : LogoutToken) × (o ≡ some t)
      × (claims ≡ logout_claims t)
      × (is_logout_type kind ≡ true)
      × (is_logout_claims t ≡ true)
checked_logout-token kind none claims e = absurd (cc e)
checked_logout-token kind (some t) claims e =
    elim (Bool-cases (is_logout_type kind && is_logout_claims t)) [
      | inl passed ↦
          let same : logout_claims t ≡ claims = verified_inj (rw passed at e) in
          (t, refl, sym same, both_left _ _ passed, both_right _ _ passed)
      | inr failed ↦ absurd (cc (rw failed at e))
    ]

-- A logout token that is accepted has a type for logouts, no nonce, the logout event, a time, and a
-- subject or a sid.
pub verify_logout-checked :
    (f : Flow) (verify : String → Option (Option LogoutToken)) (jwt_type : String → Option String)
    (raw : String) (claims : LogoutClaims)
    → verify_logout f verify jwt_type raw ≡ verified claims
    → (t : LogoutToken) × (verify raw ≡ some (some t))
      × (claims ≡ logout_claims t)
      × (is_logout_type (jwt_type raw) ≡ true)
      × (is_logout_claims t ≡ true)
unfolding verify_logout
verify_logout-checked f verify jwt_type raw claims e = elim (Option-cases (flow_config f)) [
  | inr (x, refused) ↦ absurd (cc (rw (refused, verify_logout) at e))
  | inl ready ↦ elim (Option-cases (verify raw)) [
    | inl bad ↦ absurd (cc (rw (ready, verify_logout, bad) at e))
    | inr (o, good) ↦
        let (t, decoded, same, kind, fine) =
          checked_logout-token (jwt_type raw) o claims (rw (ready, verify_logout, good) at e) in
        (t, good ∙ ap some decoded, same, kind, fine)
  ]
]

-- No raw token is taken both as an ID token at a sign-in and as a logout token, where the two
-- decoders agree on a nonce: a token whose logout claims have none has a blank one as an ID token.
pub exchange-verify_logout :
    (f g : Flow) (answer : String → String → Option (Option String))
    (verify : String → Option IdToken) (decode : String → Option (Option LogoutToken))
    (jwt_type : String → Option String) (code verifier expected raw : String)
    (identity_claims : IdentityClaims) (claims : LogoutClaims)
    → ((s : String) (t : LogoutToken) (token : IdToken)
        → decode s ≡ some (some t)
        → verify s ≡ some token
        → t.has_nonce ≡ false
        → token.nonce ≡ "")
    → answer code verifier ≡ some (some raw)
    → exchange f answer verify code verifier expected ≡ verified identity_claims
    → verify_logout g decode jwt_type raw ≢ verified claims
exchange-verify_logout f g answer verify decode jwt_type code verifier expected raw identity_claims
      claims agree sent taken accepted =
    let (raw', sent', (given, (token, read, mine, held, at_time), named)) =
      exchange-IsExchanged f answer verify code verifier expected identity_claims taken in
    let (t, decoded, same, kind, fine) =
      verify_logout-checked g decode jwt_type raw claims accepted in
    let one : raw' ≡ raw = payload_inj (sym sent' ∙ sent) in
    let no_nonce : t.has_nonce ≡ false = ground arith in
    held (sym mine ∙ agree raw t token decoded (rw (sym one) read) no_nonce)
