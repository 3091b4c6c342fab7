-- ===== src/Sso/Tokens.antt =====
-- The checks that internal/sso makes on the tokens of the identity provider: exchange and
-- claimsFromIDToken of oauth.go, and verifyLogout of backchannel.go. The provider's signature,
-- issuer, audience and expiry are checked by the OIDC library, which answers with a decoded token.
pub mod Disjoint
use ky_server_base.Prelude.{
  ℕ, String, Bool, false, not, ◌&&◌, ◌||◌, Option, none, some, List, ◌==◌, ltb, if◌then◌else◌,
}
use ky_server_base.Sso.{LogoutClaims}

-- The `roles` of a token: not there, no array of texts, or the roles.
pub data RolesClaim : Type 0 where
  absent malformed : RolesClaim
  listed : List String → RolesClaim

pub record RawClaims : Type 0 where
  pub sub : String
  pub sid : String
  pub email : String
  pub name : String
  pub preferred_username : String
  pub role : String
  pub roles : RolesClaim

-- A verified ID token; `claims` is none where they do not decode.
pub record IdToken : Type 0 where
  pub nonce : String
  pub issued_at : ℕ
  pub claims : Option RawClaims

pub record IdentityClaims : Type 0 where
  pub subject : String
  pub email : String
  pub name : String
  pub preferred_username : String
  pub role : String
  pub roles : Option (List String)
  pub session_id : String
  pub issued_at : ℕ

pub data TokenError : Type 0 where
  provider_disabled provider_unreachable exchange_refused missing_id_token : TokenError
  invalid_id_token invalid_logout_token : TokenError

pub data Verified {ℓ} (A : Type ℓ) : Type ℓ where
  verified : A → Verified A
  unverified : TokenError → Verified A

-- The user name, or else the address, or else the subject.
abbrev pub username_of : RawClaims → String
username_of raw =
    let named = if raw.preferred_username == "" then raw.email else raw.preferred_username in
    if named == "" then raw.sub else named

abbrev pub roles_of : RolesClaim → Verified (Option (List String))
roles_of absent = verified none
roles_of malformed = unverified invalid_id_token
roles_of (listed roles) = verified (some roles)

abbrev pub identity : RawClaims → ℕ → Verified (Option (List String)) → Verified IdentityClaims
identity raw issued_at (unverified e) = unverified e
identity raw issued_at (verified roles) = verified (record {
  subject = raw.sub;
  email = raw.email;
  name = raw.name;
  preferred_username = username_of raw;
  role = raw.role;
  roles = roles;
  session_id = raw.sid;
  issued_at = issued_at;
})

unfoldable pub claims_from_id_token : IdToken → Verified IdentityClaims
claims_from_id_token token = elim token.claims [
  | none ↦ unverified invalid_id_token
  | some raw ↦
      if raw.sub == ""
      then unverified invalid_id_token
      else identity raw token.issued_at (roles_of raw.roles)
]

-- The provider's settings, and whether its discovery answered.
pub record Flow : Type 0 where
  pub issuer : String
  pub client_id : String
  pub is_reachable : Bool

-- The error of `config`, if it reports one.
unfoldable pub flow_config : Flow → Option TokenError
flow_config f =
    if f.issuer == "" || f.client_id == ""
    then some provider_disabled
    else if f.is_reachable
    then none
    else some provider_unreachable

abbrev pub expect_nonce : String → Option IdToken → Verified IdentityClaims
expect_nonce expected none = unverified invalid_id_token
expect_nonce expected (some token) =
    if expected == "" || not (token.nonce == expected)
    then unverified invalid_id_token
    else claims_from_id_token token

abbrev pub with_id_token :
    (String → Option IdToken) → String → Option (Option String) → Verified IdentityClaims
with_id_token verify expected none = unverified exchange_refused
with_id_token verify expected (some none) = unverified missing_id_token
with_id_token verify expected (some (some raw)) =
    if raw == "" then unverified missing_id_token else expect_nonce expected (verify raw)

-- `answer` is what the provider's token endpoint gave for the code and the PKCE verifier: nothing,
-- or a response with or without a raw ID token.
unfoldable pub exchange :
    Flow
    → (String → String → Option (Option String))
    → (String → Option IdToken)
    → String
    → String
    → String
    → Verified IdentityClaims
unfolding flow_config claims_from_id_token
exchange f answer verify code verifier expected_nonce = elim (flow_config f) [
  | some e ↦ unverified e
  | none ↦ with_id_token verify expected_nonce (answer code verifier)
]

-- What the claims of a logout token say; `event` is whether the logout event is there, an object.
pub record LogoutToken : Type 0 where
  pub sub : String
  pub sid : String
  pub iat : ℕ
  pub has_nonce : Bool
  pub has_event : Bool

abbrev pub is_logout_type : Option String → Bool
is_logout_type none = false
is_logout_type (some kind) =
    kind == "" || (kind == "logout+jwt" || kind == "application/logout+jwt")

abbrev pub is_logout_claims : LogoutToken → Bool
is_logout_claims t =
    not t.has_nonce && (ltb 0 t.iat && (not (t.sub == "" && t.sid == "") && t.has_event))

abbrev pub logout_claims : LogoutToken → LogoutClaims
logout_claims t = record { subject = t.sub; session_id = t.sid; issued_at = t.iat }

abbrev pub checked_logout : Option String → Option LogoutToken → Verified LogoutClaims
checked_logout kind none = unverified invalid_logout_token
checked_logout kind (some t) =
    if is_logout_type kind && is_logout_claims t
    then verified (logout_claims t)
    else unverified invalid_logout_token

-- `verify` checks a raw token and decodes its claims, of which the second option is none where they
-- do not decode; `jwt_type` reads the lowered `typ` of its header.
unfoldable pub verify_logout :
    Flow
    → (String → Option (Option LogoutToken))
    → (String → Option String)
    → String
    → Verified LogoutClaims
unfolding flow_config
verify_logout f verify jwt_type raw = elim (flow_config f) [
  | some e ↦ unverified e
  | none ↦ elim (verify raw) [
    | none ↦ unverified invalid_logout_token
    | some claims ↦ checked_logout (jwt_type raw) claims
  ]
]
