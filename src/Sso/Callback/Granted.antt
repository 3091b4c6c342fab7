-- ===== src/Sso/Callback/Granted.antt =====
-- Who is signed in by handleKySignOnCallback (internal/api/sso_handlers.go).
use Prim.Native.String.{◌++◌ as ◌^^◌}
use ky_server_base.Prelude.{String, ◌≡◌, false, Option, none, some, ◌∷◌}
use ky_server_base.Sql.{count_where}
use ky_server_base.Store.Models.{User, Session, Db}
use ky_server_base.Store.Sessions.{holds_password, fenced}
use ky_server_base.Auth.Session.{session_for}
use ky_server_base.Sso.{local_role}
use ky_server_base.Sso.Tokens.{IdentityClaims}
use ky_server_base.Sso.Callback.{CallbackEnv, CallbackCall}
use ky_server_base.Sso.Callback.Account.{IsAccount}

-- The role of the token, if it has one, and nothing else of the account as it was read.
abbrev pub Follows : Option String → User → User → Type 0
Follows none read u = u ≡ read
Follows (some role) read u = u ≡ record read { role = role }

-- The session that the sign-in stores.
abbrev pub session_of : CallbackEnv → CallbackCall → IdentityClaims → User → Session
session_of env c claims u =
    session_for env.sha256_hex env.security c.drawn c.later u c.agent c.ip claims.issued_at
      claims.session_id

-- What the database held when the session was stored, and what it holds then.
abbrev pub IsStored : CallbackEnv → CallbackCall → IdentityClaims → User → Db → Db → Type 0
IsStored env c claims u before after =
    (count_where (holds_password u.id u.password_hash) before.users ≡ 1)
    × (fenced c.later (session_of env c claims u) before ≡ false)
    × (after ≡ record before { sessions = session_of env c claims u ∷ before.sessions })

-- What a sign-in rests on, from the database `db` of the request to the one it leaves: an active
-- account that the token's subject has there, the role of the token, and the database when the
-- session was stored.
abbrev pub IsGrant : CallbackEnv → CallbackCall → IdentityClaims → Db → Db → Type 0
IsGrant env c claims db after =
    (read : User) × (u : User) × (before : Db) × IsAccount env c claims db read
    × (read.status ≡ "active")
    × Follows (local_role claims.roles claims.role) read u
    × IsStored env c claims u before after
