-- ===== src/Sso/Callback/Roles.antt =====
-- A sign-in that changes the account's role (internal/api/sso_handlers.go).
use ky_server_base.Prelude.{
  String, ◌≡◌, refl, ◌≢◌, ◌⊎◌, inl, inr, false, some, arith, ◌==◌, str_eq_comm,
}
use ky_server_base.Store.Models.{
  User, Db, Error, Result, ok, err, not_found, already_exists, session_expired, conflict,
  sso_session_ended, db_error,
}
use ky_server_base.Store.Users.Cas.{run_swap, role_only, run_swap-role, keeps_access, run_swap-err}
use ky_server_base.Store.Users.Access.{run_swap-revokes, sessions_of}
use ky_server_base.Store.Audit.{log_audit}
use ky_server_base.Sso.Callback.{
  log_audit, CallbackEnv, CallbackCall, Turn, go, sync_role, role_written, audit,
}

audit-sessions :
    (c : CallbackCall) (user_id action resource details : String) (db : Db)
    → (audit c user_id action resource details db).sessions ≡ db.sessions
unfolding log_audit
audit-sessions c user_id action resource details db = ground arith

-- What is left of the sessions where an account's are revoked.
abbrev pub IsRevoked : String → Db → Db → Type 0
IsRevoked id before after =
    (sessions_of id after.sessions ≡ 0)
    × ((other : String)
        → other ≢ id
        → sessions_of other after.sessions ≡ sessions_of other before.sessions)

-- The role was written and the sessions revoked, or nothing was written.
abbrev pub IsSynced : User → Db → Turn × Db → Type 0
IsSynced user before x =
    ((x.0 ≡ go user) × IsRevoked user.id before x.1) ⊎ ((u : User) → x.0 ≢ go u) × (x.1 ≡ before)

role_written-IsSynced :
    (c : CallbackCall) (prev : String) (user : User) (before : Db) (x : Result (Unit {0}) × Db)
    → (x.0 ≡ ok tt → IsRevoked user.id before x.1)
    → ((e : Error) → x.0 ≡ err e → x.1 ≡ before)
    → IsSynced user before (role_written c prev user x)
role_written-IsSynced c prev user before (ok _, db) done undone =
    inl (refl, (rw (audit-sessions c user.id _ _ _ db) (done refl)))
role_written-IsSynced c prev user before (err not_found, db) done undone =
    inr ((λ u e. cc e), undone _ refl)
role_written-IsSynced c prev user before (err already_exists, db) done undone =
    inr ((λ u e. cc e), undone _ refl)
role_written-IsSynced c prev user before (err session_expired, db) done undone =
    inr ((λ u e. cc e), undone _ refl)
role_written-IsSynced c prev user before (err conflict, db) done undone =
    inr ((λ u e. cc e), undone _ refl)
role_written-IsSynced c prev user before (err sso_session_ended, db) done undone =
    inr ((λ u e. cc e), undone _ refl)
role_written-IsSynced c prev user before (err db_error, db) done undone =
    inr ((λ u e. cc e), undone _ refl)

-- A sign-in whose token gives another role than the account's either writes that role and ends the
-- account's sessions, and no others, before it stores a new one, or does not go on and leaves the
-- database as other requests left it.
pub sync_role-IsSynced :
    (env : CallbackEnv) (c : CallbackCall) (role : String) (user : User) (db : Db)
    → (user.role == role) ≡ false
    → IsSynced
        (record user { role = role })
        (c.before_role db)
        (sync_role env c (some role) user db)
unfolding sync_role
sync_role-IsSynced env c role user db other =
    let new : User = record user { role = role } in
    let swap = role_only c.later new user.role in
    let changed : keeps_access swap ≡ false = rw (str_eq_comm role user.role) (rw other refl) in
    rw (other, run_swap-role env.backend c.role_io c.later new user.role)
      (role_written-IsSynced c user.role new (c.before_role db)
        (run_swap env.backend c.role_io swap (c.before_role db))
        (λ e. run_swap-revokes env.backend c.role_io swap (c.before_role db) e changed)
        (λ x e. run_swap-err env.backend c.role_io swap (c.before_role db) e))
