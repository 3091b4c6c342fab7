-- ===== src/Sso.antt =====
-- Sign-in through KyIdentity, as far as the store is concerned: LocalRole of internal/sso/sso.go,
-- AdoptSCIMUser of internal/sso/kysignon.go and handleKySignOnBackchannelLogout of
-- internal/api/sso_handlers.go. Times are in seconds.
pub mod Linked
pub mod Tokens
pub mod Callback
mod Tests
use ky_server_base.Prelude.{
  ℕ, ◌+◌, String, Bool, true, false, not, ◌||◌, Option, none, some, List, [], ◌∷◌, ◌==◌,
  if◌then◌else◌,
}
use ky_server_base.Store.Models.{User, Db, Result, ok, err, not_found, conflict}
use ky_server_base.Store.Tx.{Op, Io}
use ky_server_base.Store.Users.{get_user_by_sso, link_sso_identity}
use ky_server_base.Store.Sessions.{end_sso_session, end_sso_subject}
use ky_server_base.Store.Audit.{log_audit}

unfoldable pub has_admin : List String → Bool
has_admin [] = false
has_admin (r ∷ rs) = r == "admin" || has_admin rs

abbrev of_role : Bool → String
of_role is_admin = if is_admin then "admin" else "user"

-- The role that the claims give, if they give one: `roles`, which may be missing, and else `role`.
unfoldable pub local_role : Option (List String) → String → Option String
unfolding has_admin
local_role (some roles) role = some (of_role (has_admin roles))
local_role none role = if role == "" then none else some (of_role (role == "admin"))

-- The account that a concurrent call linked first.
abbrev pub found_linked : Result User × Db → Result (User × Bool) × Db
found_linked (ok user, db) = (ok (user, false), db)
found_linked (err e, db) = (err e, db)

abbrev pub answer_linked : Io → String → User → Result (Unit {0}) × Db → Result (User × Bool) × Db
answer_linked io subject user (ok _, db) =
    (ok (record user { sso_provider = "kysignon" }, true), db)
answer_linked io subject user (err conflict, db) =
    found_linked (get_user_by_sso io "kysignon" subject db)
answer_linked io subject user (err e, db) = (err e, db)

abbrev pub link_found :
    Io → Io → ℕ → (Db → Db) → String → Result User × Db → Result (User × Bool) × Db
link_found link_io again_io now meanwhile subject (err e, db) = (err e, db)
link_found link_io again_io now meanwhile subject (ok user, db) =
    answer_linked again_io subject user
      (link_sso_identity link_io now user.id subject "scim" "kysignon" (meanwhile db))

-- `meanwhile` is what other requests write between the lookup and the link.
unfoldable pub adopt_scim_user : Io → Io → Io → ℕ → (Db → Db) → String → Op (User × Bool)
unfolding get_user_by_sso link_sso_identity
adopt_scim_user read_io link_io again_io now meanwhile subject db =
    if subject == ""
    then (err not_found, db)
    else link_found link_io again_io now meanwhile subject
        (get_user_by_sso read_io "scim" subject db)

pub record LogoutClaims : Type 0 where
  pub subject : String
  pub session_id : String
  pub issued_at : ℕ

pub data LogoutReply : Type 0 where
  invalid_request logout_failed logged_out : LogoutReply

-- An error of the audit record is dropped.
abbrev pub answer_logout : Io → ℕ → String → Result (Unit {0}) × Db → LogoutReply × Db
answer_logout io now ip (err e, db) = (logout_failed, db)
answer_logout io now ip (ok _, db) = (
  logged_out,
  (log_audit io now
      (record {
        user_id = "";
        action = "auth.sso_backchannel_logout";
        resource = "session";
        details = "";
        ip_address = ip;
        created_at = 0;
      })
      db).1,
)

-- `none` is a token that does not verify (VerifyLogoutToken). The fence lasts ten minutes, and a
-- subject's cutoff is the second after the token's.
unfoldable pub backchannel_logout :
    Io → Io → ℕ → ℕ → String → Option LogoutClaims → Db → LogoutReply × Db
unfolding end_sso_session end_sso_subject log_audit
backchannel_logout io audit_io now later ip none db = (invalid_request, db)
backchannel_logout io audit_io now later ip (some claims) db = answer_logout audit_io later ip (
    if not (claims.session_id == "")
    then end_sso_session io later claims.session_id (now + 600) db
    else end_sso_subject io later "kysignon" claims.subject (claims.issued_at + 1) (now + 600) db)
