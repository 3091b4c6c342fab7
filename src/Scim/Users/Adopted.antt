-- ===== src/Scim/Users/Adopted.antt =====
-- The account that a SCIM create may take over: kyIdentityAccount of internal/scim/handler.go.
use ky_server_base.Prelude.{
  String, ◌≡◌, refl, ◌≢◌, inl, inr, false, ◌&&◌, Option, some, arith, ◌==◌, eq_iff, Bool-cases,
}
use ky_server_base.Sql.{find_where}
use ky_server_base.Sql.Laws.{find-some}
use ky_server_base.Store.Models.{
  User, Db, Backend, Result, ok, err, not_found, already_exists, session_expired, conflict,
  sso_session_ended, db_error,
}
use ky_server_base.Store.Tx.{Io}
use ky_server_base.Store.Users.{get_user_by_sso, get_user_by_username}
use ky_server_base.Scim.Users.{done, Handler, Calls, by_name, by_subject, ky_identity_account}

-- What a create with this externalId may take over.
abbrev pub IsAdoptable : String → User → Type 0
IsAdoptable subject u =
    (u.sso_provider ≡ "kysignon")
    × (u.scim_managed ≡ false)
    × (subject ≢ "" → u.sso_subject ≡ subject)

by_name-IsAdoptable :
    (subject : String) (x : Result User × Db) (u : User)
    → (by_name subject x).0 ≡ done (some u)
    → IsAdoptable subject u
by_name-IsAdoptable subject (ok v, db) u e = (
  ground (arith, eq_iff v.sso_provider "kysignon"),
  ground (arith, eq_iff v.sso_provider "kysignon"),
  λ named. ground (arith, eq_iff subject "", eq_iff subject v.sso_subject),
)
by_name-IsAdoptable subject (err not_found, db) u e = absurd (ground arith)
by_name-IsAdoptable subject (err already_exists, db) u e = absurd (ground arith)
by_name-IsAdoptable subject (err session_expired, db) u e = absurd (ground arith)
by_name-IsAdoptable subject (err conflict, db) u e = absurd (ground arith)
by_name-IsAdoptable subject (err sso_session_ended, db) u e = absurd (ground arith)
by_name-IsAdoptable subject (err db_error, db) u e = absurd (ground arith)

by_sso-row :
    (io : Io) (subject : String) (db : Db) (u : User)
    → (get_user_by_sso io "kysignon" subject db).0 ≡ ok u
    → (u.sso_provider ≡ "kysignon") × (u.sso_subject ≡ subject)
by_sso-row io subject db u e =
    let hit =
      find-some (λ (x : User). x.sso_provider == "kysignon" && x.sso_subject == subject) db.users
        (found e) in
    (
      ground (arith, hit, eq_iff u.sso_provider "kysignon"),
      ground (arith, hit, eq_iff u.sso_subject subject),
    )
  where
    found :
        (get_user_by_sso io "kysignon" subject db).0 ≡ ok u
        → find_where (λ x. x.sso_provider == "kysignon" && x.sso_subject == subject) db.users
          ≡ some u
    found h = unfold get_user_by_sso in ground arith

by_subject-IsAdoptable :
    (next : Handler (Option User)) (subject : String) (x : Result User × Db) (u : User)
    → ((v : User) → x.0 ≡ ok v → (v.sso_provider ≡ "kysignon") × (v.sso_subject ≡ subject))
    → ((d : Db) → (next d).0 ≡ done (some u) → IsAdoptable subject u)
    → (by_subject next x).0 ≡ done (some u)
    → IsAdoptable subject u
by_subject-IsAdoptable next subject (ok v, db) u row later e =
    let (provider, mine) = row v refl in (ground arith, ground arith, λ named. ground arith)
by_subject-IsAdoptable next subject (err not_found, db) u row later e = later db e
by_subject-IsAdoptable next subject (err already_exists, db) u row later e = absurd (ground arith)
by_subject-IsAdoptable next subject (err session_expired, db) u row later e = absurd (ground arith)
by_subject-IsAdoptable next subject (err conflict, db) u row later e = absurd (ground arith)
by_subject-IsAdoptable next subject (err sso_session_ended, db) u row later e =
    absurd (ground arith)
by_subject-IsAdoptable next subject (err db_error, db) u row later e = absurd (ground arith)

-- A SCIM create takes over an account of KyIdentity sign-in alone, that SCIM does not manage, and
-- if it names a subject, the account of that subject.
pub ky_identity_account-IsAdoptable :
    (b : Backend) (io : Calls) (subject username : String) (db : Db) (u : User)
    → (ky_identity_account b io subject username db).0 ≡ done (some u)
    → IsAdoptable subject u
unfolding ky_identity_account
ky_identity_account-IsAdoptable b io subject username db u e =
    let later =
      λ (d : Db)
          (h : (by_name subject (get_user_by_username b (io 1) username d)).0 ≡ done (some u)).
        by_name-IsAdoptable subject (get_user_by_username b (io 1) username d) u h in
    elim (Bool-cases (subject == "")) [
      | inl none_named ↦ later db (rw none_named at e)
      | inr named ↦
          by_subject-IsAdoptable (λ d. by_name subject (get_user_by_username b (io 1) username d))
            subject (get_user_by_sso (io 0) "kysignon" subject db) u
            (λ v h. by_sso-row (io 0) subject db v h) later (rw named at e)
    ]
