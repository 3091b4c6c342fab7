-- ===== src/Sso/Callback/Account.antt =====
-- The account that handleKySignOnCallback goes on with (internal/api/sso_handlers.go).
use ky_server_base.Prelude.{
  String, ◌≡◌, refl, sym, ap, ◌∙◌, subst, ◌⊎◌, inl, inr, Bool, true, false, Option, none, some,
  arith, eq_iff, Bool-cases,
}
use ky_server_base.Sql.{find_where}
use ky_server_base.Store.Models.{
  User, Db, Result, ok, err, not_found, already_exists, session_expired, conflict,
  sso_session_ended, db_error,
}
use ky_server_base.Store.Users.{get_user_by_sso}
use ky_server_base.Sso.{local_role, adopt_scim_user}
use ky_server_base.Sso.Linked.{
  by_sso-row, by_sso-none, signs_in_by, IsLinked, adopt_scim_user-IsLinked,
}
use ky_server_base.Sso.Tokens.{IdentityClaims}
use ky_server_base.Sso.Callback.{
  CallbackEnv, CallbackCall, go, find_account, or_adopt, adopted, provision, created, new_account,
  role_or_user,
}

-- The account of a subject in the database of a request: the row that is there; or there is none,
-- and it is what SCIM made for the subject, linked now or by another call.
abbrev pub IsFound : CallbackCall → String → Db → User → Type 0
IsFound c subject db u =
    (find_where (signs_in_by "kysignon" subject) db.users ≡ some u)
    ⊎ ((find_where (signs_in_by "kysignon" subject) db.users ≡ none)
        × IsLinked subject (c.before_adopt db) (c.before_link (c.before_adopt db)) u)

-- A new account is the subject's, with no password, and an administrator's only if the claims say
-- so.
abbrev pub IsNew : IdentityClaims → User → Type 0
IsNew claims u =
    (u.sso_provider ≡ "kysignon")
    × (u.sso_subject ≡ claims.subject)
    × (u.username ≡ claims.preferred_username)
    × (u.email ≡ claims.email)
    × (u.password_hash ≡ "")
    × (u.scim_managed ≡ false)
    × (u.role ≡ "admin" → local_role claims.roles claims.role ≡ some "admin")

role_or_user-admin : (role : Option String) → role_or_user role ≡ "admin" → role ≡ some "admin"
role_or_user-admin none e = absurd (ground (arith, eq_iff "user" "admin"))
role_or_user-admin (some role) e = ap some e

new_account-IsNew :
    (c : CallbackCall) (claims : IdentityClaims) (u : User)
    → u ≡ new_account c claims
    → IsNew claims u
new_account-IsNew c claims u e =
    subst (λ (w : User). IsNew claims w) (sym e)
      (refl, refl, refl, refl, refl, refl, role_or_user-admin (local_role claims.roles claims.role))

-- The account that a callback goes on with: the subject's, or a new one where there is none and the
-- configuration provides for it.
abbrev pub IsAccount : CallbackEnv → CallbackCall → IdentityClaims → Db → User → Type 0
IsAccount env c claims db u =
    IsFound c claims.subject db u
    ⊎ ((find_where (signs_in_by "kysignon" claims.subject) db.users ≡ none)
        × (env.auto_provision ≡ true)
        × IsNew claims u)

ok_inj {ℓ} : {A : Type ℓ} {x y : A} → ok x ≡ ok y → x ≡ y
ok_inj e = cc e

pub go_inj : {x y : User} → go x ≡ go y → x ≡ y
go_inj e = cc e

adopted-IsLinked :
    (c : CallbackCall) (subject : String) (before after : Db) (x : Result (User × Bool) × Db)
    (u : User)
    → ((v : User) (made : Bool) → x.0 ≡ ok (v, made) → IsLinked subject before after v)
    → (adopted c x).0 ≡ ok u
    → IsLinked subject before after u
adopted-IsLinked c subject before after (ok (v, true), db) u linked e =
    subst (λ (w : User). IsLinked subject before after w) (ok_inj e) (linked v true refl)
adopted-IsLinked c subject before after (ok (v, false), db) u linked e =
    subst (λ (w : User). IsLinked subject before after w) (ok_inj e) (linked v false refl)
adopted-IsLinked c subject before after (err x, db) u linked e = absurd (cc e)

or_adopt-IsFound :
    (c : CallbackCall) (subject : String) (db : Db) (x : Result User × Db) (u : User)
    → get_user_by_sso c.find_io "kysignon" subject db ≡ x
    → (or_adopt c subject x).0 ≡ ok u
    → IsFound c subject db u
or_adopt-IsFound c subject db (ok v, d) u h e =
    inl ((by_sso-row c.find_io "kysignon" subject db v (ap (λ p. p.0) h)).0 ∙ ap some (ok_inj e))
or_adopt-IsFound c subject db (err not_found, d) u h e =
    let (absent, state) = by_sso-none c.find_io "kysignon" subject db (ap (λ p. p.0) h) in
    let same : d ≡ db = sym (ap (λ p. p.1) h) ∙ state in
    let linked =
      adopted-IsLinked c subject (c.before_adopt d) (c.before_link (c.before_adopt d))
        (adopt_scim_user c.adopt_read_io c.adopt_link_io c.adopt_again_io c.later c.before_link
          subject (c.before_adopt d))
        u
        (adopt_scim_user-IsLinked c.adopt_read_io c.adopt_link_io c.adopt_again_io c.later
          c.before_link subject (c.before_adopt d))
        e in
    inr (
      absent,
      subst
          (λ (now : Db).
            IsLinked subject (c.before_adopt now) (c.before_link (c.before_adopt now)) u)
          same linked,
    )
or_adopt-IsFound c subject db (err already_exists, d) u h e = absurd (cc e)
or_adopt-IsFound c subject db (err session_expired, d) u h e = absurd (cc e)
or_adopt-IsFound c subject db (err conflict, d) u h e = absurd (cc e)
or_adopt-IsFound c subject db (err sso_session_ended, d) u h e = absurd (cc e)
or_adopt-IsFound c subject db (err db_error, d) u h e = absurd (cc e)

find_account-IsFound :
    (c : CallbackCall) (subject : String) (db : Db) (u : User)
    → (find_account c subject db).0 ≡ ok u
    → IsFound c subject db u
unfolding find_account
find_account-IsFound c subject db u e =
    or_adopt-IsFound c subject db (get_user_by_sso c.find_io "kysignon" subject db) u refl e

or_adopt-none :
    (c : CallbackCall) (subject : String) (db : Db) (x : Result User × Db)
    → get_user_by_sso c.find_io "kysignon" subject db ≡ x
    → (or_adopt c subject x).0 ≡ err not_found
    → find_where (signs_in_by "kysignon" subject) db.users ≡ none
or_adopt-none c subject db (ok v, d) h e = absurd (cc e)
or_adopt-none c subject db (err not_found, d) h e =
    (by_sso-none c.find_io "kysignon" subject db (ap (λ p. p.0) h)).0
or_adopt-none c subject db (err already_exists, d) h e = absurd (cc e)
or_adopt-none c subject db (err session_expired, d) h e = absurd (cc e)
or_adopt-none c subject db (err conflict, d) h e = absurd (cc e)
or_adopt-none c subject db (err sso_session_ended, d) h e = absurd (cc e)
or_adopt-none c subject db (err db_error, d) h e = absurd (cc e)

find_account-none :
    (c : CallbackCall) (subject : String) (db : Db)
    → (find_account c subject db).0 ≡ err not_found
    → find_where (signs_in_by "kysignon" subject) db.users ≡ none
unfolding find_account
find_account-none c subject db e =
    or_adopt-none c subject db (get_user_by_sso c.find_io "kysignon" subject db) refl e

created-go :
    (user : User) (x : Result (Unit {0}) × Db) (u : User) → (created user x).0 ≡ go u → u ≡ user
created-go user (ok _, db) u e = sym (go_inj e)
created-go user (err not_found, db) u e = absurd (cc e)
created-go user (err already_exists, db) u e = absurd (cc e)
created-go user (err session_expired, db) u e = absurd (cc e)
created-go user (err conflict, db) u e = absurd (cc e)
created-go user (err sso_session_ended, db) u e = absurd (cc e)
created-go user (err db_error, db) u e = absurd (cc e)

provision-IsAccount :
    (env : CallbackEnv) (c : CallbackCall) (claims : IdentityClaims) (db : Db)
    (x : Result User × Db) (u : User)
    → ((v : User) → x.0 ≡ ok v → IsFound c claims.subject db v)
    → (x.0 ≡ err not_found → find_where (signs_in_by "kysignon" claims.subject) db.users ≡ none)
    → (provision env c claims x).0 ≡ go u
    → IsAccount env c claims db u
unfolding provision
provision-IsAccount env c claims db (ok v, d) u found absent e =
    inl (subst (λ (w : User). IsFound c claims.subject db w) (go_inj e) (found v refl))
provision-IsAccount env c claims db (err not_found, d) u found absent e =
    elim (Bool-cases env.auto_provision) [
      | inr off ↦ absurd (cc (rw off at e))
      | inl on ↦ inr (
        absent refl,
        on,
        new_account-IsNew c claims u (created-go (new_account c claims) _ u (rw on at e)),
      )
    ]
provision-IsAccount env c claims db (err already_exists, d) u found absent e = absurd (cc e)
provision-IsAccount env c claims db (err session_expired, d) u found absent e = absurd (cc e)
provision-IsAccount env c claims db (err conflict, d) u found absent e = absurd (cc e)
provision-IsAccount env c claims db (err sso_session_ended, d) u found absent e = absurd (cc e)
provision-IsAccount env c claims db (err db_error, d) u found absent e = absurd (cc e)

pub provision-find_account-IsAccount :
    (env : CallbackEnv) (c : CallbackCall) (claims : IdentityClaims) (db : Db) (u : User)
    → (provision env c claims (find_account c claims.subject db)).0 ≡ go u
    → IsAccount env c claims db u
provision-find_account-IsAccount env c claims db u =
    provision-IsAccount env c claims db (find_account c claims.subject db) u
      (find_account-IsFound c claims.subject db) (find_account-none c claims.subject db)
