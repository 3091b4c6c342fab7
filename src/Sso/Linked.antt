-- ===== src/Sso/Linked.antt =====
-- The account that AdoptSCIMUser returns (internal/sso/kysignon.go).
use ky_server_base.Prelude.{
  ℕ, ◌<◌, String, ◌≡◌, refl, sym, ap, ◌∙◌, subst, ◌⊎◌, inl, inr, Bool, ◌&&◌, none, some, arith,
  ◌==◌, Bool-cases,
}
use ky_server_base.Sql.{find_where, count_where}
use ky_server_base.Sql.Laws.{update-none}
use ky_server_base.Store.Models.{
  User, Db, Result, ok, err, not_found, already_exists, session_expired, conflict,
  sso_session_ended, db_error,
}
use ky_server_base.Store.Tx.{Io}
use ky_server_base.Store.Users.{has_id, get_user_by_sso, link_sso_identity}
use ky_server_base.Sso.{found_linked, answer_linked, link_found, adopt_scim_user}

-- Whether an account signs in through the provider under the subject.
abbrev pub signs_in_by : String → String → User → Bool
signs_in_by provider subject u = u.sso_provider == provider && u.sso_subject == subject

-- The rows that a link applies to, and what it makes of one.
abbrev pub is_linkable : String → String → User → Bool
is_linkable id subject u = has_id id u && (u.sso_subject == subject && u.sso_provider == "scim")

link_sso_identity-ok :
    (io : Io) (now : ℕ) (id subject : String) (db : Db)
    → (link_sso_identity io now id subject "scim" "kysignon" db).0 ≡ ok tt
    → 0 < count_where (is_linkable id subject) db.users
unfolding link_sso_identity
link_sso_identity-ok io now id subject db e = ground arith

link_sso_identity-conflict :
    (io : Io) (now : ℕ) (id subject : String) (db : Db)
    → (link_sso_identity io now id subject "scim" "kysignon" db).0 ≡ err conflict
    → (link_sso_identity io now id subject "scim" "kysignon" db).1.users ≡ db.users
unfolding link_sso_identity
link_sso_identity-conflict io now id subject db e = ground (
  arith,
  update-none (is_linkable id subject)
      (λ u. record u { sso_provider = "kysignon"; updated_at = now }) db.users,
)

pub by_sso-row :
    (io : Io) (provider subject : String) (db : Db) (u : User)
    → (get_user_by_sso io provider subject db).0 ≡ ok u
    → (find_where (signs_in_by provider subject) db.users ≡ some u)
      × ((get_user_by_sso io provider subject db).1 ≡ db)
unfolding get_user_by_sso
by_sso-row io provider subject db u e = (ground arith, ground arith)

pub by_sso-none :
    (io : Io) (provider subject : String) (db : Db)
    → (get_user_by_sso io provider subject db).0 ≡ err not_found
    → (find_where (signs_in_by provider subject) db.users ≡ none)
      × ((get_user_by_sso io provider subject db).1 ≡ db)
unfolding get_user_by_sso
by_sso-none io provider subject db e = (ground arith, ground arith)

-- The account that an adoption returns: the one that SCIM made for the subject, as it was looked up
-- in `before`, whose row was still SCIM's in `after` and is now KyIdentity's; or the one that
-- another call had linked by then.
abbrev pub IsLinked : String → Db → Db → User → Type 0
IsLinked subject before after u =
    ((row : User) × (find_where (signs_in_by "scim" subject) before.users ≡ some row)
      × (0 < count_where (is_linkable row.id subject) after.users)
      × (u ≡ record row { sso_provider = "kysignon" }))
    ⊎ (find_where (signs_in_by "kysignon" subject) after.users ≡ some u)

linked_user :
    {v u : User} {b adopted : Bool}
    → ◌≡◌ {A = Result (User × Bool)} (ok (v, b)) (ok (u, adopted))
    → v ≡ u
linked_user e = ground arith

found_linked-row :
    (io : Io) (subject : String) (db : Db) (x : Result User × Db) (u : User) (adopted : Bool)
    → get_user_by_sso io "kysignon" subject db ≡ x
    → (found_linked x).0 ≡ ok (u, adopted)
    → find_where (signs_in_by "kysignon" subject) db.users ≡ some u
found_linked-row io subject db (err e, d) u adopted h k = absurd (cc k)
found_linked-row io subject db (ok v, d) u adopted h k =
    (by_sso-row io "kysignon" subject db v (ap (λ p. p.0) h)).0 ∙ ap some (linked_user k)

answer_linked-IsLinked :
    (again_io : Io) (subject : String) (before after : Db) (row : User) (x : Result (Unit {0}) × Db)
    (u : User) (adopted : Bool)
    → find_where (signs_in_by "scim" subject) before.users ≡ some row
    → (x.0 ≡ ok tt → 0 < count_where (is_linkable row.id subject) after.users)
    → (x.0 ≡ err conflict → x.1.users ≡ after.users)
    → (answer_linked again_io subject row x).0 ≡ ok (u, adopted)
    → IsLinked subject before after u
answer_linked-IsLinked again_io subject before after row (ok tt, d) u adopted read made kept k =
    inl (row, read, made refl, sym (linked_user k))
answer_linked-IsLinked again_io subject before after row (err conflict, d) u adopted read made kept
      k =
    inr (
      sym (ap (find_where (signs_in_by "kysignon" subject)) (kept refl))
      ∙ found_linked-row again_io subject d (get_user_by_sso again_io "kysignon" subject d) u
          adopted refl k)
answer_linked-IsLinked again_io subject before after row (err not_found, d) u adopted read made kept
      k =
    absurd (cc k)
answer_linked-IsLinked again_io subject before after row (err already_exists, d) u adopted read made
      kept k =
    absurd (cc k)
answer_linked-IsLinked again_io subject before after row (err session_expired, d) u adopted read
      made kept k =
    absurd (cc k)
answer_linked-IsLinked again_io subject before after row (err sso_session_ended, d) u adopted read
      made kept k =
    absurd (cc k)
answer_linked-IsLinked again_io subject before after row (err db_error, d) u adopted read made kept
      k =
    absurd (cc k)

pub adopt_scim_user-IsLinked :
    (read_io link_io again_io : Io) (now : ℕ) (meanwhile : Db → Db) (subject : String) (db : Db)
    (u : User) (adopted : Bool)
    → (adopt_scim_user read_io link_io again_io now meanwhile subject db).0 ≡ ok (u, adopted)
    → IsLinked subject db (meanwhile db) u
unfolding adopt_scim_user
adopt_scim_user-IsLinked read_io link_io again_io now meanwhile subject db u adopted e =
    elim (Bool-cases (subject == "")) [
      | inl blank ↦ absurd (cc (rw blank at e))
      | inr named ↦ go (get_user_by_sso read_io "scim" subject db) refl (rw named at e)
    ]
  where
    go :
        (x : Result User × Db)
        → get_user_by_sso read_io "scim" subject db ≡ x
        → (link_found link_io again_io now meanwhile subject x).0 ≡ ok (u, adopted)
        → IsLinked subject db (meanwhile db) u
    go (err x, d) h k = absurd (cc k)
    go (ok row, d) h k =
        let (read, state) = by_sso-row read_io "scim" subject db row (ap (λ p. p.0) h) in
        let same : d ≡ db = sym (ap (λ p. p.1) h) ∙ state in
        subst (λ (before : Db). IsLinked subject db (meanwhile before) u) same
          (answer_linked-IsLinked again_io subject db (meanwhile d) row
            (link_sso_identity link_io now row.id subject "scim" "kysignon" (meanwhile d)) u adopted
            read (link_sso_identity-ok link_io now row.id subject (meanwhile d))
            (link_sso_identity-conflict link_io now row.id subject (meanwhile d)) k)
