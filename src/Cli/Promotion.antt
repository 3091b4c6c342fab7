-- ===== src/Cli/Promotion.antt =====
-- No account becomes an administrator by init-admin without -promote (cmd/server/main.go).
use ky_server_base.Prelude.{
  ℕ, ◌<◌, String, ◌≡◌, refl, ap, ◌∙◌, subst, inl, inr, true, false, ◌&&◌, ◌||◌, some, List, [], ◌∷◌,
  arith, ◌==◌, eq_iff, ltb, Bool-cases, Option-cases,
}
use ky_server_base.Sql.{count_where, update_where, find_where}
use ky_server_base.Sql.Laws.{count-pos_of_find}
use ky_server_base.Store.Models.{User, Db, Backend, ok}
use ky_server_base.Store.Tx.{Io}
use ky_server_base.Store.Users.{get_user_by_username, has_id, stamped, same_name}
use ky_server_base.Store.Sessions.{is_local, reset_password}
use ky_server_base.Config.Texts.{byte_len}
use ky_server_base.Cli.{
  AdminCall, AdminReply, init_admin, run_init_admin, new_admin, is_active_admin, password_too_short,
  hash_failed, read_failed, not_local, not_administrator, reset_failed, create_failed,
  password_reset, admin_created,
}
use ky_server_base.Cli.Admin.{IsAnswer, init_admin-IsAnswer, after_reset}

-- How many administrators the rows have under an id, which are one at most.
abbrev pub admins : String → List User → ℕ
admins id = count_where (λ u. has_id id u && u.role == "admin")

admins-reset :
    (now : ℕ) (hash uid id : String) (rows : List User)
    → (uid == id) ≡ false
    → admins id (update_where (is_local uid) (reset_password now hash) rows) ≡ admins id rows
unfolding count_where update_where
admins-reset now hash uid id [] other = refl
admins-reset now hash uid id (u ∷ us) other =
    ground
      (arith, admins-reset now hash uid id us other, eq_iff u.id uid, eq_iff u.id id, eq_iff uid id)

found_admin-pos :
    (b : Backend) (io : Io) (username : String) (db : Db) (u : User)
    → (get_user_by_username b io username db).0 ≡ ok u
    → is_active_admin u ≡ true
    → 0 < admins u.id db.users
found_admin-pos b io username db u found admin =
    let row : find_where (same_name b username) db.users ≡ some u =
      unfold get_user_by_username in ground arith in
    count-pos_of_find (same_name b username) (λ x. has_id u.id x && x.role == "admin") db.users row
      (ground (arith, eq_iff u.id u.id))

unmade :
    (id : String) (after d : Db) → after ≡ d → admins id d.users ≡ 0 → 0 < admins id after.users → ⊥
unmade id after d same h made = omega (arith, ap (λ (x : Db). admins id x.users) same)

created_id :
    (id drawn : String) (rows : List User)
    → admins id rows ≡ 0
    → (row : User) → row.id ≡ drawn
    → 0 < admins id (row ∷ rows)
    → id ≡ drawn
unfolding count_where
created_id id drawn rows h row named made = ground (arith, eq_iff row.id id)

-- Only a creation makes an administrator, and that of the drawn id.
IsAnswer-no_promotion :
    (b : Backend) (c : AdminCall) (username hash : String) (db : Db) (id : String)
    (answer : AdminReply × Db)
    → IsAnswer b c username hash false db answer
    → admins id db.users ≡ 0
    → admins id (c.meanwhile db).users ≡ 0
    → 0 < admins id answer.1.users
    → (answer.0 ≡ admin_created) × (id ≡ c.drawn_id)
IsAnswer-no_promotion b c username hash db id (password_reset, after) (u, found, own, may, done) h k
      made =
    absurd (elim (Bool-cases (u.id == id)) [
      | inl mine ↦
          let pos : 0 < admins u.id db.users =
            found_admin-pos b c.read_io username db u found (ground arith) in
          omega (arith, h, ap (λ (x : String). admins x db.users) ((eq_iff u.id id).0 mine))
      | inr other ↦
          unmade id after (after_reset c.now u.id hash (c.meanwhile db)) done
            (admins-reset c.now hash u.id id (c.meanwhile db).users other ∙ k) made
    ])
IsAnswer-no_promotion b c username hash db id (admin_created, after) (free, done) h k made = (
  refl,
  created_id id c.drawn_id (c.meanwhile db).users k
      (stamped c.now (new_admin c.drawn_id username hash)) refl
      (subst (λ (d : Db). 0 < admins id d.users) done made),
)
IsAnswer-no_promotion b c username hash db id (reset_failed, after) same h k made =
    absurd (unmade id after (c.meanwhile db) same k made)
IsAnswer-no_promotion b c username hash db id (create_failed, after) same h k made =
    absurd (unmade id after (c.meanwhile db) same k made)
IsAnswer-no_promotion b c username hash db id (password_too_short, after) same h k made =
    absurd (unmade id after db same h made)
IsAnswer-no_promotion b c username hash db id (hash_failed, after) same h k made =
    absurd (unmade id after db same h made)
IsAnswer-no_promotion b c username hash db id (read_failed, after) same h k made =
    absurd (unmade id after db same h made)
IsAnswer-no_promotion b c username hash db id (not_local, after) same h k made =
    absurd (unmade id after db same h made)
IsAnswer-no_promotion b c username hash db id (not_administrator, after) same h k made =
    absurd (unmade id after db same h made)

-- Without -promote, whatever init-admin answers and whatever other processes write meanwhile, an id
-- that is no administrator's when the command reads and when it writes is no administrator's
-- after it, unless the command reports that it created an account, and then the id is the drawn
-- one.
pub run_init_admin-no_promotion :
    (b : Backend) (c : AdminCall) (username pass : String) (db : Db) (id : String)
    → admins id db.users ≡ 0
    → admins id (c.meanwhile db).users ≡ 0
    → 0 < admins id (run_init_admin b c username pass false db).1.users
    → ((run_init_admin b c username pass false db).0 ≡ admin_created) × (id ≡ c.drawn_id)
unfolding run_init_admin
run_init_admin-no_promotion b c username pass db id h k made =
    elim (Bool-cases (pass == "" || ltb (byte_len pass) 12)) [
      | inl short ↦ absurd (unmade id db db refl h (rw short at made))
      | inr long ↦ elim (Option-cases (c.hash pass)) [
        | inl failed ↦ absurd (unmade id db db refl h (rw (long, failed, init_admin) at made))
        | inr (hash, e) ↦ rw long (
            IsAnswer-no_promotion b c username hash db id (init_admin b c username pass false db)
              (init_admin-IsAnswer b c username pass hash false db e) h k (rw long at made))
      ]
    ]
