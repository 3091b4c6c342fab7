-- ===== src/Store/SessionTests.antt =====
-- The theorems on sessions at concrete tables: sign-in, logout and password writes
-- (internal/store/sqlstore.go).
use ky_server_base.Prelude.{inl, String, ◌≡◌, refl, ◌≢◌, inr, [], ◌∷◌, arith, eq_iff}
use ky_server_base.Sql.{any, count_where, update_where, delete_where}
use ky_server_base.Store.Models.{Session, Db, ok}
use ky_server_base.Store.Tx.{transaction}
use ky_server_base.Store.Samples.{quiet, two, sess_of, two-IsKeyed}
use ky_server_base.Store.Sessions.{
  end_sso_subject, create_session, end_sso_session, complete_password_change,
}
use ky_server_base.Store.Sessions.Fences.{no_login_after_logout, logouts}
use ky_server_base.Store.Sessions.Subjects.{no_login_after_subject_logout}
use ky_server_base.Store.Sessions.Race.{
  World, verifying, rejected, received, ended, Reach, start, next, insert, refuse, delete_own,
  prune, raise, sweep, not_allowed, no_session_survives,
}
use ky_server_base.Store.Sessions.Passwords.{no_login_with_old_hash}

-- `two` after a logout of "sid9" that is fenced until 900.
abbrev logged_out : Db
logged_out = record two { sso_logouts = record { sid = "sid9"; expires_at = 900 } ∷ [] }

abbrev late_login : Session
late_login = sess_of "t9" "u2" "sid9"

abbrev two_sid : String
two_sid = "sid2"

sid2 : two_sid ≢ ""
sid2 e = ground (arith, eq_iff two_sid "", e)

-- Another sid's logout comes between.
no_login_after_logout_example :
    (create_session quiet 70
      (sess_of "t9" "u2" "sid2")
      "h2"
      (logouts ((quiet, 60, "sid7", 1000) ∷ []) (end_sso_session quiet 50 "sid2" 900 two).1)).0
    ≢ ok tt
unfolding end_sso_session
no_login_after_logout_example =
    no_login_after_logout quiet quiet 50 900 70 (sess_of "t9" "u2" "sid2") "h2" two
      ((quiet, 60, "sid7", 1000) ∷ []) sid2 refl
      ((λ e. ground (arith, eq_iff "sid7" "sid2", e)), omega arith, tt) (omega arith)

abbrev racing : Session
racing = sess_of "t9" "u2" "sid2"

-- The session is inserted while the logout is under way, and swept; the check finds the fence.
raced :
    (w : World) × Reach racing 70 900 (record { db = two; login = verifying; logout = received }) w
    × (w.login ≡ rejected)
    × (w.logout ≡ ended)
raced = (
  _,
  next
      (next
        (next (next (next (next start (prune two verifying 50)) (insert _ _)) (raise _ _))
          (sweep _ _))
        (refuse _ _))
      (delete_own _ _),
  refl,
  refl,
)

no_session_survives_example :
    count_where (not_allowed racing 70 900 raced.0.login) raced.0.db.sessions ≡ 0
no_session_survives_example =
    no_session_survives racing 70 900 sid2 (omega arith) two raced.0 raced.1 (inr (inl raced.2))
      raced.3

no_login_with_old_hash_example :
    (create_session quiet 70
      (sess_of "t9" "u1" "")
      "h1"
      (complete_password_change quiet 60 "u1" "h1" "h9" "::1" two).1).0
    ≢ ok tt
unfolding complete_password_change transaction count_where update_where delete_where
no_login_with_old_hash_example =
    no_login_with_old_hash quiet quiet 60 70 "u1" "h1" "h9" "::1" (sess_of "t9" "u1" "") two
      two-IsKeyed (λ e. ground (arith, eq_iff "h9" "h1", e)) refl refl

-- `two` with a fence of bob's subject that an earlier logout raised.
abbrev fenced_subject : Db
fenced_subject = record two {
  sso_subject_logouts =
      record { provider = "kysignon"; subject = "s2"; cutoff = 40; expires_at = 500 } ∷ [];
}

no_login_after_subject_logout_example :
    (create_session quiet 70
      (sess_of "t9" "u2" "")
      "h2"
      (end_sso_subject quiet 50 "kysignon" "s2" 45 900 fenced_subject).1).0
    ≢ ok tt
unfolding end_sso_subject any delete_where
no_login_after_subject_logout_example =
    no_login_after_subject_logout quiet quiet 50 70 "kysignon" "s2" 45 900 (sess_of "t9" "u2" "")
      "h2" fenced_subject refl (omega arith) (omega arith) ((λ _ _. omega arith), tt) refl
