-- ===== src/Store/Sessions/Fences.antt =====
-- Logouts of the identity provider and sign-ins that finish after them: EndSSOSession,
-- EndSSOSubject and the fence check of CreateSession, one after the other.
use ky_server_base.Prelude.{
  ℕ, ◌≤◌, ◌<◌, String, ◌≡◌, ◌≢◌, Bool, true, false, List, [], ◌∷◌, arith, ◌==◌, eq_iff, eq_refl,
  leb,
}
use ky_server_base.Sql.{count_where, delete_where, any}
use ky_server_base.Sql.Laws.{count-delete_self}
use ky_server_base.Store.Models.{Error, Session, SidFence, Db, ok, err}
use ky_server_base.Store.Tx.{Io, cleanup, transaction}
use ky_server_base.Store.Sessions.{
  has_token, create_session, fenced, sid_fenced, holds_password, end_sso_session,
}

abbrev pub tokens_of : String → List Session → ℕ
tokens_of token = count_where (has_token token)

-- A sign-in that reports success was not fenced, and its account was active with the hash that was
-- verified.
pub create_session-ok :
    (io : Io) (now : ℕ) (sess : Session) (hash : String) (db : Db)
    → (create_session io now sess hash db).0 ≡ ok tt
    → (fenced now sess db ≡ false)
      × (count_where (holds_password sess.user_id hash) db.users ≡ 1)
      × ((create_session io now sess hash db).1 ≡ record db { sessions = sess ∷ db.sessions })
unfolding create_session transaction
create_session-ok io now sess hash db e = ground arith

-- A sign-in that reports an error leaves no session under its token, if there was none and the
-- deletion after the fence check works.
pub create_session-err :
    (io : Io) (now : ℕ) (sess : Session) (hash : String) (db : Db) (e : Error)
    → io cleanup ≡ false
    → tokens_of sess.token_hash db.sessions ≡ 0
    → (create_session io now sess hash db).0 ≡ err e
    → tokens_of sess.token_hash (create_session io now sess hash db).1.sessions ≡ 0
unfolding create_session transaction
create_session-err io now sess hash db e clean none_yet h =
    ground (arith, count-delete_self (has_token sess.token_hash) (sess ∷ db.sessions))

any-delete_other :
    (p q : SidFence → Bool) (xs : List SidFence)
    → ((f : SidFence) → p f ≡ true → q f ≡ false)
    → any p xs ≡ true
    → any p (delete_where q xs) ≡ true
unfolding any delete_where
any-delete_other p q [] h e = cc
any-delete_other p q (f ∷ fs) h e = ground (arith, any-delete_other p q fs h, h f)

-- A logout by a sid that is not empty, if it reports success, leaves no session of that sid, and
-- fences the sid until `until`.
pub end_sso_session-ok :
    (io : Io) (now : ℕ) (sid : String) (until : ℕ) (db : Db)
    → sid ≢ ""
    → (end_sso_session io now sid until db).0 ≡ ok tt
    → (count_where (λ s. s.sso_sid == sid) (end_sso_session io now sid until db).1.sessions ≡ 0)
      × ((later : ℕ)
          → later < until
          → sid_fenced later sid (end_sso_session io now sid until db).1.sso_logouts ≡ true)
unfolding end_sso_session any
end_sso_session-ok io now sid until db named e = (
  ground (arith, count-delete_self (λ (s : Session). s.sso_sid == sid) db.sessions),
  λ later h. ground (arith, eq_iff sid "", eq_refl sid),
)

-- A fence that is live at `later` survives every other sid's logout before then.
pub end_sso_session-keeps :
    (io : Io) (now : ℕ) (other : String) (until : ℕ) (db : Db) (sid : String) (later : ℕ)
    → other ≢ sid
    → now ≤ later
    → sid_fenced later sid db.sso_logouts ≡ true
    → sid_fenced later sid (end_sso_session io now other until db).1.sso_logouts ≡ true
unfolding end_sso_session any
end_sso_session-keeps io now other until db sid later ne before live = ground (
  arith,
  unpruned,
  any-delete_other _ (λ (f : SidFence). f.sid == other)
      (delete_where (λ f. leb f.expires_at now) db.sso_logouts)
      (λ f h. ground (arith, eq_iff f.sid sid, eq_iff f.sid other)) unpruned,
)
  where
    unpruned : sid_fenced later sid (delete_where (λ f. leb f.expires_at now) db.sso_logouts) ≡ true
    unpruned = any-delete_other _ _ db.sso_logouts (λ f h. ground arith) live

-- Logouts, one after the other.
abbrev pub logouts : List (Io × ℕ × String × ℕ) → Db → Db
logouts [] db = db
logouts ((io, now, sid, until) ∷ rest) db = logouts rest (end_sso_session io now sid until db).1

-- Each logout is of another sid and no later than `later`.
abbrev pub OthersBefore : String → ℕ → List (Io × ℕ × String × ℕ) → Type 0
OthersBefore sid later [] = Unit {0}
OthersBefore sid later ((io, now, other, until) ∷ rest) =
    (other ≢ sid) × (now ≤ later) × OthersBefore sid later rest

logouts-keeps :
    (sid : String) (later : ℕ) (ls : List (Io × ℕ × String × ℕ)) (db : Db)
    → OthersBefore sid later ls
    → sid_fenced later sid db.sso_logouts ≡ true
    → sid_fenced later sid (logouts ls db).sso_logouts ≡ true
logouts-keeps sid later [] db others live = live
logouts-keeps sid later ((io, now, other, until) ∷ rest) db others live =
    logouts-keeps sid later rest _ others.2
      (end_sso_session-keeps io now other until db sid later others.0 others.1 live)

-- After a logout by sid that reports success, and any further logouts of other sids, no sign-in
-- under that sid succeeds while the fence lasts. The sid is not empty.
pub no_login_after_logout :
    (io io' : Io) (now until later : ℕ) (sess : Session) (hash : String) (db : Db)
    (others : List (Io × ℕ × String × ℕ))
    → sess.sso_sid ≢ ""
    → (end_sso_session io now sess.sso_sid until db).0 ≡ ok tt
    → OthersBefore sess.sso_sid later others
    → later < until
    → (create_session io' later sess hash
        (logouts others (end_sso_session io now sess.sso_sid until db).1)).0
      ≢ ok tt
no_login_after_logout io io' now until later sess hash db others named e before h success =
    let ended : Db = (end_sso_session io now sess.sso_sid until db).1 in
    let live =
      logouts-keeps sess.sso_sid later others ended before
        ((end_sso_session-ok io now sess.sso_sid until db named e).1 later h) in
    let free = (create_session-ok io' later sess hash (logouts others ended) success).0 in
    unfold fenced in ground (arith, live, free)
