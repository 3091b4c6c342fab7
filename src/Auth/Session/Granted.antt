-- ===== src/Auth/Session/Granted.antt =====
-- What a granted request shows, and revocation while a request is being authenticated.
use ky_server_base.Prelude.{
  ℕ, String, ◌≡◌, refl, Bool, true, false, not, ◌&&◌, some, arith, ◌==◌, ltb,
}
use ky_server_base.Sql.{find_where}
use ky_server_base.Store.Models.{User, Session, Db, Result, ok, err}
use ky_server_base.Store.Tx.{Io}
use ky_server_base.Store.Users.{has_id, get_user_by_id}
use ky_server_base.Store.Sessions.{has_token, get_session}
use ky_server_base.Auth.Session.{
  Request, raw_token, is_restricted_path, granted, AuthCalls, recheck, check_active, authenticate,
}

-- A session that the store returns is the row of its token and has not expired.
get_session-ok :
    (io : Io) (now : ℕ) (token : String) (db : Db) (s : Session)
    → (get_session io now token db).0 ≡ ok s
    → (find_where (has_token token) db.sessions ≡ some s)
      × (ltb s.expires_at now ≡ false)
      × ((get_session io now token db).1 ≡ db)
unfolding get_session
get_session-ok io now token db s e = ground arith

get_user_by_id-ok :
    (io : Io) (id : String) (db : Db) (u : User)
    → (get_user_by_id io id db).0 ≡ ok u
    → (find_where (has_id id) db.users ≡ some u) × ((get_user_by_id io id db).1 ≡ db)
unfolding get_user_by_id
get_user_by_id-ok io id db u e = ground arith

recheck-granted :
    (c : AuthCalls) (r : Request) (token : String) (user : User) (sess : Session) (db : Db)
    (u : User) (s : Session)
    → (recheck c r token user sess db).0 ≡ granted (u, s)
    → (u ≡ user)
      × (s ≡ sess)
      × ((user.must_change_password && not (is_restricted_path r)) ≡ false)
      × ((last : Session) × ((get_session c.recheck_io c.recheck_now token (c.before_recheck db)).0
            ≡ ok last))
recheck-granted c r token user sess db u s e =
    go (get_session c.recheck_io c.recheck_now token (c.before_recheck db)).0 refl
  where
    go :
        (x : Result Session)
        → (get_session c.recheck_io c.recheck_now token (c.before_recheck db)).0 ≡ x
        → (u ≡ user)
          × (s ≡ sess)
          × ((user.must_change_password && not (is_restricted_path r)) ≡ false)
          × ((last : Session) × ((get_session c.recheck_io c.recheck_now token
                  (c.before_recheck db)).0
                ≡ ok last))
    go (ok last) h = (
      unfold recheck in ground arith,
      unfold recheck in ground arith,
      unfold recheck in ground arith,
      (last, h),
    )
    go (err x) h = absurd (unfold recheck in ground arith)

check_active-granted :
    (c : AuthCalls) (r : Request) (token : String) (sess : Session) (user : User) (db : Db)
    (u : User) (s : Session)
    → (check_active c r token sess user db).0 ≡ granted (u, s)
    → ((user.status == "active") ≡ true) × ((recheck c r token user sess db).0 ≡ granted (u, s))
unfolding check_active
check_active-granted c r token sess user db u s e = ground arith

module _ (sha256_hex : String → String) (host : Bool) (c : AuthCalls) (r : Request) (db : Db) where
  -- The token that a request carries, hashed.
  abbrev pub token_of : String
  token_of = sha256_hex (raw_token host r)

  -- The database at the read of the user and at the recheck.
  abbrev pub at_user : Db
  at_user = c.before_user db

  abbrev pub at_recheck : Db
  at_recheck = c.before_recheck at_user

  -- What a grant of `u` and `s` rests on.
  pub record Evidence (u : User) (s : Session) : Type 0 where
    pub has_raw : (raw_token host r == "") ≡ false
    pub session_row : find_where (has_token token_of) db.sessions ≡ some s
    pub not_expired : ltb s.expires_at c.first_now ≡ false
    pub user_row : find_where (has_id s.user_id) at_user.users ≡ some u
    pub is_active : (u.status == "active") ≡ true
    pub is_free : (u.must_change_password && not (is_restricted_path r)) ≡ false
    pub last : Session
    pub last_row : find_where (has_token token_of) at_recheck.sessions ≡ some last
    pub last_not_expired : ltb last.expires_at c.recheck_now ≡ false

  with_user :
      (u u' : User) (s s' : Session)
      → (raw_token host r == "") ≡ false
      → (get_session c.first_io c.first_now token_of db).0 ≡ ok s'
      → (get_user_by_id c.user_io s'.user_id at_user).0 ≡ ok u'
      → (check_active c r token_of s' u' at_user).0 ≡ granted (u, s)
      → Evidence u s
  with_user u u' s s' raw h h' e =
      let (row, fresh, _) = get_session-ok c.first_io c.first_now token_of db s' h in
      let (found, _) = get_user_by_id-ok c.user_io s'.user_id at_user u' h' in
      let (active, e') = check_active-granted c r token_of s' u' at_user u s e in
      let (same_user, same_session, free, (last, h'')) =
        recheck-granted c r token_of u' s' at_user u s e' in
      let (last_row, last_fresh, _) =
        get_session-ok c.recheck_io c.recheck_now token_of at_recheck last h'' in
      record {
        has_raw = raw;
        session_row = rw same_session row;
        not_expired = rw same_session fresh;
        user_row = rw (same_session, same_user) found;
        is_active = rw same_user active;
        is_free = rw same_user free;
        last = last;
        last_row = last_row;
        last_not_expired = last_fresh;
      }

  -- A request that is authenticated carried a token whose session was there and unexpired at both
  -- reads; the session's account, as it was read in between, was active; and under a mandatory
  -- password change the request is one of the three that such a session may make.
  pub authenticate-Evidence :
      (u : User) (s : Session)
      → (authenticate sha256_hex host c r db).0 ≡ granted (u, s)
      → Evidence u s
  authenticate-Evidence u s e = by_session (get_session c.first_io c.first_now token_of db).0 refl
    where
      by_user :
          (s' : Session) (x : Result User)
          → (get_session c.first_io c.first_now token_of db).0 ≡ ok s'
          → (get_user_by_id c.user_io s'.user_id at_user).0 ≡ x
          → Evidence u s
      by_user s' (ok u') h h' =
          let (_, _, state) = get_session-ok c.first_io c.first_now token_of db s' h in
          let (_, state') = get_user_by_id-ok c.user_io s'.user_id at_user u' h' in
          with_user u u' s s' (unfold authenticate in ground arith) h h'
            (unfold authenticate in ground (arith, state, state'))
      by_user s' (err y) h h' =
          let (_, _, state) = get_session-ok c.first_io c.first_now token_of db s' h in
          absurd (unfold authenticate in ground (arith, state))

      by_session :
          (x : Result Session)
          → (get_session c.first_io c.first_now token_of db).0 ≡ x
          → Evidence u s
      by_session (ok s') h = by_user s' (get_user_by_id c.user_io s'.user_id at_user).0 h refl
      by_session (err y) h = absurd (unfold authenticate in ground arith)
