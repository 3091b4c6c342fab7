-- ===== src/Store/Sessions/Race.antt =====
-- A sign-in (CreateSession) and a back-channel logout of its sid (EndSSOSession) at the same time,
-- statement by statement, while other requests write the database too.
use ky_server_base.Prelude.{
  ℕ, ◌≤◌, ◌<◌, ◌≡◌, refl, ◌≢◌, ◌⊎◌, Bool, true, false, not, ◌&&◌, List, [], ◌∷◌, arith, ◌==◌,
  eq_iff, eq_refl,
}
use ky_server_base.Sql.{count_where, delete_where, any}
use ky_server_base.Sql.Laws.{count_mono, count-delete_self, count-delete-zero}
use ky_server_base.Store.Models.{Session, Db}
use ky_server_base.Store.Sessions.{
  has_token, fenced, sid_fenced, prune_sids, put_sid_fence, drop_sid, drop_token,
}

-- Where the sign-in stands: before its commit, before the fence check, before the deletion that a
-- fence asks for, after success, after an error, and after an error with the deletion failed, whose
-- error CreateSession drops.
pub data Login : Type 0 where
  verifying inserted refused signed_in rejected left_behind : Login

-- Where the logout stands: before its first statement, and after each of the three.
pub data Logout : Type 0 where
  received pruned raised ended : Logout

pub record World : Type 0 where
  pub db : Db
  pub login : Login
  pub logout : Logout

module _ (sess : Session) (checked_at until : ℕ) where
  abbrev pub of_sid : Session → Bool
  of_sid s = s.sso_sid == sess.sso_sid

  -- A session of the sid that is not the one being created.
  abbrev pub of_others : Session → Bool
  of_others s = of_sid s && not (has_token sess.token_hash s)

  -- The sessions of the sid that a finished logout excludes: all, but where the sign-in's deletion
  -- failed, all that are not its own.
  abbrev pub not_allowed : Login → Session → Bool
  not_allowed left_behind s = of_others s
  not_allowed _ s = of_sid s

  -- What other requests may do meanwhile: they add no session of the sid, and they lift no fence
  -- that is live when the sign-in checks.
  pub record Harmless (before after : Db) : Type 0 where
    pub adds_none : count_where of_sid after.sessions ≤ count_where of_sid before.sessions
    pub adds_no_other : count_where of_others after.sessions ≤ count_where of_others before.sessions
    pub lifts_none :
        sid_fenced checked_at sess.sso_sid before.sso_logouts ≡ true
        → sid_fenced checked_at sess.sso_sid after.sso_logouts ≡ true

  pub data Step : World → World → Type 0 where
    insert :
        (db : Db) (o : Logout)
        → Step
            (record { db = db; login = verifying; logout = o })
            (record {
              db = record db { sessions = sess ∷ db.sessions };
              login = inserted;
              logout = o;
            })
    pass :
        (db : Db) (o : Logout)
        → fenced checked_at sess db ≡ false
        → Step
            (record { db = db; login = inserted; logout = o })
            (record { db = db; login = signed_in; logout = o })
    refuse :
        (db : Db) (o : Logout)
        → Step
            (record { db = db; login = inserted; logout = o })
            (record { db = db; login = refused; logout = o })
    delete_own :
        (db : Db) (o : Logout)
        → Step
            (record { db = db; login = refused; logout = o })
            (record { db = drop_token sess.token_hash db; login = rejected; logout = o })
    keep_own :
        (db : Db) (o : Logout)
        → Step
            (record { db = db; login = refused; logout = o })
            (record { db = db; login = left_behind; logout = o })
    give_up :
        (db : Db) (o : Logout)
        → Step
            (record { db = db; login = verifying; logout = o })
            (record { db = db; login = rejected; logout = o })
    prune :
        (db : Db) (l : Login) (now : ℕ)
        → Step
            (record { db = db; login = l; logout = received })
            (record { db = prune_sids now db; login = l; logout = pruned })
    raise :
        (db : Db) (l : Login)
        → Step
            (record { db = db; login = l; logout = pruned })
            (record { db = put_sid_fence sess.sso_sid until db; login = l; logout = raised })
    sweep :
        (db : Db) (l : Login)
        → Step
            (record { db = db; login = l; logout = raised })
            (record { db = drop_sid sess.sso_sid db; login = l; logout = ended })
    other :
        (before after : Db) (l : Login) (o : Logout)
        → Harmless before after
        → Step
            (record { db = before; login = l; logout = o })
            (record { db = after; login = l; logout = o })

  pub data Reach (w : World) : World → Type 0 where
    start : Reach w w
    next : {v u : World} → Reach w v → Step v u → Reach w u

  -- The fence is up from `raised` on.
  abbrev HasFence : Logout → Db → Type 0
  HasFence received db = Unit {0}
  HasFence pruned db = Unit {0}
  HasFence _ db = sid_fenced checked_at sess.sso_sid db.sso_logouts ≡ true

  -- After the sweep only the sign-in's own session can be there, and only while it is unchecked or
  -- where its deletion failed.
  abbrev IsSwept : Logout → Login → Db → Type 0
  IsSwept ended verifying db = count_where of_sid db.sessions ≡ 0
  IsSwept ended signed_in db = count_where of_sid db.sessions ≡ 0
  IsSwept ended rejected db = count_where of_sid db.sessions ≡ 0
  IsSwept ended _ db = count_where of_others db.sessions ≡ 0
  IsSwept _ _ db = Unit {0}

  pub record Inv (w : World) : Type 0 where
    pub fence : HasFence w.logout w.db
    pub swept : IsSwept w.logout w.login w.db

  own_is_no_other : of_others sess ≡ false
  own_is_no_other = ground (arith, eq_refl sess.token_hash)

  others-le : (xs : List Session) → count_where of_others xs ≤ count_where of_sid xs
  others-le xs = count_mono of_others of_sid xs (λ s h. ground arith)

  -- Deleting the own token leaves no session of the sid if no other one has it.
  swept_by_token :
      (xs : List Session)
      → count_where of_others xs ≡ 0
      → count_where of_sid (delete_where (has_token sess.token_hash) xs) ≡ 0
  unfolding count_where delete_where
  swept_by_token [] h = refl
  swept_by_token (s ∷ xs) h = ground (arith, swept_by_token xs)

  insert-IsSwept :
      (o : Logout) (db : Db)
      → IsSwept o verifying db
      → IsSwept o inserted (record db { sessions = sess ∷ db.sessions })
  unfolding count_where
  insert-IsSwept received db h = tt
  insert-IsSwept pruned db h = tt
  insert-IsSwept raised db h = tt
  insert-IsSwept ended db h = rw own_is_no_other (omega (arith, h, others-le db.sessions))

  pass-IsSwept :
      (o : Logout) (db : Db)
      → fenced checked_at sess db ≡ false
      → HasFence o db
      → IsSwept o inserted db
      → IsSwept o signed_in db
  unfolding fenced
  pass-IsSwept received db free f h = tt
  pass-IsSwept pruned db free f h = tt
  pass-IsSwept raised db free f h = tt
  pass-IsSwept ended db free f h = ground arith

  refuse-IsSwept : (o : Logout) (db : Db) → IsSwept o inserted db → IsSwept o refused db
  refuse-IsSwept received db h = tt
  refuse-IsSwept pruned db h = tt
  refuse-IsSwept raised db h = tt
  refuse-IsSwept ended db h = h

  delete-IsSwept :
      (o : Logout) (db : Db)
      → IsSwept o refused db
      → IsSwept o rejected (drop_token sess.token_hash db)
  delete-IsSwept received db h = tt
  delete-IsSwept pruned db h = tt
  delete-IsSwept raised db h = tt
  delete-IsSwept ended db h = swept_by_token db.sessions h

  keep-IsSwept : (o : Logout) (db : Db) → IsSwept o refused db → IsSwept o left_behind db
  keep-IsSwept received db h = tt
  keep-IsSwept pruned db h = tt
  keep-IsSwept raised db h = tt
  keep-IsSwept ended db h = h

  give_up-IsSwept : (o : Logout) (db : Db) → IsSwept o verifying db → IsSwept o rejected db
  give_up-IsSwept received db h = tt
  give_up-IsSwept pruned db h = tt
  give_up-IsSwept raised db h = tt
  give_up-IsSwept ended db h = h

  sweep-IsSwept : (l : Login) (db : Db) → IsSwept ended l (drop_sid sess.sso_sid db)
  sweep-IsSwept verifying db = count-delete_self of_sid db.sessions
  sweep-IsSwept signed_in db = count-delete_self of_sid db.sessions
  sweep-IsSwept rejected db = count-delete_self of_sid db.sessions
  sweep-IsSwept inserted db = count-delete-zero of_others of_sid db.sessions (λ s h. ground arith)
  sweep-IsSwept refused db = count-delete-zero of_others of_sid db.sessions (λ s h. ground arith)
  sweep-IsSwept left_behind db =
      count-delete-zero of_others of_sid db.sessions (λ s h. ground arith)

  other-IsSwept :
      (o : Logout) (l : Login) (before after : Db)
      → Harmless before after
      → IsSwept o l before
      → IsSwept o l after
  other-IsSwept received l before after harmless h = tt
  other-IsSwept pruned l before after harmless h = tt
  other-IsSwept raised l before after harmless h = tt
  other-IsSwept ended verifying before after harmless h = omega (arith, harmless.adds_none)
  other-IsSwept ended signed_in before after harmless h = omega (arith, harmless.adds_none)
  other-IsSwept ended rejected before after harmless h = omega (arith, harmless.adds_none)
  other-IsSwept ended inserted before after harmless h = omega (arith, harmless.adds_no_other)
  other-IsSwept ended refused before after harmless h = omega (arith, harmless.adds_no_other)
  other-IsSwept ended left_behind before after harmless h = omega (arith, harmless.adds_no_other)

  -- Only the fences count for `HasFence`.
  same_fence :
      (o : Logout) (before after : Db)
      → (sid_fenced checked_at sess.sso_sid before.sso_logouts ≡ true
          → sid_fenced checked_at sess.sso_sid after.sso_logouts ≡ true)
      → HasFence o before
      → HasFence o after
  same_fence received before after lifts h = tt
  same_fence pruned before after lifts h = tt
  same_fence raised before after lifts h = lifts h
  same_fence ended before after lifts h = lifts h

  module _ (named : sess.sso_sid ≢ "") (lasts : checked_at < until) where
    raised_fence :
        (db : Db)
        → sid_fenced checked_at sess.sso_sid (put_sid_fence sess.sso_sid until db).sso_logouts
          ≡ true
    unfolding any
    raised_fence db = ground (arith, eq_iff sess.sso_sid "", eq_refl sess.sso_sid)

    Step-Inv : {v w : World} → Step v w → Inv v → Inv w
    Step-Inv (insert db o) h = record {
      fence = same_fence o db _ (λ x. x) h.fence;
      swept = insert-IsSwept o db h.swept;
    }
    Step-Inv (pass db o free) h = record {
      fence = h.fence;
      swept = pass-IsSwept o db free h.fence h.swept;
    }
    Step-Inv (refuse db o) h = record { fence = h.fence; swept = refuse-IsSwept o db h.swept }
    Step-Inv (delete_own db o) h = record {
      fence = same_fence o db _ (λ x. x) h.fence;
      swept = delete-IsSwept o db h.swept;
    }
    Step-Inv (keep_own db o) h = record { fence = h.fence; swept = keep-IsSwept o db h.swept }
    Step-Inv (give_up db o) h = record { fence = h.fence; swept = give_up-IsSwept o db h.swept }
    Step-Inv (prune db l now) h = record { fence = tt; swept = tt }
    Step-Inv (raise db l) h = record { fence = raised_fence db; swept = tt }
    Step-Inv (sweep db l) h = record { fence = h.fence; swept = sweep-IsSwept l db }
    Step-Inv (other before after l o harmless) h = record {
      fence = same_fence o before after harmless.lifts_none h.fence;
      swept = other-IsSwept o l before after harmless h.swept;
    }

    Reach-Inv : {v w : World} → Inv v → Reach v w → Inv w
    Reach-Inv h start = h
    Reach-Inv h (next r s) = Step-Inv s (Reach-Inv h r)

    settled :
        (l : Login) (db : Db)
        → (l ≡ signed_in) ⊎ ((l ≡ rejected) ⊎ (l ≡ left_behind))
        → IsSwept ended l db
        → count_where (not_allowed l) db.sessions ≡ 0
    settled verifying db e h = h
    settled signed_in db e h = h
    settled rejected db e h = h
    settled left_behind db e h = h
    settled inserted db e h = absurd (grind (arith, e))
    settled refused db e h = absurd (grind (arith, e))

    ended-IsSwept :
        (o : Logout) (l : Login) (db : Db) → o ≡ ended → IsSwept o l db → IsSwept ended l db
    ended-IsSwept ended l db e h = h
    ended-IsSwept received l db e h = absurd (cc e)
    ended-IsSwept pruned l db e h = absurd (cc e)
    ended-IsSwept raised l db e h = absurd (cc e)

    -- However the statements of a sign-in under a named sid and of a logout of that sid interleave,
    -- with harmless writes of other requests among them: once the sign-in has reported its result
    -- and the logout has ended, no session of the sid is left, if the fence outlasts the check; but
    -- where the sign-in was rejected and its deletion failed, a session under its own token may be.
    pub no_session_survives :
        (db : Db) (w : World)
        → Reach (record { db = db; login = verifying; logout = received }) w
        → (w.login ≡ signed_in) ⊎ ((w.login ≡ rejected) ⊎ (w.login ≡ left_behind))
        → w.logout ≡ ended
        → count_where (not_allowed w.login) w.db.sessions ≡ 0
    no_session_survives db w r l o =
        let inv = Reach-Inv (record { fence = tt; swept = tt }) r in
        settled w.login w.db l (ended-IsSwept w.logout w.login w.db o inv.swept)
