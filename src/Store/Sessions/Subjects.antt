-- ===== src/Store/Sessions/Subjects.antt =====
-- Logouts of a subject of the identity provider and sign-ins that finish after them: EndSSOSubject
-- and the fence check of CreateSession.
use ky_server_base.Prelude.{
  ℕ, ◌≤◌, ◌<◌, String, ◌≡◌, refl, ◌≢◌, inl, inr, Bool, true, false, ◌&&◌, List, [], ◌∷◌, arith,
  ◌==◌, eq_iff, eq_refl, ltb, leb, Bool-cases, if_both,
}
use ky_server_base.Sql.{update_where, delete_where, any}
use ky_server_base.Store.Models.{User, Session, SubjectFence, Db, ok}
use ky_server_base.Store.Tx.{Io}
use ky_server_base.Store.Sessions.{
  has_id, subject_fenced, end_sso_subject, is_subject, create_session, fenced, put_subject_fence,
  same_subject,
}
use ky_server_base.Store.Sessions.Fences.{create_session-ok}

-- A fence on (provider, subject) that ends sign-ins verified before `at`, live at `later`.
abbrev pub subject_live : ℕ → String → String → ℕ → List SubjectFence → Bool
subject_live later provider subject at =
    any (λ f. same_subject provider subject f && (ltb at f.cutoff && ltb later f.expires_at))

-- A fence that is kept for its later cutoff must last that long by itself.
abbrev pub LastsBy : ℕ → ℕ → String → String → List SubjectFence → Type 0
LastsBy later cutoff provider subject [] = Unit {0}
LastsBy later cutoff provider subject (f ∷ fs) =
    (same_subject provider subject f ≡ true → cutoff ≤ f.cutoff → later < f.expires_at)
    × LastsBy later cutoff provider subject fs

module _ (provider subject : String) (cutoff until at later : ℕ) (h : at < cutoff)
    (u : later < until) where
  update-live :
      (fences : List SubjectFence)
      → LastsBy later cutoff provider subject fences
      → any (same_subject provider subject) fences ≡ true
      → subject_live later provider subject at (
          update_where
            (λ f. same_subject provider subject f && ltb f.cutoff cutoff)
            (λ f. record f { cutoff = cutoff; expires_at = until })
            fences)
        ≡ true
  unfolding any update_where
  update-live [] lasts e = cc
  update-live (f ∷ fs) lasts e = ground (arith, update-live fs lasts.1, lasts.0)

  put_subject_fence-live :
      (fences : List SubjectFence)
      → LastsBy later cutoff provider subject fences
      → subject_live later provider subject at
          (put_subject_fence provider subject cutoff until fences)
        ≡ true
  unfolding put_subject_fence
  put_subject_fence-live fences lasts =
      elim (Bool-cases (any (same_subject provider subject) fences)) [
        | inl e ↦ rw e (update-live fences lasts e)
        | inr e ↦ rw e (ground (arith, eq_refl provider, eq_refl subject))
      ]

unpruned-LastsBy :
    (now later cutoff : ℕ) (provider subject : String) (fences : List SubjectFence)
    → LastsBy later cutoff provider subject fences
    → LastsBy later cutoff provider subject (delete_where (λ f. leb f.expires_at now) fences)
unfolding delete_where
unpruned-LastsBy now later cutoff provider subject [] lasts = tt
unpruned-LastsBy now later cutoff provider subject (f ∷ fs) lasts =
    if_both (LastsBy later cutoff provider subject) (leb f.expires_at now)
      (unpruned-LastsBy now later cutoff provider subject fs lasts.1)
      (lasts.0, unpruned-LastsBy now later cutoff provider subject fs lasts.1)

-- The account of an id is one of the fence's subject.
abbrev names : SubjectFence → String → List User → Bool
names f id users =
    any (λ u. u.sso_provider == f.provider && (u.sso_subject == f.subject && has_id id u)) users

names-is_subject :
    (f : SubjectFence) (provider subject id : String) (users : List User)
    → same_subject provider subject f ≡ true
    → is_subject provider subject users id ≡ true
    → names f id users ≡ true
unfolding any
names-is_subject f provider subject id [] same h = cc h
names-is_subject f provider subject id (u ∷ us) same h = ground (
  arith,
  names-is_subject f provider subject id us same,
  eq_iff f.provider provider,
  eq_iff f.subject subject,
  eq_iff u.sso_provider provider,
  eq_iff u.sso_subject subject,
  eq_iff u.sso_provider f.provider,
  eq_iff u.sso_subject f.subject,
)

subject_fenced-live :
    (later : ℕ) (provider subject : String) (sess : Session) (users : List User)
    (fences : List SubjectFence)
    → is_subject provider subject users sess.user_id ≡ true
    → subject_live later provider subject sess.created_at fences ≡ true
    → subject_fenced later sess users fences ≡ true
unfolding any
subject_fenced-live later provider subject sess users [] mine live = cc live
subject_fenced-live later provider subject sess users (f ∷ fs) mine live =
    let found = names-is_subject f provider subject sess.user_id users in
    ground (arith, found, subject_fenced-live later provider subject sess users fs mine)

end_sso_subject-ok :
    (io : Io) (now : ℕ) (provider subject : String) (cutoff until : ℕ) (db : Db)
    → (end_sso_subject io now provider subject cutoff until db).0 ≡ ok tt
    → ((end_sso_subject io now provider subject cutoff until db).1.sso_subject_logouts
        ≡ put_subject_fence provider subject cutoff until
            (delete_where (λ f. leb f.expires_at now) db.sso_subject_logouts))
      × ((end_sso_subject io now provider subject cutoff until db).1.users ≡ db.users)
unfolding end_sso_subject
end_sso_subject-ok io now provider subject cutoff until db e = ground arith

-- After a logout of a subject that reports success, no sign-in of an account of that subject
-- succeeds before `until` if its credentials were verified before the cutoff, as long as a fence of
-- the subject that was there with the same or a later cutoff lasts that long itself.
pub no_login_after_subject_logout :
    (io io' : Io) (now later : ℕ) (provider subject : String) (cutoff until : ℕ) (sess : Session)
    (hash : String) (db : Db)
    → is_subject provider subject db.users sess.user_id ≡ true
    → sess.created_at < cutoff
    → later < until
    → LastsBy later cutoff provider subject db.sso_subject_logouts
    → (end_sso_subject io now provider subject cutoff until db).0 ≡ ok tt
    → (create_session io' later sess hash
        (end_sso_subject io now provider subject cutoff until db).1).0
      ≢ ok tt
no_login_after_subject_logout io io' now later provider subject cutoff until sess hash db mine early
      lasting lasts e success =
    let after : Db = (end_sso_subject io now provider subject cutoff until db).1 in
    let (fences, users) = end_sso_subject-ok io now provider subject cutoff until db e in
    let live =
      put_subject_fence-live provider subject cutoff until sess.created_at later early lasting
        (delete_where (λ f. leb f.expires_at now) db.sso_subject_logouts)
        (unpruned-LastsBy now later cutoff provider subject db.sso_subject_logouts lasts) in
    let stopped : subject_fenced later sess after.users after.sso_subject_logouts ≡ true =
      rw (fences, users) (subject_fenced-live later provider subject sess db.users _ mine live) in
    let free = (create_session-ok io' later sess hash after success).0 in
    unfold fenced in ground (arith, stopped, free)

update-none :
    (p : SubjectFence → Bool) (g : SubjectFence → SubjectFence) (fences : List SubjectFence)
    → any p fences ≡ false
    → update_where p g fences ≡ fences
unfolding any update_where
update-none p g [] h = refl
update-none p g (f ∷ fs) h = ground (arith, update-none p g fs)

-- Where the subject has a fence and no fence of it has an earlier cutoff, a logout leaves the
-- fences as they are: no expiry is moved to the `until` of the later logout.
pub put_subject_fence-keeps :
    (provider subject : String) (cutoff until : ℕ) (fences : List SubjectFence)
    → any (same_subject provider subject) fences ≡ true
    → any (λ f. same_subject provider subject f && ltb f.cutoff cutoff) fences ≡ false
    → put_subject_fence provider subject cutoff until fences ≡ fences
unfolding put_subject_fence
put_subject_fence-keeps provider subject cutoff until fences known newest =
    rw known (update-none _ _ fences newest)
