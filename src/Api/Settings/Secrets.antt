-- ===== src/Api/Settings/Secrets.antt =====
-- Who sees the extra settings, and what is left out of them (internal/api/settings_handlers.go).
use ky_server_base.Prelude.{
  String, ◌≡◌, refl, ap, subst, inl, inr, Bool, true, false, Option, none, some, List, [], map,
  arith, ◌==◌, eq_iff, Bool-cases,
}
use ky_server_base.Sql.{delete_where, count_where}
use ky_server_base.Sql.Laws.{count-delete_self, count-delete_other}
use ky_server_base.Store.Models.{User, Session, Setting, Db, Result, ok, err}
use ky_server_base.Store.Tx.{Io}
use ky_server_base.Store.Audit.{get_all_settings}
use ky_server_base.Auth.Session.{Request, AuthCalls, Outcome, granted, denied, authenticate}
use ky_server_base.Auth.Session.Granted.{Evidence, authenticate-Evidence}
use ky_server_base.Api.Settings.{
  SettingsEnv, PublicTier, AccountTier, SettingsReply, shown, failed, is_token, with_extra,
  for_account, public_tier, account_tier, get_settings,
}

-- The table's settings but for the recovery tokens, each as often as the table has it.
abbrev pub IsStripped : List (String × String) → List (String × String) → Type 0
IsStripped stored extra =
    (count_where is_token extra ≡ 0)
    × ((p : String × String → Bool)
        → ((e : String × String) → p e ≡ true → is_token e ≡ false)
        → count_where p extra ≡ count_where p stored)

-- The extra settings of a reply.
abbrev pub extra_of : SettingsReply → Option (List (String × String))
extra_of failed = none
extra_of (shown out inner extra) = extra

get_all_settings-ok :
    (io : Io) (db : Db) (settings : List (String × String))
    → (get_all_settings io db).0 ≡ ok settings
    → settings ≡ map (λ (s : Setting). (s.key, s.value)) db.server_settings
unfolding get_all_settings
get_all_settings-ok io db settings e = ground arith

with_extra-IsStripped :
    (out : PublicTier) (inner : AccountTier) (x : Result (List (String × String)) × Db)
    (extra : List (String × String))
    → extra_of (with_extra out inner x).0 ≡ some extra
    → (settings : List (String × String)) × (x.0 ≡ ok settings) × IsStripped settings extra
with_extra-IsStripped out inner (err e, db) extra h = absurd (cc h)
with_extra-IsStripped out inner (ok settings, db) extra h =
    let same : delete_where is_token settings ≡ extra =
      ap (λ o. elim o [ none ↦ [] | some l ↦ l ]) h in
    (
      settings,
      refl,
      subst (IsStripped settings) same (
        count-delete_self is_token settings,
        λ p kept. count-delete_other p is_token settings kept,
      ),
    )

-- Extra settings are shown to an authenticated active administrator alone, and they are the
-- table's settings when the authentication had ended, but for those under a key that starts like
-- the recovery token's, of which there is none.
pub get_settings-IsStripped :
    (env : SettingsEnv) (c : AuthCalls) (theme_io all_io : Io) (r : Request) (db : Db)
    (extra : List (String × String))
    → extra_of (get_settings env c theme_io all_io r db).0 ≡ some extra
    → (u : User) × (s : Session) × Evidence env.sha256_hex env.host_cookies c r db u s
      × (u.role ≡ "admin")
      × IsStripped
          (map
            (λ (x : Setting). (x.key, x.value))
            (authenticate env.sha256_hex env.host_cookies c r db).1.server_settings)
          extra
unfolding get_settings
get_settings-IsStripped env c theme_io all_io r db extra e =
    go (authenticate env.sha256_hex env.host_cookies c r db) refl e
  where
    go :
        (x : Outcome (User × Session) × Db)
        → authenticate env.sha256_hex env.host_cookies c r db ≡ x
        → extra_of (for_account (public_tier env theme_io db) (account_tier env) all_io x).0
          ≡ some extra
        → (u : User) × (s : Session) × Evidence env.sha256_hex env.host_cookies c r db u s
          × (u.role ≡ "admin")
          × IsStripped (map (λ (y : Setting). (y.key, y.value)) x.1.server_settings) extra
    go (denied reason, d) h k = absurd (cc k)
    go (granted (u, s), d) h k = elim (Bool-cases (u.role == "admin")) [
      | inr other ↦ absurd (cc (rw other at k))
      | inl is ↦
          let (settings, read, stripped) =
            with_extra-IsStripped (public_tier env theme_io db) (account_tier env)
              (get_all_settings all_io d) extra (rw is at k) in
          (
            u,
            s,
            authenticate-Evidence env.sha256_hex env.host_cookies c r db u s (ap (λ p. p.0) h),
            (eq_iff u.role "admin").0 is,
            subst (λ (l : List (String × String)). IsStripped l extra)
                (get_all_settings-ok all_io d settings read) stripped,
          )
    ]
