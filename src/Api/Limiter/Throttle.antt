-- ===== src/Api/Limiter/Throttle.antt =====
-- Sequences of calls of allowAttempt (internal/api/server.go) within one window of a key.
use ky_server_base.Prelude.{
  ℕ, suc, ◌+◌, ◌≤◌, ◌<◌, String, ◌≡◌, Bool, none, some, List, [], ◌∷◌, arith, ◌==◌, eq_iff, eq_refl,
  leb, if◌then◌else◌, length,
}
use ky_server_base.Dict.{lookup, lookup-insert, length-insert}
use ky_server_base.Api.Limiter.{
  AttemptWindow, Attempts, attempts_cap, window_of, bump_window, allow_attempt, attempts_exhausted,
}

pub record Call : Type 0 where
  pub victim : ℕ
  pub now : ℕ
  pub key : String
  pub limit : ℕ
  pub window : ℕ

abbrev pub call : Call → Attempts → Bool × Attempts
call c = allow_attempt c.victim c.now c.key c.limit c.window

abbrev pub calls : List Call → Attempts → Attempts
calls [] attempts = attempts
calls (c ∷ cs) attempts = calls cs (call c attempts).1

-- How many of the calls are for the key.
abbrev pub made : String → List Call → ℕ
made key [] = 0
made key (c ∷ cs) = (if c.key == key then 1 else 0) + made key cs

-- No call comes after `reset`.
abbrev pub By : ℕ → List Call → Type 0
By reset [] = Unit {0}
By reset (c ∷ cs) = (c.now ≤ reset) × By reset cs

-- While the map is not full nothing is evicted: a call sets its own key's window and no other.
call-lookup :
    (c : Call) (key : String) (attempts : Attempts)
    → length attempts < attempts_cap
    → lookup key (call c attempts).1 ≡ (
        if c.key == key
        then some (bump_window (window_of (lookup c.key attempts)) c.now c.window)
        else lookup key attempts)
unfolding allow_attempt
call-lookup c key attempts room = ground (
  arith,
  lookup-insert c.key key (bump_window (window_of (lookup c.key attempts)) c.now c.window) attempts,
)

call-length :
    (c : Call) (attempts : Attempts)
    → length attempts < attempts_cap
    → length (call c attempts).1 ≤ suc (length attempts)
unfolding allow_attempt
call-length c attempts room = ground (
  arith,
  length-insert c.key (bump_window (window_of (lookup c.key attempts)) c.now c.window) attempts,
)

call-lookup_live :
    (c : Call) (key : String) (w : AttemptWindow) (attempts : Attempts)
    → length attempts < attempts_cap
    → lookup key attempts ≡ some w
    → c.now ≤ w.reset
    → lookup key (call c attempts).1
      ≡ some (record w { count = w.count + (if c.key == key then 1 else 0) })
unfolding bump_window
call-lookup_live c key w attempts room h early =
    ground (arith, call-lookup c key attempts room, eq_iff c.key key)

-- A key's window after any calls made before it resets counts exactly the calls for that key, as
-- long as the map has room for every call.
calls-lookup :
    (key : String) (w : AttemptWindow) (cs : List Call) (attempts : Attempts)
    → lookup key attempts ≡ some w
    → By w.reset cs
    → length attempts + length cs ≤ attempts_cap
    → lookup key (calls cs attempts) ≡ some (record w { count = w.count + made key cs })
calls-lookup key w [] attempts h early room = rw h (ground arith)
calls-lookup key w (c ∷ cs) attempts h early room =
    let counted : ℕ = w.count + (if c.key == key then 1 else 0) in
    rw
      (calls-lookup key (record w { count = counted }) cs (call c attempts).1
        (call-lookup_live c key w attempts (omega arith) h early.0) early.1
        (omega (arith, call-length c attempts (omega arith))))
      (ground arith)

-- The call of a key whose window is live is let through exactly while the window's count is below
-- the limit.
call-live :
    (c : Call) (w : AttemptWindow) (attempts : Attempts)
    → lookup c.key attempts ≡ some w
    → c.now ≤ w.reset
    → (call c attempts).0 ≡ leb (w.count + 1) c.limit
unfolding allow_attempt bump_window
call-live c w attempts h early = ground arith

-- The first call for a key opens its window.
call-opens :
    (c : Call) (attempts : Attempts)
    → length attempts < attempts_cap
    → lookup c.key attempts ≡ none
    → 0 < c.now
    → lookup c.key (call c attempts).1 ≡ some (record { count = 1; reset = c.now + c.window })
unfolding bump_window
call-opens c attempts room h pos = ground (arith, call-lookup c c.key attempts room, eq_refl c.key)

-- From the first call for a key until its window resets, a later call for that key is let through
-- exactly if no more than its limit have been made, itself and the first included, whatever calls
-- for other keys come between, as long as the map has room for them all; and attemptsExhausted
-- says just then that the limit is used up.
pub allow_attempt-throttles :
    (first last : Call) (between : List Call) (attempts : Attempts)
    → lookup first.key attempts ≡ none
    → 0 < first.now
    → length attempts + length between < attempts_cap
    → By (first.now + first.window) between
    → last.key ≡ first.key
    → last.now ≤ first.now + first.window
    → let before = calls between (call first attempts).1 in
      ((call last before).0 ≡ leb (made first.key between + 2) last.limit)
      × (last.now < first.now + first.window
          → attempts_exhausted last.now first.key last.limit before
            ≡ leb last.limit (made first.key between + 1))
unfolding attempts_exhausted
allow_attempt-throttles first last between attempts fresh pos room early same soon =
    let opened : AttemptWindow = record { count = 1; reset = first.now + first.window } in
    let counted =
      calls-lookup first.key opened between (call first attempts).1
        (call-opens first attempts (omega arith) fresh pos) early
        (omega (arith, call-length first attempts (omega arith))) in
    (
      ground (
        arith,
        call-live last (record opened { count = 1 + made first.key between })
            (calls between (call first attempts).1) (rw same counted) soon,
      ),
      λ h. ground (arith, counted),
    )
