-- ===== src/Api/Limiter.antt =====
-- The attempt limiter of internal/api/server.go: allowAttempt, makeRoom, attemptsExhausted and
-- bumpWindow. A time is a number, and the zero time is 0.
pub mod Bounds
pub mod Throttle
use ky_server_base.Prelude.{
  ℕ, ◌+◌, String, Bool, false, not, ◌&&◌, Option, none, some, List, ltb, leb, if◌then◌else◌, length,
}
use ky_server_base.Dict.{lookup, insert, delete_if, remove_at, is_known}

pub record AttemptWindow : Type 0 where
  pub count : ℕ
  pub reset : ℕ

abbrev pub Attempts : Type 0
Attempts = List (String × AttemptWindow)

unfoldable pub attempts_cap : ℕ
attempts_cap = 10000

-- s.attempts[key]: the zero window for a key that is not there
abbrev pub window_of : Option AttemptWindow → AttemptWindow
window_of none = record { count = 0; reset = 0 }
window_of (some w) = w

unfoldable pub bump_window : AttemptWindow → ℕ → ℕ → AttemptWindow
bump_window entry now window =
    if ltb entry.reset now
    then record { count = 1; reset = now + window }
    else record { count = entry.count + 1; reset = entry.reset }

-- `victim` is the entry that Go's random map order yields first.
unfoldable pub make_room : ℕ → ℕ → Attempts → Attempts
unfolding attempts_cap
make_room victim now attempts =
    let live = delete_if (λ w. ltb w.reset now) attempts in
    if leb attempts_cap (length live) then remove_at victim live else live

unfoldable pub allow_attempt : ℕ → ℕ → String → ℕ → ℕ → Attempts → Bool × Attempts
unfolding bump_window
allow_attempt victim now key limit window attempts =
    let room =
      if not (is_known (lookup key attempts)) && leb attempts_cap (length attempts)
      then make_room victim now attempts
      else attempts in
    let entry = bump_window (window_of (lookup key room)) now window in
    (leb entry.count limit, insert key entry room)

unfoldable pub attempts_exhausted : ℕ → String → ℕ → Attempts → Bool
attempts_exhausted now key limit attempts = elim (lookup key attempts) [
  | none ↦ false
  | some w ↦ ltb now w.reset && leb limit w.count
]
