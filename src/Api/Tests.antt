-- ===== src/Api/Tests.antt =====
-- The limiter's theorems at concrete calls (internal/api/server.go).
use ky_server_base.Prelude.{ℕ, ◌+◌, ◌<◌, String, ◌≡◌, refl, List, [], ◌∷◌, arith, leb}
use ky_server_base.Dict.{lookup}
use ky_server_base.Api.Limiter.{Attempts, attempts_cap, allow_attempt, attempts_exhausted}
use ky_server_base.Api.Limiter.Bounds.{IsBounded, allow_attempt-IsBounded}
use ky_server_base.Api.Limiter.Throttle.{Call, call, calls, made, allow_attempt-throttles}

abbrev one_window : Attempts
one_window = ("login:10.0.0.1", record { count = 3; reset = 100 }) ∷ []

one_window-IsBounded : IsBounded one_window
unfolding attempts_cap lookup
one_window-IsBounded = record { capped = omega arith; distinct = (refl, tt) }

allow_attempt-IsBounded_example : IsBounded (allow_attempt 0 50 "login:10.0.0.2" 10 60 one_window).1
allow_attempt-IsBounded_example =
    allow_attempt-IsBounded 0 50 "login:10.0.0.2" 10 60 one_window one_window-IsBounded

abbrev attempt : ℕ → String → Call
attempt now key = record { victim = 0; now = now; key = key; limit = 3; window = 60 }

-- Two more calls, one of them for another key, and then a last one.
abbrev between : List Call
between = attempt 51 "b" ∷ attempt 52 "a" ∷ []

allow_attempt-throttles_example :
    ((call (attempt 53 "a") (calls between (call (attempt 50 "a") one_window).1)).0
      ≡ leb (made "a" between + 2) 3)
    × (53 < 50 + 60
        → attempts_exhausted 53 "a" 3 (calls between (call (attempt 50 "a") one_window).1)
          ≡ leb 3 (made "a" between + 1))
unfolding lookup attempts_cap
allow_attempt-throttles_example =
    allow_attempt-throttles (attempt 50 "a") (attempt 53 "a") between one_window refl (omega arith)
      (omega arith) (omega arith, (omega arith, tt)) refl (omega arith)
