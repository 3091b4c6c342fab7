-- ===== src/Api/Limiter/Bounds.antt =====
-- The limiter's map: its size, and what a new client gets.
use ky_server_base.Prelude.{
  ℕ, ◌≤◌, ◌<◌, String, ◌≡◌, true, not, ◌&&◌, none, arith, ltb, leb, if◌then◌else◌, length,
}
use ky_server_base.Dict.{
  lookup-delete_if, lookup-remove_at, lookup, insert, delete_if, is_known, IsDistinct,
  lookup-remove_at, length-insert, length-delete_if-le, length-remove_at, lookup-delete_if,
  insert-IsDistinct, delete_if-IsDistinct, remove_at-IsDistinct,
}
use ky_server_base.Api.Limiter.{
  AttemptWindow, Attempts, attempts_cap, bump_window, make_room, allow_attempt,
}

-- makeRoom leaves room for one more key.
pub make_room-length :
    (victim now : ℕ) (attempts : Attempts)
    → length attempts ≤ attempts_cap
    → length (make_room victim now attempts) < attempts_cap
unfolding make_room attempts_cap
make_room-length victim now attempts h = ground (
  arith,
  length-delete_if-le (λ (w : AttemptWindow). ltb w.reset now) attempts,
  length-remove_at victim (delete_if (λ (w : AttemptWindow). ltb w.reset now) attempts),
)

-- No sequence of calls grows the map beyond its cap, and no key is ever twice in it.
pub record IsBounded (attempts : Attempts) : Type 0 where
  pub capped : length attempts ≤ attempts_cap
  pub distinct : IsDistinct attempts

make_room-IsDistinct :
    (victim now : ℕ) (attempts : Attempts)
    → IsDistinct attempts
    → IsDistinct (make_room victim now attempts)
unfolding make_room
make_room-IsDistinct victim now attempts d =
    let live = delete_if-IsDistinct (λ w. ltb w.reset now) attempts d in
    ground (
      arith,
      live,
      remove_at-IsDistinct victim (delete_if (λ (w : AttemptWindow). ltb w.reset now) attempts)
          live,
    )

-- The map that a call of allowAttempt writes its window into.
abbrev pub room_for : ℕ → ℕ → String → Attempts → Attempts
room_for victim now key attempts =
    if not (is_known (lookup key attempts)) && leb attempts_cap (length attempts)
    then make_room victim now attempts
    else attempts

room_for-length :
    (victim now : ℕ) (key : String) (attempts : Attempts)
    → length attempts ≤ attempts_cap
    → (length (room_for victim now key attempts) ≤ attempts_cap)
      × ((lookup key (room_for victim now key attempts) ≡ none)
          → length (room_for victim now key attempts) < attempts_cap)
room_for-length victim now key attempts h = ground (arith, make_room-length victim now attempts)

room_for-IsDistinct :
    (victim now : ℕ) (key : String) (attempts : Attempts)
    → IsDistinct attempts
    → IsDistinct (room_for victim now key attempts)
room_for-IsDistinct victim now key attempts d =
    ground (arith, make_room-IsDistinct victim now attempts d)

length-insert-le :
    (key : String) (w : AttemptWindow) (m : Attempts)
    → length m ≤ attempts_cap
    → (lookup key m ≡ none → length m < attempts_cap)
    → length (insert key w m) ≤ attempts_cap
length-insert-le key w m h fresh = ground (arith, length-insert key w m)

-- A call leaves a map that is within its cap and has no key twice within its cap and no key twice
-- in it, whatever the key and whichever entry is evicted.
pub allow_attempt-IsBounded :
    (victim now : ℕ) (key : String) (limit window : ℕ) (attempts : Attempts)
    → IsBounded attempts
    → IsBounded (allow_attempt victim now key limit window attempts).1
unfolding allow_attempt
allow_attempt-IsBounded victim now key limit window attempts h =
    let (small, fresh) = room_for-length victim now key attempts h.capped in
    let room : Attempts = room_for victim now key attempts in
    record {
      capped = length-insert-le key _ room small fresh;
      distinct =
          insert-IsDistinct key _ room (room_for-IsDistinct victim now key attempts h.distinct);
    }

lookup-make_room :
    (victim now : ℕ) (key : String) (attempts : Attempts)
    → IsDistinct attempts
    → lookup key attempts ≡ none
    → lookup key (make_room victim now attempts) ≡ none
unfolding make_room
lookup-make_room victim now key attempts d h =
    let expired = λ (w : AttemptWindow). ltb w.reset now in
    let gone = lookup-delete_if expired key attempts d in
    ground (arith, gone, lookup-remove_at victim key (delete_if expired attempts))

-- A key that is not in the map, which has no key twice, is let through at every limit but 0: a full
-- map locks nobody out.
pub allow_attempt-new :
    (victim now : ℕ) (key : String) (limit window : ℕ) (attempts : Attempts)
    → IsDistinct attempts
    → lookup key attempts ≡ none
    → 0 < limit
    → (allow_attempt victim now key limit window attempts).0 ≡ true
unfolding allow_attempt bump_window
allow_attempt-new victim now key limit window attempts d h pos =
    ground (arith, lookup-make_room victim now key attempts d)
