-- ===== src/Auth/Pow/Spent.antt =====
-- Sequences of calls of PoWSpent.spend (internal/auth/pow.go).
use ky_server_base.Prelude.{
  ℕ, ◌≤◌, String, ◌≡◌, true, false, Option, none, some, List, [], ◌∷◌, arith, eq_iff, eq_refl,
}
use ky_server_base.Prelude.Int.{ℤ, pos, negsuc, ltb_ℤ}
use ky_server_base.Dict.{
  lookup, IsDistinct, lookup-insert, lookup-delete_if, insert-IsDistinct, delete_if-IsDistinct,
}
use ky_server_base.Auth.Pow.{PowSpent, is_live, prune, spend}

abbrev pub IsSpentSet : PowSpent → Type 0
IsSpentSet p = IsDistinct p.salts

prune-IsSpentSet : (now : ℕ) (p : PowSpent) → IsSpentSet p → IsSpentSet (prune now p)
unfolding prune
prune-IsSpentSet now p d = ground (arith, delete_if-IsDistinct (λ e. ltb_ℤ e (pos now)) p.salts d)

pub spend-IsSpentSet :
    (now : ℕ) (salt : String) (expires : ℤ) (p : PowSpent)
    → IsSpentSet p
    → IsSpentSet (spend now salt expires p).1
unfolding spend
spend-IsSpentSet now salt expires p d =
    ground (arith, insert-IsDistinct salt expires (prune now p).salts (prune-IsSpentSet now p d))

-- Pruning keeps what is live.
prune-live :
    (now : ℕ) (salt : String) (p : PowSpent)
    → IsSpentSet p
    → is_live now (lookup salt p.salts) ≡ true
    → lookup salt (prune now p).salts ≡ lookup salt p.salts
unfolding prune
prune-live now salt p d live =
    ground (arith, lookup-delete_if (λ e. ltb_ℤ e (pos now)) salt p.salts d)

-- A salt that is live at a later time is live now.
live_before :
    (now later : ℕ) (o : Option ℤ) → now ≤ later → is_live later o ≡ true → is_live now o ≡ true
live_before now later none h live = live
live_before now later (some (pos e)) h live = ground arith
live_before now later (some (negsuc e)) h live = ground arith

-- A call that another salt makes, or that is refused, keeps a salt's entry while it is live.
spend-keeps :
    (now later : ℕ) (salt other : String) (expires : ℤ) (p : PowSpent)
    → IsSpentSet p
    → now ≤ later
    → is_live later (lookup salt p.salts) ≡ true
    → lookup salt (spend now other expires p).1.salts ≡ lookup salt p.salts
unfolding spend
spend-keeps now later salt other expires p d h live = ground (
  arith,
  live_before now later (lookup salt p.salts) h live,
  prune-live now salt p d,
  lookup-insert other salt expires (prune now p).salts,
  eq_iff other salt,
)

abbrev pub spends : List (ℕ × String × ℤ) → PowSpent → PowSpent
spends [] p = p
spends ((now, salt, expires) ∷ rest) p = spends rest (spend now salt expires p).1

-- No call comes after `later`.
abbrev pub Until : ℕ → List (ℕ × String × ℤ) → Type 0
Until later [] = Unit {0}
Until later ((now, salt, expires) ∷ rest) = (now ≤ later) × Until later rest

spends-keeps :
    (later : ℕ) (salt : String) (calls : List (ℕ × String × ℤ)) (p : PowSpent)
    → IsSpentSet p
    → Until later calls
    → is_live later (lookup salt p.salts) ≡ true
    → is_live later (lookup salt (spends calls p).salts) ≡ true
spends-keeps later salt [] p d early live = live
spends-keeps later salt ((now, other, expires) ∷ rest) p d early live =
    spends-keeps later salt rest (spend now other expires p).1
      (spend-IsSpentSet now other expires p d) early.1
      (rw (spend-keeps now later salt other expires p d early.0 live) live)

pub spend_records :
    (now later : ℕ) (salt : String) (expires : ℤ) (p : PowSpent)
    → (spend now salt expires p).0 ≡ true
    → ltb_ℤ expires (pos later) ≡ false
    → is_live later (lookup salt (spend now salt expires p).1.salts) ≡ true
unfolding spend
spend_records now later salt expires p first live =
    ground (arith, lookup-insert salt salt expires (prune now p).salts, eq_refl salt)

pub spend_refused :
    (later : ℕ) (salt : String) (expires : ℤ) (p : PowSpent)
    → is_live later (lookup salt p.salts) ≡ true
    → (spend later salt expires p).0 ≡ false
unfolding spend
spend_refused later salt expires p live = rw live

-- Once a salt is spent it is refused until the expiry that it was spent with has passed, whatever
-- is spent, and pruned, in between, if the set has each salt once.
pub spend_once :
    (now later : ℕ) (salt : String) (expires expires' : ℤ) (p : PowSpent)
    (between : List (ℕ × String × ℤ))
    → IsSpentSet p
    → (spend now salt expires p).0 ≡ true
    → Until later between
    → ltb_ℤ expires (pos later) ≡ false
    → (spend later salt expires' (spends between (spend now salt expires p).1)).0 ≡ false
spend_once now later salt expires expires' p between d first early live =
    spend_refused later salt expires' _ (
      spends-keeps later salt between _ (spend-IsSpentSet now salt expires p d) early
        (spend_records now later salt expires p first live))

-- A salt whose entry has expired is spent anew.
pub spend_expired :
    (later : ℕ) (salt : String) (expires expires' : ℤ) (p : PowSpent)
    → lookup salt p.salts ≡ some expires
    → ltb_ℤ expires (pos later) ≡ true
    → (spend later salt expires' p).0 ≡ true
unfolding spend
spend_expired later salt expires expires' p h late = ground arith

-- A salt without a live entry is spent, and has its entry then.
pub spend_fresh :
    (now : ℕ) (salt : String) (expires : ℤ) (p : PowSpent)
    → is_live now (lookup salt p.salts) ≡ false
    → ((spend now salt expires p).0 ≡ true)
      × (lookup salt (spend now salt expires p).1.salts ≡ some expires)
unfolding spend
spend_fresh now salt expires p unspent = (
  ground arith,
  ground (arith, lookup-insert salt salt expires (prune now p).salts, eq_refl salt),
)
