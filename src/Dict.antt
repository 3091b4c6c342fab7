-- ===== src/Dict.antt =====
-- A Go map with string keys, as an association list; no key stands twice in it.
use ky_server_base.Prelude.{
  ℕ, zero, suc, ◌-◌, ◌≤◌, String, ◌≡◌, refl, Bool, true, false, Option, none, some, List, [], ◌∷◌,
  arith, ◌==◌, eq_iff, if◌then◌else◌, length,
}

abbrev pub Dict {ℓ} : Type ℓ → Type ℓ
Dict V = List (String × V)

module _ {ℓ} {V : Type ℓ} where
  unfoldable pub lookup : String → Dict V → Option V
  lookup key [] = none
  lookup key ((name, value) ∷ rest) = if name == key then some value else lookup key rest

  -- m[k] = v
  unfoldable pub insert : String → V → Dict V → Dict V
  insert key new [] = (key, new) ∷ []
  insert key new ((name, value) ∷ rest) =
      if name == key then (key, new) ∷ rest else (name, value) ∷ insert key new rest

  -- `for k, v := range m { if test(v) { delete(m, k) } }`
  unfoldable pub delete_if : (V → Bool) → Dict V → Dict V
  delete_if p [] = []
  delete_if p ((j, v) ∷ m) = let rest = delete_if p m in if p v then rest else (j, v) ∷ rest

  -- The entry at a position goes; no position is out of range of a nonempty map.
  unfoldable pub remove_at : ℕ → Dict V → Dict V
  remove_at i [] = []
  remove_at zero (e ∷ m) = m
  remove_at (suc i) (e ∷ []) = []
  remove_at (suc i) (e ∷ e' ∷ m) = e ∷ remove_at i (e' ∷ m)

  abbrev pub is_known : Option V → Bool
  is_known none = false
  is_known (some v) = true

  abbrev pub IsDistinct : Dict V → Type ℓ
  IsDistinct [] = Unit
  IsDistinct ((j, v) ∷ m) = (lookup j m ≡ none) × IsDistinct m

  pub lookup-insert :
      (key asked : String) (new : V) (entries : Dict V)
      → lookup asked (insert key new entries)
        ≡ (if key == asked then some new else lookup asked entries)
  unfolding lookup insert
  lookup-insert key asked new [] = refl
  lookup-insert key asked new ((name, value) ∷ rest) = ground (
    arith,
    lookup-insert key asked new rest,
    eq_iff name key,
    eq_iff name asked,
    eq_iff key asked,
  )

  pub length-insert :
      (k : String) (v : V) (m : Dict V)
      → length (insert k v m) ≡ (if is_known (lookup k m) then length m else suc (length m))
  unfolding lookup insert
  length-insert k v [] = refl
  length-insert k v ((j, w) ∷ m) = ground (arith, length-insert k v m)

  pub length-delete_if-le : (p : V → Bool) (m : Dict V) → length (delete_if p m) ≤ length m
  unfolding delete_if
  length-delete_if-le p [] = omega arith
  length-delete_if-le p ((j, v) ∷ m) = ground (arith, length-delete_if-le p m)

  pub length-remove_at : (i : ℕ) (m : Dict V) → length (remove_at i m) ≡ length m - 1
  unfolding remove_at
  length-remove_at i [] = omega arith
  length-remove_at zero (e ∷ m) = omega arith
  length-remove_at (suc i) (e ∷ []) = omega arith
  length-remove_at (suc i) (e ∷ e' ∷ m) = omega (arith, length-remove_at i (e' ∷ m))

  abbrev pub unless : (V → Bool) → Option V → Option V
  unless p none = none
  unless p (some v) = if p v then none else some v

  pub lookup-delete_if :
      (p : V → Bool) (k : String) (m : Dict V)
      → IsDistinct m
      → lookup k (delete_if p m) ≡ unless p (lookup k m)
  unfolding lookup delete_if
  lookup-delete_if p k [] d = refl
  lookup-delete_if p k ((j, v) ∷ m) d = ground (arith, lookup-delete_if p k m d.1, eq_iff j k)

  pub insert-IsDistinct :
      (k : String) (v : V) (m : Dict V) → IsDistinct m → IsDistinct (insert k v m)
  unfolding lookup insert
  insert-IsDistinct k v [] d = (refl, tt)
  insert-IsDistinct k v ((j, w) ∷ m) d =
      ground (arith, insert-IsDistinct k v m d.1, lookup-insert k j v m, eq_iff j k, eq_iff k j)

  pub delete_if-IsDistinct : (p : V → Bool) (m : Dict V) → IsDistinct m → IsDistinct (delete_if p m)
  unfolding delete_if
  delete_if-IsDistinct p [] d = tt
  delete_if-IsDistinct p ((j, v) ∷ m) d =
      ground (arith, delete_if-IsDistinct p m d.1, lookup-delete_if p j m d.1)

  pub lookup-remove_at :
      (i : ℕ) (k : String) (m : Dict V) → lookup k m ≡ none → lookup k (remove_at i m) ≡ none
  unfolding lookup remove_at
  lookup-remove_at i k [] h = refl
  lookup-remove_at zero k ((j, v) ∷ m) h = ground arith
  lookup-remove_at (suc i) k (e ∷ []) h = refl
  lookup-remove_at (suc i) k ((j, v) ∷ e' ∷ m) h = ground (arith, lookup-remove_at i k (e' ∷ m))

  pub remove_at-IsDistinct : (i : ℕ) (m : Dict V) → IsDistinct m → IsDistinct (remove_at i m)
  unfolding remove_at
  remove_at-IsDistinct i [] d = tt
  remove_at-IsDistinct zero (e ∷ m) d = d.1
  remove_at-IsDistinct (suc i) (e ∷ []) d = tt
  remove_at-IsDistinct (suc i) ((j, v) ∷ e' ∷ m) d =
      (lookup-remove_at i j (e' ∷ m) d.0, remove_at-IsDistinct i (e' ∷ m) d.1)
