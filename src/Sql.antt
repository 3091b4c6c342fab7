-- ===== src/Sql.antt =====
-- The SQL statements of internal/store/sqlstore.go on a table, a list of rows in any order:
-- SELECT, SELECT COUNT(1), UPDATE and DELETE under a WHERE test, and a uniqueness constraint.
pub mod Laws
use ky_server_base.Prelude.Int.{ℤ, pos, negsuc}
use ky_server_base.Prelude.{
  zero, take, drop, ℕ, suc, String, Bool, true, false, not, ◌&&◌, ◌||◌, ◌==◌, Option, none, some,
  List, [], ◌∷◌, if◌then◌else◌,
}

module _ {ℓ} {A : Type ℓ} where
  -- The first row that passes.
  unfoldable pub find_where : (A → Bool) → List A → Option A
  find_where p [] = none
  find_where p (x ∷ xs) = if p x then some x else find_where p xs

  unfoldable pub select_where : (A → Bool) → List A → List A
  select_where p [] = []
  select_where p (x ∷ xs) = let rest = select_where p xs in if p x then x ∷ rest else rest

  unfoldable pub count_where : (A → Bool) → List A → ℕ
  count_where p [] = 0
  count_where p (x ∷ xs) = let rest = count_where p xs in if p x then suc rest else rest

  unfoldable pub update_where : (A → Bool) → (A → A) → List A → List A
  update_where p f [] = []
  update_where p f (x ∷ xs) = (if p x then f x else x) ∷ update_where p f xs

  unfoldable pub delete_where : (A → Bool) → List A → List A
  delete_where p [] = []
  delete_where p (x ∷ xs) = let rest = delete_where p xs in if p x then rest else x ∷ rest

  unfoldable pub any : (A → Bool) → List A → Bool
  any p [] = false
  any p (x ∷ xs) = p x || any p xs

  -- A UNIQUE column or expression: no two rows agree on the key.
  unfoldable pub unique_by : (A → String) → List A → Bool
  unfolding any
  unique_by key [] = true
  unique_by key (x ∷ xs) = not (any (λ y. key y == key x) xs) && unique_by key xs

  -- ORDER BY: a row goes behind those that come before it.
  unfoldable pub insert_ordered : (A → A → Bool) → A → List A → List A
  insert_ordered before x [] = x ∷ []
  insert_ordered before x (y ∷ ys) =
      if before x y then x ∷ y ∷ ys else y ∷ insert_ordered before x ys

  unfoldable pub order_by : (A → A → Bool) → List A → List A
  unfolding insert_ordered
  order_by before [] = []
  order_by before (x ∷ xs) = insert_ordered before x (order_by before xs)

-- LIMIT and OFFSET as the list calls set them: a limit that is not positive means 50, and a
-- negative offset means 0.
abbrev pub limit_of : ℤ → ℕ
limit_of (pos zero) = 50
limit_of (pos (suc n)) = suc n
limit_of (negsuc n) = 50

abbrev pub offset_of : ℤ → ℕ
offset_of (pos n) = n
offset_of (negsuc n) = 0

unfoldable pub page {ℓ} : {A : Type ℓ} → ℤ → ℤ → List A → List A
page offset limit rows = take (limit_of limit) (drop (offset_of offset) rows)
