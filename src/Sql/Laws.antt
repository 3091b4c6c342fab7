-- ===== src/Sql/Laws.antt =====
-- Laws of the table statements.
use ky_server_base.Prelude.{
  ◌≤◌, ◌<◌, ◌≡◌, refl, inl, inr, Bool, true, false, ◌&&◌, none, some, List, [], ◌∷◌, map, arith,
  Bool-cases,
}
use ky_server_base.Sql.{find_where, select_where, count_where, update_where, delete_where}

module _ {ℓ} {A : Type ℓ} where
  pub count-delete_self : (p : A → Bool) (xs : List A) → count_where p (delete_where p xs) ≡ 0
  unfolding count_where delete_where
  count-delete_self p [] = refl
  count-delete_self p (x ∷ xs) = ground (arith, count-delete_self p xs)

  pub count-delete-le :
      (p q : A → Bool) (xs : List A) → count_where p (delete_where q xs) ≤ count_where p xs
  unfolding count_where delete_where
  count-delete-le p q [] = omega arith
  count-delete-le p q (x ∷ xs) = ground (arith, count-delete-le p q xs)

  -- Rows that the WHERE test spares are kept.
  pub count-delete_other :
      (p q : A → Bool) (xs : List A)
      → ((x : A) → p x ≡ true → q x ≡ false)
      → count_where p (delete_where q xs) ≡ count_where p xs
  unfolding count_where delete_where
  count-delete_other p q [] h = refl
  count-delete_other p q (x ∷ xs) h = ground (arith, count-delete_other p q xs h, h x)

  -- Deleting a larger set leaves none of a smaller one.
  pub count-delete-zero :
      (p q : A → Bool) (xs : List A)
      → ((x : A) → p x ≡ true → q x ≡ true)
      → count_where p (delete_where q xs) ≡ 0
  unfolding count_where delete_where
  count-delete-zero p q [] h = refl
  count-delete-zero p q (x ∷ xs) h = ground (arith, count-delete-zero p q xs h, h x)

  pub count_mono :
      (p q : A → Bool) (xs : List A)
      → ((x : A) → p x ≡ true → q x ≡ true)
      → count_where p xs ≤ count_where q xs
  unfolding count_where
  count_mono p q [] h = omega arith
  count_mono p q (x ∷ xs) h = ground (arith, count_mono p q xs h, h x)

  pub find-some : (p : A → Bool) (xs : List A) {x : A} → find_where p xs ≡ some x → p x ≡ true
  unfolding find_where
  find-some p [] h = ground arith
  find-some p (y ∷ ys) {x} h = ground (arith, find-some p ys {x = x})

  pub find-none : (p : A → Bool) (xs : List A) → count_where p xs ≡ 0 → find_where p xs ≡ none
  unfolding find_where count_where
  find-none p [] h = refl
  find-none p (x ∷ xs) h = ground (arith, find-none p xs)

  pub count-pos :
      (p : A → Bool) (xs : List A) {x : A} → find_where p xs ≡ some x → 0 < count_where p xs
  unfolding find_where count_where
  count-pos p [] h = ground arith
  count-pos p (y ∷ ys) {x} h = ground (arith, count-pos p ys {x = x})

  -- The row that is found, if it passes another test too.
  pub count-pos_of_find :
      (p q : A → Bool) (xs : List A) {x : A}
      → find_where p xs ≡ some x
      → q x ≡ true
      → 0 < count_where q xs
  unfolding find_where count_where
  count-pos_of_find p q [] h k = ground arith
  count-pos_of_find p q (y ∷ ys) {x} h k = ground (arith, count-pos_of_find p q ys {x = x})

  -- An update that changes neither test changes no count.
  pub count-update_same :
      (p q : A → Bool) (f : A → A) (xs : List A)
      → ((x : A) → q x ≡ true → p (f x) ≡ p x)
      → count_where p (update_where q f xs) ≡ count_where p xs
  unfolding count_where update_where
  count-update_same p q f [] h = refl
  count-update_same p q f (x ∷ xs) h = ground (arith, count-update_same p q f xs h, h x)

  -- Where at most one row passes `q`, a narrower test that this row fails has no row.
  pub count-zero_of_find :
      (p q : A → Bool) (xs : List A) {u : A}
      → ((x : A) → p x ≡ true → q x ≡ true)
      → count_where q xs ≤ 1
      → find_where q xs ≡ some u
      → p u ≡ false
      → count_where p xs ≡ 0
  unfolding count_where find_where
  count-zero_of_find p q [] h one found fails = refl
  count-zero_of_find p q (x ∷ xs) {u = u} h one found fails =
      ground (arith, count-zero_of_find p q xs {u = u} h, count_mono p q xs h, h x)

  pub update-none :
      (p : A → Bool) (f : A → A) (xs : List A) → count_where p xs ≡ 0 → update_where p f xs ≡ xs
  unfolding count_where update_where
  update-none p f [] e = refl
  update-none p f (x ∷ xs) e = elim (Bool-cases (p x)) [
    | inl hit ↦ absurd (ground (arith, rw hit at e))
    | inr miss ↦ rw (miss, update-none p f xs (rw miss at e)) refl
  ]

  -- An update that keeps a view of each row keeps the view of the table.
  pub map-update {κ} :
      {B : Type κ} (view : A → B) (q : A → Bool) (f : A → A) (xs : List A)
      → ((x : A) → view (f x) ≡ view x)
      → map view (update_where q f xs) ≡ map view xs
  unfolding update_where
  map-update view q f [] h = refl
  map-update view q f (x ∷ xs) h = elim (Bool-cases (q x)) [
    | inl e ↦ rw (e, h x, map-update view q f xs h)
    | inr e ↦ rw (e, map-update view q f xs h)
  ]

  -- An update that makes no row pass that did not pass before.
  pub count-update-le :
      (p q : A → Bool) (f : A → A) (xs : List A)
      → ((x : A) → q x ≡ true → p (f x) ≡ true → p x ≡ true)
      → count_where p (update_where q f xs) ≤ count_where p xs
  unfolding count_where update_where
  count-update-le p q f [] h = omega arith
  count-update-le p q f (x ∷ xs) h = ground (arith, count-update-le p q f xs h, h x)

  pub count-select :
      (p q : A → Bool) (xs : List A)
      → count_where p (select_where q xs) ≡ count_where (λ x. p x && q x) xs
  unfolding count_where select_where
  count-select p q [] = refl
  count-select p q (x ∷ xs) = ground (arith, count-select p q xs)

  -- A write of rows that fail `p` before and after is not seen through `p`.
  pub select-update_hidden :
      (p q : A → Bool) (f : A → A) (xs : List A)
      → count_where (λ x. q x && p x) xs ≡ 0
      → ((x : A) → q x ≡ true → p x ≡ false → p (f x) ≡ false)
      → select_where p (update_where q f xs) ≡ select_where p xs
  unfolding count_where update_where select_where
  select-update_hidden p q f [] h after = refl
  select-update_hidden p q f (x ∷ xs) h after =
      ground (arith, select-update_hidden p q f xs, after x)

  pub select-delete_hidden :
      (p q : A → Bool) (xs : List A)
      → count_where (λ x. q x && p x) xs ≡ 0
      → select_where p (delete_where q xs) ≡ select_where p xs
  unfolding count_where delete_where select_where
  select-delete_hidden p q [] h = refl
  select-delete_hidden p q (x ∷ xs) h = ground (arith, select-delete_hidden p q xs)
