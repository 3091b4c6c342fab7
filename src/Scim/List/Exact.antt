-- ===== src/Scim/List/Exact.antt =====
-- What a filtered list holds (internal/scim/handler.go).
use Prim.Native.String.{◌++◌ as ◌^^◌}
use ky_server_base.Prelude.{
  All, All-map, ℕ, zero, suc, ◌≤◌, String, ◌≡◌, refl, sym, ap, ◌∙◌, inl, inr, Bool, true, false,
  ◌&&◌, some, List, [], ◌∷◌, arith, ◌==◌, ltb, if◌then◌else◌, Bool-cases, length, take,
}
use ky_server_base.Prelude.Int.{ℤ, pos}
use ky_server_base.Sql.{select_where, count_where, order_by, insert_ordered, page}
use ky_server_base.Store.Models.{User, Db, Backend, Result, ok, err}
use ky_server_base.Store.Tx.{Io}
use ky_server_base.Store.Lists.{Search, is_listed, matches, newest_first, list_scim_users}
use ky_server_base.Scim.List.{
  Filter, Listed, listed, refused, max_candidates, attribute, window, page_of, by_search, filtered,
}

module _ {ℓ} {A : Type ℓ} where
  count-insert :
      (before : A → A → Bool) (p : A → Bool) (x : A) (xs : List A)
      → count_where p (insert_ordered before x xs)
        ≡ (if p x then suc (count_where p xs) else count_where p xs)
  unfolding count_where insert_ordered
  count-insert before p x [] = refl
  count-insert before p x (y ∷ ys) = ground (arith, count-insert before p x ys)

  count-order :
      (before : A → A → Bool) (p : A → Bool) (xs : List A)
      → count_where p (order_by before xs) ≡ count_where p xs
  unfolding count_where order_by
  count-order before p [] = refl
  count-order before p (x ∷ xs) =
      ground (arith, count-insert before p x (order_by before xs), count-order before p xs)

  count-select_both :
      (p q : A → Bool) (xs : List A)
      → count_where p (select_where q xs) ≡ count_where (λ x. p x && q x) xs
  unfolding count_where select_where
  count-select_both p q [] = refl
  count-select_both p q (x ∷ xs) = ground (arith, count-select_both p q xs)

  count-same :
      (p q : A → Bool) (xs : List A) → All (λ x. p x ≡ q x) xs → count_where p xs ≡ count_where q xs
  unfolding count_where
  count-same p q [] h = refl
  count-same p q (x ∷ xs) (here, there) = ground (arith, here, count-same p q xs there)

  length-insert_ordered :
      (before : A → A → Bool) (x : A) (xs : List A)
      → length (insert_ordered before x xs) ≡ suc (length xs)
  unfolding insert_ordered
  length-insert_ordered before x [] = refl
  length-insert_ordered before x (y ∷ ys) = ground (arith, length-insert_ordered before x ys)

  length-order_select :
      (before : A → A → Bool) (q : A → Bool) (xs : List A)
      → length (order_by before (select_where q xs)) ≡ count_where q xs
  unfolding order_by select_where count_where
  length-order_select before q [] = refl
  length-order_select before q (x ∷ xs) = ground (
    arith,
    length-insert_ordered before x (order_by before (select_where q xs)),
    length-order_select before q xs,
  )

  take-all : (n : ℕ) (xs : List A) → length xs ≤ n → take n xs ≡ xs
  take-all zero [] h = refl
  take-all zero (x ∷ xs) h = absurd (omega (arith, h))
  take-all (suc n) [] h = refl
  take-all (suc n) (x ∷ xs) h = ap (λ ys. x ∷ ys) (take-all n xs (omega arith))

-- The accounts that SCIM lists for a search, in order.
abbrev candidates_of : Backend → Filter → String → Db → List User
candidates_of b f value db =
    order_by (newest_first b) (select_where (is_listed b f.search value true) db.users)

list_scim_users-ok :
    (b : Backend) (lib : Search) (io : Io) (value : String) (db : Db) (users : List User)
    (total : ℕ)
    → (list_scim_users b lib io (pos 0) (pos max_candidates) value db).0 ≡ ok (users, total)
    → (users
        ≡ take max_candidates
            (order_by (newest_first b) (select_where (is_listed b lib value true) db.users)))
      × (total ≡ count_where (is_listed b lib value true) db.users)
unfolding list_scim_users page
list_scim_users-ok b lib io value db users total e = ground arith

-- An account that passes a filter.
abbrev pub is_hit : Filter → String → String → User → Bool
is_hit f name value u = f.equal_fold (attribute f.search name u) value && u.scim_managed

-- The search finds a text that equals the value in any letter case: LIKE matches it, lowered.
abbrev pub IsFound : Backend → Filter → String → String → Type 0
IsFound b f value text =
    f.equal_fold text value ≡ true
    → b.like (b.lower text) ("%" ^^ (f.search.to_lower (f.search.trim_space value) ^^ "%")) ≡ true

-- The search finds each of a row's three texts.
abbrev pub AreFound : Backend → Filter → String → User → Type 0
AreFound b f value u =
    IsFound b f value u.username × IsFound b f value u.display_name × IsFound b f value u.email

found-matches :
    (b : Backend) (f : Filter) (name value : String) (u : User)
    → AreFound b f value u
    → is_hit f name value u ≡ true
    → matches b f.search value u ≡ true
unfolding matches attribute
found-matches b f name value u (username, display_name, email) hit =
    ground (arith, username, display_name, email)

hits :
    (b : Backend) (f : Filter) (name value : String) (db : Db) (p : User → Bool)
    → All (AreFound b f value) db.users
    → count_where p (
        select_where
          (λ u. f.equal_fold (attribute f.search name u) value)
          (candidates_of b f value db))
      ≡ count_where (λ u. p u && is_hit f name value u) db.users
hits b f name value db p found =
    count-select_both p passes (candidates_of b f value db)
    ∙ count-order (newest_first b) (λ u. p u && passes u) (select_where in_list db.users)
    ∙ count-select_both (λ u. p u && passes u) in_list db.users
    ∙ count-same (λ u. (p u && passes u) && in_list u) (λ u. p u && is_hit f name value u) db.users
        (All-map (AreFound b f value)
          (λ (u : User). ((p u && passes u) && in_list u) ≡ (p u && is_hit f name value u)) db.users
          same found)
  where
    passes : User → Bool
    passes u = f.equal_fold (attribute f.search name u) value

    in_list : User → Bool
    in_list = is_listed b f.search value true

    same :
        (u : User)
        → AreFound b f value u
        → ((p u && passes u) && in_list u) ≡ (p u && is_hit f name value u)
    same u h = unfold is_listed in ground (arith, found-matches b f name value u h)

-- The parts of an answer; the defaults are those of no accounts.
abbrev shown_of : Listed → List User
shown_of (listed users n) = users
shown_of (refused e) = []

abbrev total_of : Listed → ℕ
total_of (listed users n) = n
total_of (refused e) = 0

-- What the answer to a filter holds: a window of some accounts, each managed account that passes
-- the filter as often as the table has it, and no other.
pub record Answered (f : Filter) (name value : String) (start_index count : ℤ) (db : Db)
    (shown : List User) (total : ℕ) : Type 0 where
  pub all : List User
  pub is_window : shown ≡ window start_index count all
  pub is_total : total ≡ length all
  pub holds_hits :
      (p : User → Bool)
      → count_where p all ≡ count_where (λ u. p u && is_hit f name value u) db.users

answer_of :
    (b : Backend) (f : Filter) (start_index count : ℤ) (name value : String) (db : Db)
    (shown : List User) (total : ℕ) (x : Result (List User × ℕ))
    → All (AreFound b f value) db.users
    → ((users : List User) (n : ℕ)
        → x ≡ ok (users, n)
        → (users ≡ take max_candidates (candidates_of b f value db))
          × (n ≡ count_where (is_listed b f.search value true) db.users))
    → by_search x (page_of f name value start_index count) ≡ listed shown total
    → Answered f name value start_index count db shown total
answer_of b f start_index count name value db shown total (err x) found read e = absurd (cc e)
answer_of b f start_index count name value db shown total (ok (users, n)) found read e =
    let (same, counted) = read users n refl in
    elim (Bool-cases (ltb max_candidates n)) [
      | inl many ↦ absurd (cc (rw many at e))
      | inr few ↦
          let small : n ≤ max_candidates = ground (arith, few) in
          let whole : users ≡ candidates_of b f value db =
            same
            ∙ take-all max_candidates (candidates_of b f value db) (
                omega (
                  arith,
                  length-order_select (newest_first b) (is_listed b f.search value true) db.users,
                  counted,
                  small,
                )) in
          let answer : page_of f name value start_index count (candidates_of b f value db)
              ≡ listed shown total =
            rw whole at (rw few at e) in
          unfold page_of in
          record {
            all =
                select_where (λ u. f.equal_fold (attribute f.search name u) value)
                  (candidates_of b f value db);
            is_window = sym (ap shown_of answer);
            is_total = sym (ap total_of answer);
            holds_hits = λ p. hits b f name value db p found;
          }
    ]

-- The answer to a filter that does not name userName holds exactly the managed accounts that pass
-- it, shown through the window that the request asks for, if the database's LIKE on a lowered text
-- of the table finds the value wherever the text equals it in any letter case.
pub filtered-Answered :
    (b : Backend) (f : Filter) (io : Io) (start_index count : ℤ) (name value : String) (db : Db)
    (shown : List User) (total : ℕ)
    → All (AreFound b f value) db.users
    → f.equal_fold name "userName" ≡ false
    → filtered b f io start_index count db (some (name, value)) ≡ listed shown total
    → Answered f name value start_index count db shown total
unfolding filtered
filtered-Answered b f io start_index count name value db shown total found other e =
    elim (Bool-cases (f.search.trim_space value == "")) [
      | inl blank ↦ absurd (cc (rw blank at e))
      | inr given ↦
          answer_of b f start_index count name value db shown total
            (list_scim_users b f.search io (pos 0) (pos max_candidates) value db).0 found
            (λ users n h. list_scim_users-ok b f.search io value db users n h)
            (rw (given, other) at e)
    ]
