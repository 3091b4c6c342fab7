-- ===== src/Migrations/Names/Listed.antt =====
-- Which names EnsureUsernameIndex reports (internal/store/migrations/migrations.go).
use ky_server_base.Prelude.{
  ℕ, zero, suc, ◌+◌, ◌<◌, String, ◌≡◌, refl, ap, ◌≢◌, Bool, ◌&&◌, Option, none, some, List, [], ◌∷◌,
  ◌++◌, arith, ◌==◌, length, length-append,
}
use ky_server_base.Dict.{Dict, lookup, lookup-insert}
use ky_server_base.Sql.{select_where, count_where, order_by, insert_ordered}
use ky_server_base.Store.Models.{User, Backend}
use ky_server_base.Migrations.Names.{
  is_shared, comes_before, names_of, shared_names, append_at, place, group_names,
}

-- How often a name stands in a list, and in a list of lists.
abbrev pub times : String → List String → ℕ
times name = count_where (λ x. x == name)

unfoldable pub times_all : String → List (List String) → ℕ
times_all name [] = 0
times_all name (names ∷ rest) = times name names + times_all name rest

times-append :
    (name : String) (xs ys : List String) → times name (xs ++ ys) ≡ times name xs + times name ys
unfolding count_where
times-append name [] ys = omega arith
times-append name (x ∷ xs) ys = ground (arith, times-append name xs ys)

times_all-append :
    (name : String) (xs ys : List (List String))
    → times_all name (xs ++ ys) ≡ times_all name xs + times_all name ys
unfolding times_all
times_all-append name [] ys = omega arith
times_all-append name (x ∷ xs) ys = omega (arith, times_all-append name xs ys)

times_all-append_at :
    (name x : String) (i : ℕ) (clashes : List (List String))
    → i < length clashes
    → times_all name (append_at i x clashes) ≡ times name (x ∷ []) + times_all name clashes
unfolding times_all append_at
times_all-append_at name x i [] h = absurd (omega arith)
times_all-append_at name x zero (c ∷ cs) h = omega (arith, times-append name c (x ∷ []))
times_all-append_at name x (suc i) (c ∷ cs) h =
    omega (arith, times_all-append_at name x i cs (omega arith))

length-append_at :
    (x : String) (i : ℕ) (clashes : List (List String))
    → length (append_at i x clashes) ≡ length clashes
unfolding append_at
length-append_at x i [] = refl
length-append_at x zero (c ∷ cs) = refl
length-append_at x (suc i) (c ∷ cs) = ap suc (length-append_at x i cs)

-- The indexes of the map are positions of the list.
abbrev IsIndexed : Dict ℕ → ℕ → Type 0
IsIndexed groups n = (key : String) (i : ℕ) → lookup key groups ≡ some i → i < n

place-times :
    (key name x : String) (groups : Dict ℕ) (clashes : List (List String)) (o : Option ℕ)
    → IsIndexed groups (length clashes)
    → lookup key groups ≡ o
    → times_all name (place o key x groups clashes).1 ≡ times name (x ∷ []) + times_all name clashes
unfolding times_all
place-times key name x groups clashes (some i) h e =
    times_all-append_at name x i clashes (h key i e)
place-times key name x groups clashes none h e =
    omega (arith, times_all-append name clashes ((x ∷ []) ∷ []))

place-IsIndexed :
    (key x : String) (groups : Dict ℕ) (clashes : List (List String)) (o : Option ℕ)
    → IsIndexed groups (length clashes)
    → lookup key groups ≡ o
    → IsIndexed (place o key x groups clashes).0 (length (place o key x groups clashes).1)
place-IsIndexed key x groups clashes (some i) h e =
    λ k j found. rw (length-append_at x i clashes) (h k j found)
place-IsIndexed key x groups clashes none h e = λ k j found. ground (
  arith,
  lookup-insert key k (length clashes) groups,
  h k j,
  length-append clashes ((x ∷ []) ∷ []),
)

-- The loop loses no name and adds none.
group_names-times :
    (to_lower : String → String) (name : String) (names : List String) (groups : Dict ℕ)
    (clashes : List (List String))
    → IsIndexed groups (length clashes)
    → times_all name (group_names to_lower names groups clashes)
      ≡ times name names + times_all name clashes
unfolding group_names count_where
group_names-times to_lower name [] groups clashes h = omega arith
group_names-times to_lower name (x ∷ xs) groups clashes h =
    let key = to_lower x in
    let found = lookup key groups in
    let placed = place found key x groups clashes in
    let later =
      group_names-times to_lower name xs placed.0 placed.1
        (place-IsIndexed key x groups clashes found h refl) in
    omega (
      arith,
      later,
      place-times key name x groups clashes found h refl,
      times-append name (x ∷ []) xs,
    )

insert_ordered-times :
    (before : User → User → Bool) (name : String) (u : User) (us : List User)
    → times name (names_of (insert_ordered before u us)) ≡ times name (names_of (u ∷ us))
unfolding names_of insert_ordered count_where
insert_ordered-times before name u [] = refl
insert_ordered-times before name u (v ∷ vs) = ground (arith, insert_ordered-times before name u vs)

order_by-times :
    (before : User → User → Bool) (name : String) (us : List User)
    → times name (names_of (order_by before us)) ≡ times name (names_of us)
unfolding names_of order_by count_where
order_by-times before name [] = refl
order_by-times before name (u ∷ us) =
    ground (
      arith,
      insert_ordered-times before name u (order_by before us),
      order_by-times before name us,
    )

select-times :
    (p : User → Bool) (name : String) (us : List User)
    → times name (names_of (select_where p us)) ≡ count_where (λ u. p u && u.username == name) us
unfolding names_of select_where count_where
select-times p name [] = refl
select-times p name (u ∷ us) = ground (arith, select-times p name us)

no_index : (key : String) (i : ℕ) → lookup {V = ℕ} key [] ≢ some i
unfolding lookup
no_index key i e = cc e

-- The report names each account that shares its name with another, and no other.
pub reported-times :
    (b : Backend) (to_lower : String → String) (name : String) (rows : List User)
    → times_all name (group_names to_lower (shared_names b rows) [] [])
      ≡ count_where (λ u. is_shared b rows u && u.username == name) rows
unfolding shared_names times_all
reported-times b to_lower name rows = omega (
  arith,
  group_names-times to_lower name (shared_names b rows) [] []
      (λ key i e. absurd (no_index key i e)),
  order_by-times (comes_before b) name (select_where (is_shared b rows) rows),
  select-times (is_shared b rows) name rows,
)
