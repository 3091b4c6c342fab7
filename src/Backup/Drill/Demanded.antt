-- ===== src/Backup/Drill/Demanded.antt =====
-- What the demands of an accepted recipe are (internal/backup/drill.go).
use ky_server_base.Prelude.Checked.{Checked, good, ◌>>◌, >>=-good, >>-good, good_inj}
use Prim.Native.String.{◌++◌ as ◌^^◌}
use ky_server_base.Prelude.{
  String, ◌≡◌, refl, subst, inl, inr, Bool, true, false, ◌&&◌, List, [], ◌∷◌, ◌++◌, arith, ◌==◌,
  eq_iff, Bool-cases,
}
use ky_server_base.Prelude.{All}
use ky_server_base.Sql.{any}
use ky_server_base.Backup.Drill.{
  is_on, recipe_strings, encryption_key_path, prefixed, object_of, settings_path, are_members,
  contains, covers, database_path, demand, demands, includes, is_drill_path, Host, Recipe, Demands,
}

demand-good {ℓ} :
    {B : Type ℓ} (test : Bool) (message : String) (k : Checked String B) {b : B}
    → (demand test message >> k) ≡ good b
    → (test ≡ true) × (k ≡ good b)
demand-good true message k h = (refl, h)
demand-good false message k h = absurd (cc h)

-- What holds of every item holds of one that the list contains.
pub All-contains {ℓ} :
    (Holds : String → Type ℓ) (list : List String) (name : String)
    → contains list name ≡ true
    → All Holds list
    → Holds name
unfolding contains any
All-contains Holds [] name h all = absurd (cc h)
All-contains Holds (x ∷ xs) name h (here, there) = elim (Bool-cases (x == name)) [
  | inl same ↦ subst Holds ((eq_iff x name).0 same) here
  | inr other ↦ All-contains Holds xs name (rw other at h) there
]

pub All-append {ℓ κ} :
    {A : Type ℓ} (Holds : A → Type κ) (xs ys : List A)
    → All Holds (xs ++ ys)
    → All Holds xs × All Holds ys
All-append Holds [] ys all = (tt, all)
All-append Holds (x ∷ xs) ys (here, there) =
    let (before, after) = All-append Holds xs ys there in ((here, before), after)

abbrev pub Lists : List String → String → Type 0
Lists list name = contains list name ≡ true

includes-All :
    (omission : String) (list names : List String)
    → includes omission list names ≡ good tt
    → All (Lists list) names
unfolding includes
includes-All omission list [] h = tt
includes-All omission list (name ∷ names) h =
    let (here, rest) = demand-good (contains list name) (omission ^^ name) _ h in
    (here, includes-All omission list names rest)

covers-All :
    (required files : List String) → covers required files ≡ good tt → All (Lists required) files
unfolding covers
covers-All required [] h = tt
covers-All required (file ∷ files) h =
    let (here, rest) = demand-good (contains required file) _ _ h in
    (here, covers-All required files rest)

abbrev pub IsMember : Host → List String → String → Type 0
IsMember h files name = (is_drill_path h name ≡ true) × (contains files name ≡ true)

are_members-All :
    (h : Host) (files names : List String)
    → are_members h files names ≡ good tt
    → All (IsMember h files) names
unfolding are_members
are_members-All h files [] e = tt
are_members-All h files (name ∷ names) e =
    let (here, rest) = demand-good (is_drill_path h name && contains files name) _ _ e in
    ((ground arith, ground arith), are_members-All h files names rest)

-- The demands of an accepted recipe.
pub record IsDemanding (h : Host) (files : List String) (d : Demands) : Type 0 where
  pub shipped : All (Lists d.required) (database_path ∷ settings_path ∷ encryption_key_path ∷ [])
  pub covered : All (Lists d.required) files
  pub members : All (IsMember h files) d.required
  pub database : contains d.sqlite_paths database_path ≡ true

pub demands-IsDemanding :
    (h : Host) (value : Recipe) (files : List String) (d : Demands)
    → demands h value files ≡ good d
    → IsDemanding h files d
unfolding demands
demands-IsDemanding h value files d e =
    let (recipe, _, e1) = >>=-good (object_of value) _ e in
    let strings = λ (name : String). recipe_strings h (recipe name) in
    let (required, _, e2) =
      >>=-good (prefixed "required_files: " (strings "required_files")) _ e1 in
    let (sqlite_paths, _, e3) =
      >>=-good (prefixed "sqlite_paths: " (strings "sqlite_paths")) _ e2 in
    let (env, _, e4) = >>=-good (prefixed "expected_env: " (strings "expected_env")) _ e3 in
    let (_, e5) = demand-good (is_on (recipe "check_sqlite_integrity")) _ _ e4 in
    let paths : List String = database_path ∷ settings_path ∷ encryption_key_path ∷ [] in
    let (shipped, e6) = >>-good (includes "required_files omits " required paths) _ e5 in
    let (database, e7) = demand-good (contains sqlite_paths database_path) _ _ e6 in
    let vars : List String = "KY_PORT" ∷ "KY_DB_DRIVER" ∷ [] in
    let (_, e8) = >>-good (includes "expected_env omits " env vars) _ e7 in
    let (covered, e9) = >>-good (covers required files) _ e8 in
    let (members, e10) = >>-good (are_members h files required) _ e9 in
    let (_, e11) = >>-good (are_members h files sqlite_paths) _ e10 in
    subst (λ (x : Demands). IsDemanding h files x) (good_inj _ refl e11)
      (record {
        shipped = includes-All "required_files omits " required paths shipped;
        covered = covers-All required files covered;
        members = are_members-All h files required members;
        database = database;
      })
