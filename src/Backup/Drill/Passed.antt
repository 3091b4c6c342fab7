-- ===== src/Backup/Drill/Passed.antt =====
-- What a drill shows of the restored files when all its checks pass (internal/backup/drill.go).
use ky_server_base.Prelude.Checked.{Checked, good, bad}
use Prim.Native.String.{◌++◌ as ◌^^◌}
use ky_server_base.Prelude.{
  ℕ, ◌<◌, String, ◌≡◌, refl, ap, inl, inr, true, false, Option, none, some, List, [], ◌∷◌, arith,
  ◌==◌, eq_iff, Bool-cases, length,
}
use ky_server_base.Prelude.{All}
use ky_server_base.Backup.Drill.{
  not_opened, no_answer, answers, answered, sqlite_integrity_check, Integrity, answers, checks,
  checks_of, file_checks, integrity_of, sqlite_checks, encryption_key_path, settings_path,
  database_path, demands, is_present, missing_files, Host, Recipe, Check, Demands, FileInfo,
}
use ky_server_base.Backup.Drill.Demanded.{
  IsDemanding, IsMember, Lists, All-contains, All-append, demands-IsDemanding,
}

-- A regular file that is not empty lies at the name's place in the drill's directory.
abbrev pub IsPresent : Host → String → String → Type 0
IsPresent h dir name =
    (info : FileInfo) × (h.lstat (h.join dir name) ≡ some info)
    × (info.is_regular ≡ true)
    × (0 < info.size)

present :
    (o : Option FileInfo)
    → is_present o ≡ true
    → (info : FileInfo) × (o ≡ some info) × (info.is_regular ≡ true) × (0 < info.size)
present none e = absurd (cc e)
present (some info) e = (info, refl, ground arith, ground arith)

abbrev pub AllPassed : List Check → Type 0
AllPassed checks = All (λ (c : Check). c.passed ≡ true) checks

missing_files-none :
    (h : Host) (dir : String) (names : List String)
    → missing_files h dir names ≡ []
    → All (IsPresent h dir) names
unfolding missing_files
missing_files-none h dir [] e = tt
missing_files-none h dir (name ∷ names) e =
    elim (Bool-cases (is_present (h.lstat (h.join dir name)))) [
      | inl there ↦ (present _ there, missing_files-none h dir names (rw there at e))
      | inr missing ↦ absurd (cc (rw missing at e))
    ]

missing_files-fail :
    (h : Host) (dir : String) (names : List String)
    → All (λ (c : Check). c.passed ≡ false) (missing_files h dir names)
unfolding missing_files
missing_files-fail h dir [] = tt
missing_files-fail h dir (name ∷ names) =
    elim (Bool-cases (is_present (h.lstat (h.join dir name)))) [
      | inl there ↦ rw there (missing_files-fail h dir names)
      | inr missing ↦ rw missing (refl, missing_files-fail h dir names)
    ]

file_checks-none :
    (h : Host) (count : ℕ) (missing : List Check)
    → All (λ (c : Check). c.passed ≡ false) missing
    → AllPassed (file_checks h count missing)
    → missing ≡ []
file_checks-none h count [] fail pass = refl
file_checks-none h count (c ∷ cs) fail pass = absurd (cc (fail.0, pass.0))

-- SQLite finds the database at the name's place sound.
abbrev pub IsSound : Host → String → String → Type 0
IsSound h dir name =
    (absolute : String) × (h.abs (h.join dir name) ≡ some absolute)
    × (h.integrity_check absolute ≡ answers "ok")

answered-ok : (title : String) (a : Integrity) → (answered title a).passed ≡ true → a ≡ answers "ok"
answered-ok title not_opened e = absurd (cc e)
answered-ok title no_answer e = absurd (cc e)
answered-ok title (answers result) e = elim (Bool-cases (result == "ok")) [
  | inl same ↦ ap answers ((eq_iff result "ok").0 same)
  | inr other ↦ absurd (cc (rw other at e))
]

integrity_of-ok :
    (h : Host) (title : String) (o : Option String)
    → (integrity_of h title o).passed ≡ true
    → (absolute : String) × (o ≡ some absolute) × (h.integrity_check absolute ≡ answers "ok")
integrity_of-ok h title none e = absurd (cc e)
integrity_of-ok h title (some absolute) e =
    (absolute, refl, answered-ok title (h.integrity_check absolute) e)

sqlite_checks-IsSound :
    (h : Host) (dir : String) (names : List String)
    → AllPassed (sqlite_checks h dir names)
    → All (IsSound h dir) names
unfolding sqlite_checks sqlite_integrity_check
sqlite_checks-IsSound h dir [] all = tt
sqlite_checks-IsSound h dir (name ∷ names) (here, there) =
    elim (Bool-cases (is_present (h.lstat (h.join dir name)))) [
      | inl present ↦ (
        integrity_of-ok h ("SQLite Integrity: " ^^ name) (h.abs (h.join dir name))
            (rw present at here),
        sqlite_checks-IsSound h dir names there,
      )
      | inr missing ↦ absurd (cc (rw missing at here))
    ]

-- A file that the capsule brings and that lies restored in the drill's directory.
abbrev pub IsRestored : Host → String → List String → String → Type 0
IsRestored h dir files name = IsMember h files name × IsPresent h dir name

pub record HasPassed (h : Host) (dir : String) (files : List String) : Type 0 where
  pub database : IsRestored h dir files database_path
  pub settings : IsRestored h dir files settings_path
  pub key : IsRestored h dir files encryption_key_path
  pub every : All (IsRestored h dir files) files
  pub sound : IsSound h dir database_path

All-both {ℓ κ μ} :
    {A : Type ℓ} (P : A → Type κ) (Q : A → Type μ) (xs : List A)
    → All P xs
    → All Q xs
    → All (λ x. P x × Q x) xs
All-both P Q [] ps qs = tt
All-both P Q (x ∷ xs) (p, ps) (q, qs) = ((p, q), All-both P Q xs ps qs)

All-listed {ℓ} :
    (Holds : String → Type ℓ) (list names : List String)
    → All Holds list
    → All (Lists list) names
    → All Holds names
All-listed Holds list [] all listed = tt
All-listed Holds list (name ∷ names) all (here, there) =
    (All-contains Holds list name here all, All-listed Holds list names all there)

checks_of-HasPassed :
    (h : Host) (dir : String) (files : List String) (v : Checked String Demands)
    → ((d : Demands) → v ≡ good d → IsDemanding h files d)
    → AllPassed (checks_of h dir v)
    → HasPassed h dir files
checks_of-HasPassed h dir files (bad message) demanding all = absurd (cc all.0)
checks_of-HasPassed h dir files (good d) demanding all =
    let kept = demanding d refl in
    let pass = λ (c : Check). c.passed ≡ true in
    let missing = missing_files h dir d.required in
    let (found, later) = All-append pass (file_checks h (length d.required) missing) _ all in
    let (sound, _) = All-append pass (sqlite_checks h dir d.sqlite_paths) _ later in
    let there = missing_files-none h dir d.required (
      file_checks-none h (length d.required) missing (missing_files-fail h dir d.required) found) in
    let restored = All-both (IsMember h files) (IsPresent h dir) d.required kept.members there in
    let shipped =
      All-listed (IsRestored h dir files) d.required
        (database_path ∷ settings_path ∷ encryption_key_path ∷ []) restored kept.shipped in
    record {
      database = shipped.0;
      settings = shipped.1.0;
      key = shipped.1.1.0;
      every = All-listed (IsRestored h dir files) d.required files restored kept.covered;
      sound =
          All-contains (IsSound h dir) d.sqlite_paths database_path kept.database
            (sqlite_checks-IsSound h dir d.sqlite_paths sound);
    }

-- Where every check of a drill passed, whatever the capsule's recipe says, the database, the
-- settings and the key of the instance are files of the capsule; these and every other file of the
-- capsule have a clean path below the drill's directory, at which lies a regular file that is not
-- empty; and SQLite opened the database there and found it sound.
pub checks-HasPassed :
    (h : Host) (dir : String) (recipe : Recipe) (files : List String)
    → AllPassed (checks h dir recipe files)
    → HasPassed h dir files
unfolding checks
checks-HasPassed h dir recipe files all =
    checks_of-HasPassed h dir files (demands h recipe files) (demands-IsDemanding h recipe files)
      all
