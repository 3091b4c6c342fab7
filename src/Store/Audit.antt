-- ===== src/Store/Audit.antt =====
-- The audit store and the settings store of internal/store/sqlstore.go.
use ky_server_base.Prelude.{
  ℕ, String, ◌≡◌, refl, Bool, false, ◌&&◌, Option, none, some, List, [], ◌∷◌, map, arith, ◌==◌,
  eq_iff, ltb, leb, if◌then◌else◌, length,
}
use ky_server_base.Prelude.Int.{ℤ}
use ky_server_base.Sql.{find_where, update_where, delete_where, any, order_by, page}
use ky_server_base.Store.Models.{AuditRecord, Setting, Db, ok, not_found}
use ky_server_base.Store.Tx.{
  Op, Io, write_row, read_row, count_row, write_audit, ◌>>=◌, ◌>>◌, pure, fail, gets, modify, stmt,
}

unfoldable pub log_audit : Io → ℕ → AuditRecord → Op (Unit {0})
log_audit io now r = do
  stmt io write_audit
  modify (λ db. record db {
    audit_records =
        record r { created_at = if ltb 0 r.created_at then r.created_at else now }
        ∷ db.audit_records;
  })

-- Newest first.
pub list_audit_records : Io → ℤ → ℤ → Op (List AuditRecord × ℕ)
list_audit_records io offset limit = do
  stmt io count_row
  count ← gets (λ db. length db.audit_records)
  stmt io read_row
  records ←
      gets
        (λ db. page offset limit (order_by (λ x y. leb y.created_at x.created_at) db.audit_records))
  pure (records, count)

abbrev pub has_key : String → Setting → Bool
has_key key s = s.key == key

value_of : Option Setting → Op String
value_of none = fail not_found
value_of (some s) = pure s.value

unfoldable pub get_setting : Io → String → Op String
unfolding value_of find_where
get_setting io key = do
  stmt io read_row
  found ← gets (λ db. find_where (has_key key) db.server_settings)
  value_of found

-- INSERT ... ON CONFLICT(key) DO UPDATE
unfoldable pub set_setting : Io → ℕ → String → String → Op (Unit {0})
unfolding any update_where
set_setting io now key value = do
  stmt io write_row
  modify (λ db. record db {
    server_settings =
        if any (has_key key) db.server_settings
        then update_where (has_key key) (λ s. record s { value = value; updated_at = now })
            db.server_settings
        else record { key = key; value = value; updated_at = now } ∷ db.server_settings;
  })

unfoldable pub delete_setting : Io → String → Op (Unit {0})
unfolding delete_where
delete_setting io key = do
  stmt io write_row
  modify (λ db. record db { server_settings = delete_where (has_key key) db.server_settings })

unfoldable pub get_all_settings : Io → Op (List (String × String))
get_all_settings io = do
  stmt io read_row
  gets (λ db. map (λ s. (s.key, s.value)) db.server_settings)

-- What `get_setting` finds, where no statement fails.
abbrev pub quiet : Io
quiet _ = false

setting : String → List Setting → Option String
unfolding find_where
setting key rows = elim (find_where (has_key key) rows) [ none ↦ none | some s ↦ some s.value ]

setting-update :
    (key j value : String) (now : ℕ) (rows : List Setting)
    → setting j
        (update_where (has_key key) (λ s. record s { value = value; updated_at = now }) rows)
      ≡ (if key == j && any (has_key key) rows then some value else setting j rows)
unfolding setting any update_where
setting-update key j value now [] = ground arith
setting-update key j value now (s ∷ rows) =
    ground
      (arith, setting-update key j value now rows, eq_iff s.key key, eq_iff s.key j, eq_iff key j)

setting-none :
    (key : String) (rows : List Setting) → any (has_key key) rows ≡ false → setting key rows ≡ none
unfolding setting any
setting-none key [] h = refl
setting-none key (s ∷ rows) h = ground (arith, setting-none key rows)

-- Where no statement fails, a setting that was set is read back, and no other setting changes.
pub get_setting-set_setting :
    (now : ℕ) (key j value : String) (db : Db)
    → (get_setting quiet j (set_setting quiet now key value db).1).0
      ≡ (if key == j then ok value else (get_setting quiet j db).0)
unfolding get_setting set_setting setting
get_setting-set_setting now key j value db = ground (
  arith,
  setting-update key j value now db.server_settings,
  eq_iff key j,
  setting-none key db.server_settings,
)
