-- ===== src/Cli/Boot.antt =====
-- The administrator that runServer makes for an empty database (cmd/server/main.go).
use ky_server_base.Prelude.{String, ◌≡◌, ◌≢◌, ◌⊎◌, true, false, some, [], ◌==◌, if◌then◌else◌}
use ky_server_base.Store.Models.{Db}
use ky_server_base.Store.Tx.{count_row}
use ky_server_base.Cli.{
  AdminCall, BootReply, seeded, already_seeded, boot_hash_failed, boot_create_failed,
}
use ky_server_base.Cli.Admin.{after_creation}

-- The password that the first administrator gets.
abbrev pub first_password : String → String → String
first_password admin_password drawn = if admin_password == "" then drawn else admin_password

abbrev pub IsBoot : AdminCall → String → Db → BootReply × Db → Type 0
IsBoot c pass db (already_seeded, after) =
    (db.users ≢ []) × (c.read_io count_row ≡ false) × (after ≡ db)
IsBoot c pass db (seeded, after) =
    ((db.users ≡ []) ⊎ (c.read_io count_row ≡ true))
    × ((hash : String) × (c.hash pass ≡ some hash)
        × (after ≡ after_creation c.now c.drawn_id "admin" hash (c.meanwhile db)))
IsBoot c pass db (boot_create_failed, after) =
    ((db.users ≡ []) ⊎ (c.read_io count_row ≡ true)) × (after ≡ c.meanwhile db)
IsBoot c pass db (boot_hash_failed, after) =
    ((db.users ≡ []) ⊎ (c.read_io count_row ≡ true)) × (after ≡ db)
