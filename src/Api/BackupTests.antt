-- ===== src/Api/BackupTests.antt =====
-- The theorems on the backup handlers at concrete requests (internal/api/backup_handlers.go).
use ky_server_base.Prelude.{String, ◌≡◌, refl, ap, true, Option, none, some, List, [], ◌∷◌}
use ky_server_base.Prelude.Int.{ℤ, pos}
use ky_server_base.Store.Models.{Setting}
use ky_server_base.Store.Samples.{quiet, two}
use ky_server_base.Auth.Session.{AuthCalls}
use ky_server_base.Backup.Samples.{machine, config}
use ky_server_base.Backup.Payload.{collect}
use ky_server_base.Api.Backup.{
  World, Recovery, BackupCall, key_loaded, key_not_paired, key_stored, another_key_stored, KeyStore,
  KeyLoad, claimed, cleared, pin_parsed, interval_set, sealed,
}
use ky_server_base.Api.Backup.Pairing.{PairRequest, pair_remote, set_schedule}
use ky_server_base.Api.Backup.Pairing.Recorded.{IsRecorded, KeepsOther, pair_remote-IsRecorded}
use ky_server_base.Api.Backup.Pairing.Scheduled.{
  IsScheduled, ReadsSettings, set_schedule-IsScheduled,
}
use ky_server_base.Api.Backup.Capsules.{export_capsule, app_version}
use ky_server_base.Api.Backup.Capsules.Exported.{IsExport, export_capsule-IsExport}

abbrev loaded : Option String → KeyLoad String
loaded none = key_not_paired
loaded (some key) = key_loaded key

-- A disk that holds a key or none.
abbrev store_key : String → Option String → KeyStore × Option String
store_key key none = (key_stored, some key)
store_key key (some other) = (another_key_stored, some other)

abbrev interval_of : List Setting → Option ℤ
interval_of [] = some (pos 86400)
interval_of (s ∷ rows) = some (pos 3600)

abbrev client : Recovery String String (Option String)
client = record {
  audit_safe = λ s. s;
  filename_safe = λ s. s;
  validate_url = λ url private. none;
  claim_pairing = λ url code app. claimed "rk1" "token";
  store_recovery_key =
      λ key w. let (o, disk) = store_key key w.disk in (o, record w { disk = disk });
  load_recovery_key = λ w. loaded w.disk;
  can_seal_tokens = true;
  store_pairing = λ url token db. (none, db);
  clear_pairing = λ db. (cleared, db);
  parse_pin = λ key threshold shares. pin_parsed key;
  set_interval = λ seconds db. (
    interval_set,
    record db { server_settings = record { key = "i"; value = "3600"; updated_at = 1 } ∷ [] },
  );
  interval_sec = λ default db. interval_of db.server_settings;
  seal = λ payload key. sealed "capsule" (record { capsule_id = "c1"; recovery_key_id = key });
  size = λ raw. 7;
  run = λ w. ((record { capsule_id = "c1"; local_path = ""; local_error = "" }, none), w);
  outcome = λ result e. (("backup.run", "ok"), []);
  key_id = λ key. key;
  threshold = λ key. pos 2;
  total_shares = λ key. pos 3;
  print_int = λ n. "3600";
  print_nat = λ n. "7";
  print_bool = λ b. "false";
  quote = λ s. s;
  comes_before = λ a b. true;
}

abbrev steady : AuthCalls
steady = record {
  first_io = quiet;
  first_now = 50;
  user_io = quiet;
  drop_io = quiet;
  recheck_io = quiet;
  recheck_now = 50;
  before_user = λ db. db;
  before_recheck = λ db. db;
}

abbrev call : String → BackupCall
call method = record {
  auth = steady;
  sha256_hex = λ s. s;
  host_cookies = true;
  request = record {
    method = method;
    path = "/api/backup";
    headers = [];
    cookies = ("__Host-ky_session", "t1") ∷ [];
  };
  audit_io = quiet;
  now = 60;
  ip = "10.0.0.9";
}

abbrev unpaired_world : World (Option String)
unpaired_world = record { db = two; disk = none }

store_key-kept :
    (key : String) (disk : Option String)
    → (store_key key disk).0 ≡ another_key_stored
    → (store_key key disk).1 ≡ disk
store_key-kept key none e = absurd (cc e)
store_key-kept key (some other) e = refl

client-KeepsOther : KeepsOther client
client-KeepsOther key w e = store_key-kept key w.disk e

abbrev request : PairRequest
request = record { recovery_url = "https://recovery.example.org"; pairing_code = "123456" }

pair_remote-IsRecorded_example :
    IsRecorded client
      (call "POST")
      "https://recovery.example.org"
      (client.claim_pairing "https://recovery.example.org" "123456" config.server.app_name)
      unpaired_world
      (pair_remote client config (call "POST") (some request) unpaired_world)
pair_remote-IsRecorded_example =
    pair_remote-IsRecorded client config (call "POST") request unpaired_world client-KeepsOther refl

client-ReadsSettings : ReadsSettings client
client-ReadsSettings default db db' same = ap interval_of same

set_schedule-IsScheduled_example :
    IsScheduled client
      (call "PUT")
      0
      (pos 3600)
      (set_schedule client config (call "PUT") (some (pos 3600)) two).1
unfolding set_schedule
set_schedule-IsScheduled_example =
    set_schedule-IsScheduled client client-ReadsSettings config (call "PUT") (some (pos 3600)) two
      (pos 3600) refl

export_capsule-IsExport_example :
    IsExport client
      (call "POST")
      (key_loaded "rk1")
      (collect machine config app_version)
      two
      (export_capsule client machine config (call "POST") (record { db = two; disk = some "rk1" }))
export_capsule-IsExport_example =
    export_capsule-IsExport client (call "POST") machine config
      (record { db = two; disk = some "rk1" })
