-- ===== src/Examples.antt =====
-- Concrete inputs, and below them the theorems applied to these.
pub mod Ingest
pub mod Requests
pub mod Queues
pub mod Services
pub mod Site
pub mod SiteLaws
pub mod Browser
pub mod Process
pub mod Boot
use blue_waving.Base.{
  ℕ, zero, suc, ◌/◌, Bool, true, false, ◌||◌, Option, none, some, List, [], ◌∷◌, ◌==◌,
  if◌then◌else◌, Text, codes, ok,
}
use blue_waving.ColumnTypes.{lower}
use blue_waving.Schema.Tables.{Server, TableDef, ColumnDef}
use blue_waving.Row.{Row}
use blue_waving.Datetime.{Datetime}
use blue_waving.Dedup.{source_bluewave, HashInput, canonical_extra_data}
use blue_waving.Transform.{CsvFile, Zone, expected_header, row_of}
use blue_waving.Runs.{RunRow, Db, Session, new_run}
use blue_waving.Config.{Config, MultiFernet}
use blue_waving.Orchestrator.{Queue, init, leaving, working}
use blue_waving.RunJob.{World, source_name}

abbrev pub noon : Datetime
noon = record { year = 2026; month = 3; day = 9; hour = 12; minute = 5; second = 0 }

abbrev pub utc_zone : Zone
utc_zone = record { has_no_dst = λ t. false; to_utc = λ t. t; from_utc = λ t. t }

abbrev pub zones : Text → Option Zone
zones name = some utc_zone

-- Any function serves as the hash here.
abbrev pub no_hash : Text → Text
no_hash t = t

abbrev pub entry : List Text
entry =
    codes "03/09/2026 12:05:00"
    ∷ codes "Main Door"
    ∷ codes "Access Granted"
    ∷ codes "Ana Ruiz"
    ∷ codes "0042"
    ∷ codes " 977 "
    ∷ codes ""
    ∷ codes ""
    ∷ []

-- A file that is read to its end.
abbrev pub whole_file : List (List Text) → CsvFile
whole_file records = record { refused = none; records = records; broken = none }

abbrev pub csv : CsvFile
csv = whole_file (expected_header ∷ entry ∷ [])

abbrev pub event : HashInput
event = record {
  source = source_bluewave;
  timestamp_utc = noon;
  operation = codes "Access Granted";
  instance_name = codes "Main Door";
  user_id = some (codes "0042");
  user_name = some (codes "Ana Ruiz");
  extra_data_str = canonical_extra_data (some (codes "977")) none;
}

abbrev pub rows : List Row
rows = row_of no_hash event ∷ []

abbrev pub settings : Config
settings = record {
  site_label = codes "Plant";
  blueweb_url = codes "https://blueweb";
  blueweb_user = codes "op";
  blueweb_password = codes "s3cret";
  operator_timezone = codes "UTC";
  mysql_host = codes "db";
  mysql_port = 3306;
  mysql_database = codes "audit";
  mysql_user = codes "writer";
  mysql_password = codes "pw";
  schedule_local = codes "01:00";
  catch_up_cap_days = 7;
}

-- A cipher that puts its key in front.
abbrev pub keyed : ℕ → MultiFernet
keyed key = record {
  encrypt = λ t. key ∷ t;
  decrypt = λ (t : Text). elim t [ [] ↦ none | (c ∷ s) ↦ (if c == key then some s else none) ];
}

abbrev pub empty_db : Db
empty_db = record { runs = []; next_run = 1; audit = [] }

abbrev pub world : (ℕ → Bool) → CsvFile → World
world up file = record {
  connects = true;
  starts = true;
  browse = λ cfg d. ok (some file);
  sha256_hex = no_hash;
  zone_of = zones;
  takes_batch = up;
  takes_update = λ st. true;
  describe = λ e. codes "refused";
  start_time = 1000;
  end_time = 2000;
}

-- The new key 7 in front of the old key 5.
abbrev pub rotating : MultiFernet
rotating = record {
  encrypt = λ t. 7 ∷ t;
  decrypt = λ (t : Text). elim t [
    | [] ↦ none
    | (c ∷ s) ↦ (if (c == 7) || (c == 5) then some s else none)
  ];
}

abbrev pub entries : ℕ → List (List Text)
entries zero = []
entries (suc n) = entry ∷ entries n

abbrev pub copies : ℕ → List Row
copies zero = []
copies (suc n) = row_of no_hash event ∷ copies n

abbrev pub empty_session : Session
empty_session = record { saved = empty_db; work = empty_db }

abbrev pub old_run : RunRow
old_run = record (new_run 1 900 source_name 739684 false) { status = "ok"; finished_at = some 950 }

abbrev pub second_run : RunRow
second_run = new_run 2 1000 source_name 739684 false

-- A queue whose worker runs one date while another waits.
abbrev pub busy : Queue
busy = record {
  queue = (739682, true) ∷ [];
  in_flight = some 739683;
  worker = working false;
  shut_down = false;
}

abbrev pub dying : Queue
dying = record init { worker = leaving }

-- A server that shows types in small letters, and refuses nothing.
abbrev pub mysql_server : Server
mysql_server = record {
  connects = true;
  refuses_audit = none;
  refuses_runs = none;
  refuses_commit = none;
  answers = true;
  shows_column = λ (t : TableDef) (d : ColumnDef). record {
    name = d.name;
    column_type = lower d.column_type;
    is_nullable = if d.not_null then codes "NO" else codes "YES";
    character_set = some t.charset;
    collation = some t.collate;
    extra = if d.auto_increment then some (codes "auto_increment") else none;
  };
  shows_table =
      λ (t : TableDef). record { collation = some t.collate; character_set = some t.charset };
}
