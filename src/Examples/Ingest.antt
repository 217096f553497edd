-- ===== src/Examples/Ingest.antt =====
-- The theorems on the CSV, the rows, the settings and one run, at concrete inputs.
use blue_waving.Config.Saving.{
  execute_all-save_script, open_conn, save_script, execute_all, SqliteConn,
}
use blue_waving.Base.{
  ◌≡◌, refl, ◌↔◌, false, none, some, List, [], ◌∷◌, arith, ◌==◌, take, Text, codes, strip, ok,
}
use blue_waving.Datetime.{
  is_datetime, strptime, strftime_utc, read_field, expect, read_day, read_year, skip_spaces, at_end,
  constructed,
}
use blue_waving.Datetime.Laws.{csv_timestamp, strptime-csv_timestamp}
use blue_waving.Dedup.{source_bluewave, or_empty, canonical_extra_data, kept}
use blue_waving.Dedup.Json.{canonical_extra_data_iff}
use blue_waving.Dedup.Payload.{CleanParts, SameParts, payload_injective}
use blue_waving.Transform.{Zone, expected_header, transform}
use blue_waving.Transform.Laws.{RowsMatch, transform-eq-ok, transform-SameTimes, SameTimes}
use blue_waving.Runs.{is_unique}
use blue_waving.Sink.{insert_batch, chunks, default_batch_size}
use blue_waving.Sink.Counts.{first_batches}
use blue_waving.Config.{load, save}
use blue_waving.Config.Store.{load-save}
use blue_waving.RunJob.{run_job}
use blue_waving.RunJob.Batches.{run_job_commits_partial_insert}
use blue_waving.Examples.{
  whole_file, noon, zones, no_hash, csv, event, rows, settings, keyed, empty_db, world, entries,
  copies,
}

accepts : transform no_hash zones source_bluewave (codes "UTC") csv ≡ ok rows
unfolding transform strptime read_field expect read_day read_year skip_spaces at_end constructed
    strip
accepts = refl

transform-eq-ok_example :
    (tz : Zone) × (zones (codes "UTC") ≡ some tz)
    × (csv.refused ≡ none)
    × (csv.broken ≡ none)
    × (records : List (List Text)) × (csv.records ≡ expected_header ∷ records)
    × RowsMatch no_hash tz source_bluewave records rows
transform-eq-ok_example =
    transform-eq-ok no_hash zones source_bluewave (codes "UTC") csv rows accepts

transform-SameTimes_example :
    (tz : Zone) × (zones (codes "UTC") ≡ some tz)
    × (records : List (List Text)) × (csv.records ≡ expected_header ∷ records)
    × SameTimes tz records rows
transform-SameTimes_example =
    transform-SameTimes no_hash zones source_bluewave (codes "UTC") csv rows accepts

strptime-csv_timestamp_example : strptime (csv_timestamp noon) ≡ some noon
strptime-csv_timestamp_example = strptime-csv_timestamp noon (unfold is_datetime in refl)

canonical_extra_data_iff_example :
    (canonical_extra_data (some (codes "977")) none
      ≡ canonical_extra_data (some (codes "977")) (some []))
    ↔ ((kept (some (codes "977")) ≡ kept (some (codes "977"))) × (kept none ≡ kept (some [])))
canonical_extra_data_iff_example =
    canonical_extra_data_iff (some (codes "977")) none (some (codes "977")) (some [])

event-CleanParts : CleanParts event
unfolding strftime_utc or_empty
event-CleanParts = record {
  source = refl;
  timestamp = refl;
  operation = refl;
  instance_name = refl;
  user_id = refl;
  user_name = refl;
}

payload_injective_example : SameParts event event
payload_injective_example = payload_injective event event event-CleanParts event-CleanParts refl

load-save_example : load (keyed 7) (save (keyed 7) settings none) ≡ ok (some settings)
load-save_example = load-save (keyed 7) (keyed 7) settings none (λ t. refl)

-- Stopped after the row is deleted.
execute_all-save_script_example :
    (c : SqliteConn) × (execute_all
        (take 2 (save_script (keyed 7) settings))
        (open_conn (save (keyed 7) settings none))
      ≡ ok c)
    × (c.committed ≡ save (keyed 7) settings none)
execute_all-save_script_example =
    execute_all-save_script (keyed 7) settings (save (keyed 7) settings none) 2

accepts_entries :
    transform no_hash zones source_bluewave
      (codes "UTC")
      (whole_file (expected_header ∷ entries 501))
    ≡ ok (copies 501)
unfolding transform strptime read_field expect read_day read_year skip_spaces at_end constructed
    strip
accepts_entries = refl

run_job_commits_partial_insert_example :
    let (res, db') =
      run_job
        (world (λ i. i == 0) (whole_file (expected_header ∷ entries 501)))
        (some settings)
        739684
        false
        empty_db in
    (res ≡ ok "ingest_failed")
    × (db'.audit ≡ insert_batch 1 [] (first_batches 1 (chunks default_batch_size (copies 501))))
run_job_commits_partial_insert_example =
    run_job_commits_partial_insert
      (world (λ i. i == 0) (whole_file (expected_header ∷ entries 501))) settings 739684 1 false
      empty_db (whole_file (expected_header ∷ entries 501)) (copies 501) (λ st. refl) refl refl tt
      (unfold is_unique in refl) refl accepts_entries (λ e. cc) (λ j h. ground (arith, h)) refl
      (unfold chunks in omega arith)
