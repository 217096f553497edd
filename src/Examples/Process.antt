-- ===== src/Examples/Process.antt =====
-- The theorems on the queue, the worker and the database together, at concrete inputs.
use blue_waving.DryRun.Foretold.{dry_run_foretells, dry_world}
use blue_waving.DryRun.{dry_run, DryRunResult}
use blue_waving.System.Delivery.{accepted-Delivers, Delivers}
use blue_waving.System.Ingested.{catch_up_skips_ingested}
use blue_waving.RunJob.Preservation.{run_job-IsConsistent}
use blue_waving.System.Settled.{run_events_settled, all_settled}
use blue_waving.System.Invariant.{run_events-IsIntact, IsIntact}
use blue_waving.RunJob.Accounts.{run_job_ingests, run_job_again, settled_outcome, Serves, Brings}
use blue_waving.System.{run_events, handle_event, boot, System, Event}
use blue_waving.Runs.{set_outcome, is_unique, is_ingested, new_run}
use blue_waving.RunJob.Integrity.{IsConsistent}
use blue_waving.Datetime.{
  constructed, at_end, skip_spaces, read_year, read_day, expect, read_field, strptime,
}
use blue_waving.Orchestrator.{dates, try_enqueue, init}
use blue_waving.Sink.{insert_batch}
use blue_waving.RunJob.{source_name, run_job, World}
use blue_waving.Transform.{transform}
use blue_waving.Base.{
  ℕ, ◌+◌, ◌-◌, ◌≡◌, refl, true, false, none, some, List, [], ◌∷◌, ◌++◌, length, member, strip, ok,
}
use blue_waving.Examples.{world, settings, csv, rows, empty_db, old_run, busy}

clean : IsConsistent empty_db
clean = record {
  ids_below = tt;
  ids_distinct = tt;
  unique = unfold is_unique in refl;
  hashes = tt;
  tags = tt;
}

abbrev plain : World
plain = world (λ i. true) csv

plain-Serves : Serves plain
plain-Serves = record { reached = refl; inserts = refl; updates = λ st. refl }

plain-Brings : Brings plain settings 739684 rows
unfolding transform strptime read_field expect read_day read_year skip_spaces at_end constructed
    strip
plain-Brings = record {
  serves = plain-Serves;
  batches = λ i. refl;
  csv = csv;
  browsed = refl;
  transformed = refl;
}

run_job-IsConsistent_example : IsConsistent (run_job plain (some settings) 739684 false empty_db).1
run_job-IsConsistent_example =
    run_job-IsConsistent plain (some settings) 739684 false empty_db clean

run_job_ingests_example :
    let r = new_run 1 1000 source_name 739684 false in
    let audit = insert_batch 1 [] rows in
    let o = settled_outcome plain 1 (length audit - 0) [] r in
    run_job plain (some settings) 739684 false empty_db ≡ (
      ok o.status,
      record { runs = [] ++ set_outcome 2000 o r ∷ []; next_run = 1 + 1; audit = audit },
    )
run_job_ingests_example =
    run_job_ingests plain settings 739684 false empty_db rows clean plain-Brings

run_job_again_example :
    let db' = (run_job plain (some settings) 739684 false empty_db).1 in
    let r = new_run db'.next_run 1000 source_name 739684 true in
    let o = settled_outcome plain 1 0 db'.runs r in
    run_job plain (some settings) 739684 true db' ≡ (
      ok o.status,
      record db' { runs = db'.runs ++ set_outcome 2000 o r ∷ []; next_run = db'.next_run + 1 },
    )
run_job_again_example =
    run_job_again plain plain settings settings 739684 739684 false true empty_db rows clean
      plain-Brings plain-Brings

-- A date is accepted, the worker pops it, the process is told to stop while the job runs, and the
-- job ends.
abbrev day : List Event
day =
    Event.enqueue 739684 true
    ∷ Event.work plain none
    ∷ Event.catch_up true [] (some settings) 739690 7
    ∷ Event.work plain none
    ∷ Event.stop
    ∷ Event.work plain (some settings)
    ∷ []

run_events-IsIntact_example : IsIntact (run_events day (boot empty_db))
run_events-IsIntact_example = run_events-IsIntact day empty_db clean

booted : IsIntact (boot empty_db)
unfolding run_events
booted = run_events-IsIntact [] empty_db clean

run_events_settled_example : all_settled (run_events day (boot empty_db)).db.runs ≡ true
run_events_settled_example =
    run_events_settled day (boot empty_db)
      (tt, ((λ st. refl), (tt, ((λ st. refl), (tt, ((λ st. refl), tt)))))) booted
      (unfold boot in refl)

accepts_first : (try_enqueue 739684 true (boot empty_db).queue).0.accepted ≡ true
unfolding try_enqueue init boot
accepts_first = refl

accepted-Delivers_example :
    (fuel : ℕ) × Delivers
      (λ n. plain)
      (λ n. settings)
      (λ n. plain-Serves)
      fuel
      (handle_event (Event.enqueue 739684 true) (boot empty_db))
      ((739684, true) ∷ [])
unfolding boot init
accepted-Delivers_example =
    accepted-Delivers (λ n. plain) (λ n. settings) (λ n. plain-Serves) 739684 true (boot empty_db)
      booted refl refl accepts_first

abbrev had_run : System
had_run = record { queue = busy; db = record { runs = old_run ∷ []; next_run = 2; audit = [] } }

catch_up_skips_ingested_example :
    member 739684 (
      dates
        (handle_event
          (Event.catch_up true had_run.db.runs (some settings) 739690 7)
          had_run).queue.queue)
    ≡ false
unfolding new_run is_ingested
catch_up_skips_ingested_example =
    catch_up_skips_ingested 739684 true (some settings) 739690 7 had_run refl

dry_run_foretells_example :
    let db' = (run_job plain (some settings) 739684 true empty_db).1 in
    (result : DryRunResult) × (dry_run (dry_world plain empty_db) (some settings) 739684
      ≡ ok result)
    × (result.status ≡ "ok")
    × (length db'.audit ≡ 0 + result.would_insert)
    × (result.would_insert + result.would_skip_duplicate ≡ 1)
dry_run_foretells_example =
    dry_run_foretells plain settings 739684 true empty_db rows clean plain-Brings (refl, tt)
