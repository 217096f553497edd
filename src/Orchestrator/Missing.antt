-- ===== src/Orchestrator/Missing.antt =====
-- bluewave/orchestrator.py, the whole of `catchup_missing`.
use blue_waving.Base.{
  ℕ, ◌-◌, ◌<◌, ◌≡◌, Bool, true, Option, none, some, List, [], ◌++◌, arith, ltb, if◌then◌else◌,
  select, Result, ok, err, ◌>>=◌,
}
use blue_waving.Exceptions.{Exn, database_error}
use blue_waving.Config.{Config}
use blue_waving.Runs.{RunRow, find_ingested_dates}
use blue_waving.Orchestrator.{Queue, dates, catchup_section, wake_if}
use blue_waving.Orchestrator.Window.{minus_days, candidates, ascending, candidates-eq-ascending}
use blue_waving.Orchestrator.Catchup.{is_fresh, is_waiting, scheduled, catchup_section-eq-select}

unfoldable pub ingested_since : Bool → List RunRow → ℕ → Result Exn (List ℕ)
ingested_since connects runs since =
    if connects then ok (find_ingested_dates "Bluewave" since runs) else err database_error

-- `connects` says whether MySQL is reached, and `runs` is its table of runs.
unfoldable pub catchup_missing :
    Bool → List RunRow → Option Config → ℕ → ℕ → Queue → Result Exn ((List ℕ × List ℕ) × Queue)
unfolding minus_days ingested_since
catchup_missing connects runs none today_local cap_days s = ok (([], []), s)
catchup_missing connects runs (some cfg) today_local cap_days s = do
  earliest ← minus_days today_local cap_days
  ingested ← ingested_since connects runs earliest
  ok (catchup_section ingested (candidates today_local cap_days) s)

-- A catch-up that reaches the database, with a cap below the ordinal of today, enqueues, oldest
-- first and as scheduled runs, exactly those of the cap_days days before today that are neither
-- ingested nor pending, reports as skipped those that are pending and not ingested, and starts a
-- worker if it has enqueued something.
pub catchup_missing_lem :
    (runs : List RunRow) (cfg : Config) (today_local cap_days : ℕ) (s : Queue)
    → cap_days < today_local
    → let ingested = find_ingested_dates "Bluewave" (today_local - cap_days) runs in
      let window = ascending (today_local - cap_days) cap_days in
      let fresh = select (is_fresh ingested (dates s.queue) s.in_flight) window in
      let waiting = select (is_waiting ingested (dates s.queue) s.in_flight) window in
      catchup_missing true runs (some cfg) today_local cap_days s
      ≡ ok ((fresh, waiting), wake_if fresh (record s { queue = s.queue ++ scheduled fresh }))
unfolding catchup_missing
catchup_missing_lem runs cfg today_local cap_days s h =
    let e : ltb cap_days today_local ≡ true = ground arith in
    rw (e, candidates-eq-ascending today_local cap_days h, catchup_section-eq-select)
