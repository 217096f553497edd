-- ===== src/System/Invariant.antt =====
-- bluewave/orchestrator.py: the queue and the keys of the database under any sequence of events.
use blue_waving.Runs.{find_ingested_dates, RunRow, Db}
use blue_waving.Orchestrator.Window.{ascending-Distinct, candidates-eq-ascending, candidates}
use blue_waving.RunJob.Preservation.{run_job-IsConsistent}
use blue_waving.Orchestrator.Draining.{running_job}
use blue_waving.Orchestrator.Invariant.{Reach, Step, Reach-IsSound, Step-IsSound, IsSound}
use blue_waving.RunJob.Integrity.{IsConsistent}
use blue_waving.Orchestrator.{Queue, init}
use blue_waving.Config.{Config}
use blue_waving.Scheduler.{catchup_or_keep}
use blue_waving.RunJob.{World}
use blue_waving.System.{Event, run_events, run_current, handle_event, boot, System}
use blue_waving.Orchestrator.Missing.{catchup_missing}
use blue_waving.Base.{
  ℕ, ◌-◌, inl, inr, Bool, true, false, Option, none, some, List, [], ◌∷◌, arith, ltb, Bool-cases,
  Distinct,
}

-- No date is pending twice, a date is in flight exactly while the worker runs a job, and the keys of
-- both tables hold.
pub record IsIntact (s : System) : Type 0 where
  pub sound : IsSound s.queue
  pub consistent : IsConsistent s.db

catchup_missing-IsSound :
    (connects : Bool) (runs : List RunRow) (cfg : Option Config) (today cap_days : ℕ) (q : Queue)
    → IsSound q
    → IsSound (catchup_or_keep (catchup_missing connects runs cfg today cap_days q) q)
unfolding catchup_missing catchup_or_keep
catchup_missing-IsSound connects runs none today cap_days q h = h
catchup_missing-IsSound true runs (some cfg) today cap_days q h =
    elim (Bool-cases (ltb cap_days today)) [
      | inl near ↦
          let distinct : Distinct (candidates today cap_days) =
            rw (candidates-eq-ascending today cap_days (ground (arith, near)))
              (ascending-Distinct (today - cap_days) cap_days) in
          rw near (
            Step-IsSound
              (Step.catchup q (find_ingested_dates "Bluewave" (today - cap_days) runs)
                (candidates today cap_days) distinct)
              h)
      | inr far ↦ rw far h
    ]
catchup_missing-IsSound false runs (some cfg) today cap_days q h =
    elim (Bool-cases (ltb cap_days today)) [ inl near ↦ rw near h | inr far ↦ rw far h ]

run_current-IsConsistent :
    (w : World) (cfg : Option Config) (js : List (ℕ × Bool)) (db : Db)
    → IsConsistent db
    → IsConsistent (run_current w cfg js db)
unfolding run_current
run_current-IsConsistent w cfg [] db c = c
run_current-IsConsistent w cfg ((d, manual) ∷ js) db c = run_job-IsConsistent w cfg d manual db c

pub handle_event-IsIntact : (e : Event) (s : System) → IsIntact s → IsIntact (handle_event e s)
unfolding handle_event
handle_event-IsIntact (Event.enqueue d manual) s i = record {
  sound = Step-IsSound (Step.enqueue s.queue d manual) i.sound;
  consistent = i.consistent;
}
handle_event-IsIntact (Event.catch_up connects runs cfg today cap_days) s i = record {
  sound = catchup_missing-IsSound connects runs cfg today cap_days s.queue i.sound;
  consistent = i.consistent;
}
handle_event-IsIntact (Event.work w cfg) s i = record {
  sound = Step-IsSound (Step.run s.queue) i.sound;
  consistent =
      run_current-IsConsistent w cfg (running_job s.queue.worker s.queue.in_flight) s.db
        i.consistent;
}
handle_event-IsIntact Event.stop s i = record {
  sound = Step-IsSound (Step.stop s.queue) i.sound;
  consistent = i.consistent;
}

run_events_keep : (es : List Event) (s : System) → IsIntact s → IsIntact (run_events es s)
unfolding run_events
run_events_keep [] s i = i
run_events_keep (e ∷ es) s i = run_events_keep es (handle_event e s) (handle_event-IsIntact e s i)

-- From a database whose keys hold, after any sequence of try_enqueue, catchup_missing, shutdown
-- and steps of the worker, whatever the jobs meet: no date is pending twice, a date is in flight
-- exactly while the worker runs a job, and the keys of both tables hold.
pub run_events-IsIntact :
    (es : List Event) (db : Db) → IsConsistent db → IsIntact (run_events es (boot db))
unfolding boot init
run_events-IsIntact es db c =
    run_events_keep es _ (record { sound = Reach-IsSound Reach.start; consistent = c })
