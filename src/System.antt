-- ===== src/System.antt =====
-- bluewave/orchestrator.py: the queue, its worker thread and run_job on one database, under any
-- sequence of events. A job is one event, at its end: until then it holds only its own session, and
-- the row `running` that it has committed is not one that catchup_missing looks for.
pub mod Invariant
pub mod Settled
pub mod Delivery
pub mod Ingested
pub mod Startup
pub mod Restart
use blue_waving.Orchestrator.Draining.{running_job}
use blue_waving.RunJob.{run_job, World}
use blue_waving.Orchestrator.{advance, shutdown, try_enqueue, Queue, init}
use blue_waving.Config.{Config}
use blue_waving.Runs.{RunRow, Db}
use blue_waving.Orchestrator.Missing.{catchup_missing}
use blue_waving.Base.{ℕ, Bool, Option, List, [], ◌∷◌}
use blue_waving.Scheduler.{catchup_or_keep}

pub record System : Type 0 where
  pub queue : Queue
  pub db : Db

pub data Event : Type 0 where
  enqueue : ℕ → Bool → Event
  -- the catch-up of a route or of the scheduler: whether MySQL is reached, the runs that it reads,
  -- perhaps before other events, the settings, the date of today and the cap
  catch_up : Bool → List RunRow → Option Config → ℕ → ℕ → Event
  -- a step of the worker, with what surrounds the job if the step ends one, and the settings that
  -- the job loads
  work : World → Option Config → Event
  stop : Event

unfoldable pub boot : Db → System
boot db = record { queue = init; db = db }

-- `self._job_fn(self.store, self._in_flight, manual)`: what the job raises is logged.
unfoldable pub run_current : World → Option Config → List (ℕ × Bool) → Db → Db
run_current w cfg [] db = db
run_current w cfg ((d, manual) ∷ js) db = (run_job w cfg d manual db).1

-- `_consume`, one step
unfoldable pub consume : World → Option Config → System → System
unfolding run_current
consume w cfg s = record {
  queue = advance s.queue;
  db = run_current w cfg (running_job s.queue.worker s.queue.in_flight) s.db;
}

unfoldable pub handle_event : Event → System → System
unfolding consume
handle_event (enqueue d manual) s = record s { queue = (try_enqueue d manual s.queue).1 }
handle_event (catch_up connects runs cfg today cap_days) s = record s {
  queue = catchup_or_keep (catchup_missing connects runs cfg today cap_days s.queue) s.queue;
}
handle_event (work w cfg) s = consume w cfg s
handle_event stop s = record s { queue = shutdown s.queue }

unfoldable pub run_events : List Event → System → System
run_events [] s = s
run_events (e ∷ es) s = run_events es (handle_event e s)
