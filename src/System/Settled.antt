-- ===== src/System/Settled.antt =====
-- bluewave/orchestrator.py: the statuses of the committed runs under any sequence of events.
use blue_waving.Runs.{set_outcome, Db, is_terminal, RunRow}
use blue_waving.RunJob.Outcomes.{run_job-Recorded}
use blue_waving.Orchestrator.Draining.{running_job}
use blue_waving.System.Invariant.{handle_event-IsIntact, IsIntact}
use blue_waving.RunJob.{run_job, World}
use blue_waving.RunJob.Integrity.{IsConsistent}
use blue_waving.System.{System, run_events, run_current, handle_event, Event}
use blue_waving.Config.{Config}
use blue_waving.Base.{
  ℕ, String, ◌≡◌, inl, inr, Bool, true, Option, none, some, List, [], ◌∷◌, ◌++◌, arith, Bool-cases,
  every,
}

-- Every run has a terminal status.
abbrev pub all_settled : List RunRow → Bool
all_settled = every (λ (r : RunRow). is_terminal r.status)

all_settled-snoc :
    (rs : List RunRow) (r : RunRow)
    → all_settled rs ≡ true
    → is_terminal r.status ≡ true
    → all_settled (rs ++ r ∷ []) ≡ true
all_settled-snoc [] r h t = rw t
all_settled-snoc (x ∷ rs) r h t = ground (arith, h, all_settled-snoc rs r)

-- The server that a job meets takes every update of a run.
abbrev pub TakesUpdates : Event → Type 0
TakesUpdates (Event.work w cfg) = (st : String) → w.takes_update st ≡ true
TakesUpdates _ = Unit

abbrev pub EachTakesUpdates : List Event → Type 0
EachTakesUpdates [] = Unit
EachTakesUpdates (e ∷ es) = TakesUpdates e × EachTakesUpdates es

run_job-settled :
    (w : World) (cfg : Option Config) (d : ℕ) (manual : Bool) (db : Db)
    → ((st : String) → w.takes_update st ≡ true)
    → IsConsistent db
    → all_settled db.runs ≡ true
    → all_settled (run_job w cfg d manual db).1.runs ≡ true
run_job-settled w none d manual db up c h = unfold run_job in h
run_job-settled w (some cfg) d manual db up c h = elim (Bool-cases w.connects) [
  | inr away ↦ unfold run_job in rw away h
  | inl reached ↦ elim (Bool-cases w.starts) [
    | inr refused ↦ unfold run_job in rw (reached, refused) h
    | inl taken ↦
        let (o, res, t, runs, u) =
          run_job-Recorded w cfg d manual db up reached taken c.ids_below c.unique in
        rw runs (all_settled-snoc db.runs _ h (unfold set_outcome in t))
  ]
]

run_current-settled :
    (w : World) (cfg : Option Config) (js : List (ℕ × Bool)) (db : Db)
    → ((st : String) → w.takes_update st ≡ true)
    → IsConsistent db
    → all_settled db.runs ≡ true
    → all_settled (run_current w cfg js db).runs ≡ true
unfolding run_current
run_current-settled w cfg [] db up c h = h
run_current-settled w cfg ((d, manual) ∷ js) db up c h = run_job-settled w cfg d manual db up c h

handle_event-settled :
    (e : Event) (s : System)
    → TakesUpdates e
    → IsIntact s
    → all_settled s.db.runs ≡ true
    → all_settled (handle_event e s).db.runs ≡ true
unfolding handle_event
handle_event-settled (Event.enqueue d manual) s up i h = h
handle_event-settled (Event.catch_up connects runs cfg today cap_days) s up i h = h
handle_event-settled (Event.work w cfg) s up i h =
    run_current-settled w cfg (running_job s.queue.worker s.queue.in_flight) s.db up i.consistent h
handle_event-settled Event.stop s up i h = h

-- Where the server takes every update of a run: from an intact state with terminal runs only, any
-- sequence of events, connections and inserts that fail included, leaves terminal runs only. No
-- run stays at `running` between two jobs.
pub run_events_settled :
    (es : List Event) (s : System)
    → EachTakesUpdates es
    → IsIntact s
    → all_settled s.db.runs ≡ true
    → all_settled (run_events es s).db.runs ≡ true
unfolding run_events
run_events_settled [] s up i h = h
run_events_settled (e ∷ es) s up i h =
    run_events_settled es (handle_event e s) up.1 (handle_event-IsIntact e s i)
      (handle_event-settled e s up.0 i h)
