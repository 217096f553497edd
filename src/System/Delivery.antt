-- ===== src/System/Delivery.antt =====
-- bluewave/orchestrator.py: what the worker leaves in the table of runs.
use blue_waving.RunJob.Accounts.{Serves}
use blue_waving.Orchestrator.{
  dates, is_in_flight, Worker, working, try_enqueue, entering, ensure_worker, looping, advance,
  absent,
}
use blue_waving.Orchestrator.Invariant.{is_working, is_some_date}
use blue_waving.Orchestrator.Draining.{running_job, is_leaving, three_per, at_worker}
use blue_waving.System.Invariant.{IsIntact}
use blue_waving.System.{run_current, consume, handle_event, run_events, System, Event}
use blue_waving.RunJob.Preservation.{run_job-IsConsistent}
use blue_waving.RunJob.{source_name, run_job, World}
use blue_waving.Runs.{new_run, set_outcome, RunRow, Db}
use blue_waving.RunJob.Outcomes.{run_job-Recorded}
use blue_waving.System.Settled.{all_settled}
use blue_waving.RunJob.Integrity.{IsConsistent}
use blue_waving.Config.{Config}
use blue_waving.Base.{
  ℕ, zero, suc, ◌≡◌, refl, sym, ap, ◌∙◌, inl, inr, Bool, true, false, ◌||◌, Option, none, some,
  List, [], ◌∷◌, ◌++◌, map, arith, Bool-cases, member,
}
use mathlib.Core.List.{append-nil, append_assoc, map-append}

-- The date and the flag of a run.
abbrev pub job_of : RunRow → ℕ × Bool
job_of r = (r.report_date, r.manual)

-- The runs of `after` are those of `before` and one for each of the jobs, in their order, each with
-- a terminal status.
pub record Ran (jobs : List (ℕ × Bool)) (before after : Db) : Type 0 where
  pub rows : List RunRow
  pub grown : after.runs ≡ before.runs ++ rows
  pub for_jobs : map job_of rows ≡ jobs
  pub settled : all_settled rows ≡ true
  pub consistent : IsConsistent after

Ran-none : (db : Db) → IsConsistent db → Ran [] db db
Ran-none db c = record {
  rows = [];
  grown = sym (append-nil db.runs);
  for_jobs = refl;
  settled = refl;
  consistent = c;
}

all_settled-append :
    (rs ts : List RunRow)
    → all_settled rs ≡ true
    → all_settled ts ≡ true
    → all_settled (rs ++ ts) ≡ true
all_settled-append [] ts h k = k
all_settled-append (r ∷ rs) ts h k = ground (arith, h, all_settled-append rs ts)

Ran-next :
    (j : ℕ × Bool) (js : List (ℕ × Bool)) (a b c : Db)
    → Ran (j ∷ []) a b
    → Ran js b c
    → Ran (j ∷ js) a c
Ran-next j js a b c first rest = record {
  rows = first.rows ++ rest.rows;
  grown =
      rest.grown ∙ ap (λ l. l ++ rest.rows) first.grown ∙ append_assoc a.runs first.rows rest.rows;
  for_jobs = map-append job_of first.rows rest.rows ∙ cc (first.for_jobs, rest.for_jobs);
  settled = all_settled-append first.rows rest.rows first.settled rest.settled;
  consistent = rest.consistent;
}

run_job-Ran :
    (w : World) (cfg : Config) (d : ℕ) (manual : Bool) (db : Db)
    → Serves w
    → IsConsistent db
    → Ran ((d, manual) ∷ []) db (run_job w (some cfg) d manual db).1
run_job-Ran w cfg d manual db s c =
    let (o, res, t, runs, u) =
      run_job-Recorded w cfg d manual db s.updates s.reached s.inserts c.ids_below c.unique in
    record {
      rows = set_outcome w.end_time o (new_run db.next_run w.start_time source_name d manual) ∷ [];
      grown = runs;
      for_jobs = unfold set_outcome new_run in refl;
      settled = unfold set_outcome in rw t;
      consistent = run_job-IsConsistent w (some cfg) d manual db c;
    }

module _ (worlds : ℕ → World) (settings : ℕ → Config) (served : (n : ℕ) → Serves (worlds n)) where
  -- `n` steps of the worker, and nothing else.
  unfoldable pub shifts : ℕ → List Event
  shifts zero = []
  shifts (suc n) = Event.work (worlds n) (some (settings n)) ∷ shifts n

  -- After `fuel` steps of the worker the jobs have been run, the queue is empty and the thread has
  -- ended.
  pub record Delivers (fuel : ℕ) (s : System) (jobs : List (ℕ × Bool)) : Type 0 where
    pub ran : Ran jobs s.db (run_events (shifts fuel) s).db
    pub emptied : (run_events (shifts fuel) s).queue.queue ≡ []
    pub ended : (run_events (shifts fuel) s).queue.worker ≡ absent

  looping-Delivers :
      (q : List (ℕ × Bool)) (o : Option ℕ) (db : Db)
      → IsConsistent db
      → Delivers (three_per q) (record { queue = at_worker o looping q; db = db }) q
  unfolding shifts run_events handle_event consume run_current advance
  looping-Delivers [] o db c = record { ran = Ran-none db c; emptied = refl; ended = refl }
  looping-Delivers ((d, manual) ∷ q) o db c =
      let n = three_per q in
      let first = run_job-Ran (worlds n) (settings n) d manual db (served n) c in
      let rest = looping-Delivers q none _ first.consistent in
      record {
        ran = Ran-next (d, manual) q db _ _ first rest.ran;
        emptied = rest.emptied;
        ended = rest.ended;
      }

  entering-Delivers :
      (q : List (ℕ × Bool)) (o : Option ℕ) (db : Db)
      → IsConsistent db
      → (fuel : ℕ) × Delivers fuel (record { queue = at_worker o entering q; db = db }) q
  unfolding shifts run_events handle_event consume run_current advance
  entering-Delivers [] o db c =
      (suc (suc zero), record { ran = Ran-none db c; emptied = refl; ended = refl })
  entering-Delivers ((d, manual) ∷ q) o db c =
      let n = three_per q in
      let first = run_job-Ran (worlds n) (settings n) d manual db (served n) c in
      let rest = looping-Delivers q none _ first.consistent in
      (
        suc (suc n),
        record {
          ran = Ran-next (d, manual) q db _ _ first rest.ran;
          emptied = rest.emptied;
          ended = rest.ended;
        },
      )

  working-Delivers :
      (m : Bool) (e : ℕ) (q : List (ℕ × Bool)) (db : Db)
      → IsConsistent db
      → (fuel : ℕ) × Delivers fuel
          (record { queue = at_worker (some e) (working m) q; db = db })
          ((e, m) ∷ q)
  unfolding shifts run_events handle_event consume run_current advance
  working-Delivers m e q db c =
      let n = three_per q in
      let first = run_job-Ran (worlds n) (settings n) e m db (served n) c in
      let rest = looping-Delivers q none _ first.consistent in
      (
        suc n,
        record {
          ran = Ran-next (e, m) q db _ _ first rest.ran;
          emptied = rest.emptied;
          ended = rest.ended;
        },
      )

  woken-Delivers :
      (w : Worker) (q : List (ℕ × Bool)) (o : Option ℕ) (db : Db)
      → is_leaving w ≡ false
      → is_some_date o ≡ is_working w
      → IsConsistent db
      → (fuel : ℕ) × Delivers fuel
          (record { queue = ensure_worker (at_worker o w q); db = db })
          (running_job w o ++ q)
  unfolding ensure_worker
  woken-Delivers absent q o db h f c = (three_per q, looping-Delivers q o db c)
  woken-Delivers looping q o db h f c = (three_per q, looping-Delivers q o db c)
  woken-Delivers entering q o db h f c = entering-Delivers q o db c
  woken-Delivers (working m) q none db h f c = cc f
  woken-Delivers (working m) q (some e) db h f c = working-Delivers m e q db c
  woken-Delivers Worker.leaving q o db h f c = cc h

  -- Where the server of every job is reached, and takes the insert of the run and every update of
  -- it: from an intact state, without shutdown and with the worker not about to die, a date that
  -- try_enqueue accepts gets its run. After some steps of the worker the table of runs has grown
  -- by one run for the date in flight, then one for each date queued before, then one for the
  -- accepted date, each with its flag and a terminal status; the queue is empty and the thread has
  -- ended.
  pub accepted-Delivers :
      (d : ℕ) (manual : Bool) (s : System)
      → IsIntact s
      → s.queue.shut_down ≡ false
      → is_leaving s.queue.worker ≡ false
      → (try_enqueue d manual s.queue).0.accepted ≡ true
      → (fuel : ℕ) × Delivers fuel
          (handle_event (Event.enqueue d manual) s)
          (running_job s.queue.worker s.queue.in_flight ++ (s.queue.queue ++ (d, manual) ∷ []))
  unfolding handle_event try_enqueue
  accepted-Delivers d manual s i up alive h =
      elim (Bool-cases (is_in_flight d s.queue.in_flight || member d (dates s.queue.queue))) [
        | inl busy ↦ cc (rw busy at h)
        | inr idle ↦ rw idle (
            rw (← up) at (
              woken-Delivers s.queue.worker (s.queue.queue ++ (d, manual) ∷ []) s.queue.in_flight
                s.db alive i.sound.single_flight i.consistent))
      ]
