-- ===== src/Orchestrator/Refine.antt =====
-- bluewave/orchestrator.py: the queue with its worker against a plain line of dates.
use blue_waving.Base.{
  ℕ, ◌≡◌, refl, inl, inr, Bool, false, ◌||◌, Option, none, some, List, [], ◌∷◌, ◌++◌, Bool-cases,
  member, Distinct, Distinct-snoc, select,
}
use mathlib.Core.List.{append_assoc}
use blue_waving.Orchestrator.{
  Queue, Worker, absent, looping, entering, working, leaving, dates, is_in_flight, ensure_worker,
  try_enqueue, catchup_section, wake_if, advance, advance_by, pop_from, shutdown,
}
use blue_waving.Orchestrator.Catchup.{is_fresh, dates-scheduled, catchup_section-eq-select}
use blue_waving.Orchestrator.Invariant.{
  IsSound, Step, enqueue, catchup, run, stop, pending, in_flight_dates, is_some_date, dates-snoc,
  member-pending, pending-fresh, ensure_worker-queue,
}

-- What the class promises: dates stand in line, new ones come last and are not in it yet, and only the
-- first leaves.
pub data LineStep : List ℕ → List ℕ → Type 0 where
  arrive : (p ds : List ℕ) → Distinct (p ++ ds) → LineStep p (p ++ ds)
  finish : (d : ℕ) (p : List ℕ) → LineStep (d ∷ p) p
  wait : (p : List ℕ) → LineStep p p

pending-ensure_worker : (s : Queue) → pending (ensure_worker s) ≡ pending s
pending-ensure_worker s = rw ((ensure_worker-queue s).0, (ensure_worker-queue s).1)

pending-wake_if : (ds : List ℕ) (s : Queue) → pending (wake_if ds s) ≡ pending s
unfolding wake_if
pending-wake_if [] s = refl
pending-wake_if (d ∷ ds) s = pending-ensure_worker s

enqueue-LineStep :
    (s : Queue) (d : ℕ) (manual : Bool)
    → IsSound s
    → LineStep (pending s) (pending (try_enqueue d manual s).1)
unfolding try_enqueue
enqueue-LineStep s d manual h =
    elim (Bool-cases (is_in_flight d s.in_flight || member d (dates s.queue))) [
      | inl busy ↦ rw busy (wait (pending s))
      | inr idle ↦
          rw (idle, pending-ensure_worker, dates-snoc s.queue d manual, ← append_assoc)
            (arrive (pending s) (d ∷ [])
              (Distinct-snoc (pending s) d h.distinct (member-pending s d idle)))
    ]

catchup-LineStep :
    (ingested cs : List ℕ) (s : Queue)
    → Distinct cs
    → IsSound s
    → LineStep (pending s) (pending (catchup_section ingested cs s).1)
catchup-LineStep ingested cs s dc h =
    rw
      (
        catchup_section-eq-select,
        pending-wake_if,
        dates-scheduled s.queue (select (is_fresh ingested (dates s.queue) s.in_flight) cs),
        ← append_assoc,
      )
      (arrive (pending s) _ (pending-fresh ingested cs s dc h.distinct))

pop_from-LineStep :
    (q : List (ℕ × Bool)) (s : Queue)
    → s.queue ≡ q
    → s.in_flight ≡ none
    → LineStep (pending s) (pending (pop_from q s))
unfolding pop_from
pop_from-LineStep [] s e idle = wait (pending s)
pop_from-LineStep ((d, m) ∷ q) s e idle = rw (e, idle) (wait (d ∷ dates q))

none_of : (o : Option ℕ) → is_some_date o ≡ false → o ≡ none
none_of none h = refl
none_of (some d) h = cc

finished : (o : Option ℕ) (p : List ℕ) → LineStep (in_flight_dates o ++ p) p
finished none p = wait p
finished (some d) p = finish d p

advance_by-LineStep :
    (w : Worker) (s : Queue)
    → s.worker ≡ w
    → IsSound s
    → LineStep (pending s) (pending (advance_by w s))
unfolding advance_by
advance_by-LineStep absent s e h = wait (pending s)
advance_by-LineStep looping s e h = wait (pending s)
advance_by-LineStep entering s e h =
    pop_from-LineStep s.queue s refl (none_of s.in_flight (rw e at h.single_flight))
advance_by-LineStep (working m) s e h = finished s.in_flight (dates s.queue)
advance_by-LineStep leaving s e h = wait (pending s)

-- Every section of a caller and every step of the worker, from a sound queue, is a step of a plain
-- line of dates: some new dates join at the end, none of them twice or in the line already, or the
-- first date leaves, or nothing changes.
pub Step-LineStep : {s t : Queue} → IsSound s → Step s t → LineStep (pending s) (pending t)
Step-LineStep h (enqueue s d manual) = enqueue-LineStep s d manual h
Step-LineStep h (catchup s ingested cs dc) = catchup-LineStep ingested cs s dc h
Step-LineStep h (run s) = unfold advance in advance_by-LineStep s.worker s refl h
Step-LineStep h (stop s) = unfold shutdown in wait (pending s)
