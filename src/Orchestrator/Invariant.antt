-- ===== src/Orchestrator/Invariant.antt =====
-- bluewave/orchestrator.py: the queue under any interleaving of its callers with the worker thread.
use blue_waving.Base.{
  ℕ, ◌≡◌, refl, ap, inl, inr, Bool, true, false, ◌||◌, Option, none, some, List, [], ◌∷◌, ◌++◌,
  arith, Bool-cases, member, Distinct, Distinct-snoc, Distinct-append, member-select,
  select-Distinct, select,
}
use mathlib.Core.List.{append_assoc}
use blue_waving.Orchestrator.{
  Queue, init, Worker, absent, looping, entering, working, leaving, dates, is_in_flight,
  ensure_worker, try_enqueue, catchup_section, wake_if, advance, advance_by, pop_from, shutdown,
}
use blue_waving.Orchestrator.Catchup.{is_fresh, dates-scheduled, catchup_section-eq-select}

abbrev pub in_flight_dates : Option ℕ → List ℕ
in_flight_dates none = []
in_flight_dates (some d) = d ∷ []

-- The dates that are being run or wait for their run.
abbrev pub pending : Queue → List ℕ
pending s = in_flight_dates s.in_flight ++ dates s.queue

abbrev pub is_working : Worker → Bool
is_working (working manual) = true
is_working _ = false

abbrev pub is_some_date : Option ℕ → Bool
is_some_date none = false
is_some_date (some d) = true

-- No date is pending twice, and a date is in flight exactly while the worker runs a job.
pub record IsSound (s : Queue) : Type 0 where
  pub distinct : Distinct (pending s)
  pub single_flight : is_some_date s.in_flight ≡ is_working s.worker

-- One section under the lock by a caller, or one step of the worker.
pub data Step : Queue → Queue → Type 0 where
  enqueue : (s : Queue) (d : ℕ) (manual : Bool) → Step s (try_enqueue d manual s).1
  catchup :
      (s : Queue) (ingested cs : List ℕ) → Distinct cs → Step s (catchup_section ingested cs s).1
  run : (s : Queue) → Step s (advance s)
  stop : (s : Queue) → Step s (shutdown s)

pub data Reach : Queue → Type 0 where
  start : Reach init
  next : {s t : Queue} → Reach s → Step s t → Reach t

pub dates-snoc :
    (q : List (ℕ × Bool)) (d : ℕ) (m : Bool) → dates (q ++ (d, m) ∷ []) ≡ dates q ++ d ∷ []
dates-snoc [] d m = refl
dates-snoc ((e, m') ∷ q) d m = ap (λ r. e ∷ r) (dates-snoc q d m)

pub member-pending :
    (s : Queue) (d : ℕ)
    → (is_in_flight d s.in_flight || member d (dates s.queue)) ≡ false
    → member d (pending s) ≡ false
member-pending s d idle = go s.in_flight idle
  where
    go :
        (o : Option ℕ)
        → (is_in_flight d o || member d (dates s.queue)) ≡ false
        → member d (in_flight_dates o ++ dates s.queue) ≡ false
    go none h = unfold is_in_flight in ground arith
    go (some e) h = unfold is_in_flight in ground arith

pub ensure_worker-queue :
    (s : Queue) → ((ensure_worker s).queue ≡ s.queue) × ((ensure_worker s).in_flight ≡ s.in_flight)
unfolding ensure_worker
ensure_worker-queue s = ground arith

ensure_worker-single_flight :
    (s : Queue)
    → is_some_date s.in_flight ≡ is_working s.worker
    → is_some_date (ensure_worker s).in_flight ≡ is_working (ensure_worker s).worker
unfolding ensure_worker
ensure_worker-single_flight s h = ground arith

ensure_worker-IsSound : (s : Queue) → IsSound s → IsSound (ensure_worker s)
ensure_worker-IsSound s h = record {
  distinct = rw ((ensure_worker-queue s).0, (ensure_worker-queue s).1) h.distinct;
  single_flight = ensure_worker-single_flight s h.single_flight;
}

pending-snoc :
    (s : Queue) (d : ℕ) (manual : Bool)
    → IsSound s
    → (is_in_flight d s.in_flight || member d (dates s.queue)) ≡ false
    → Distinct (in_flight_dates s.in_flight ++ dates (s.queue ++ (d, manual) ∷ []))
pending-snoc s d manual h idle =
    rw (dates-snoc s.queue d manual, ← append_assoc)
      (Distinct-snoc (pending s) d h.distinct (member-pending s d idle))

drop_in_flight : (o : Option ℕ) (q : List ℕ) → Distinct (in_flight_dates o ++ q) → Distinct q
drop_in_flight none q d = d
drop_in_flight (some x) q d = d.1

pop_from-IsSound :
    (q : List (ℕ × Bool)) (s : Queue)
    → s.queue ≡ q
    → s.worker ≡ entering
    → IsSound s
    → IsSound (pop_from q s)
unfolding pop_from
pop_from-IsSound [] s e w h = record {
  distinct = h.distinct;
  single_flight = ground (arith, h.single_flight);
}
pop_from-IsSound ((d, m) ∷ q) s e w h = record {
  distinct = rw e at (drop_in_flight s.in_flight (dates s.queue) h.distinct);
  single_flight = refl;
}

try_enqueue-IsSound :
    (s : Queue) (d : ℕ) (manual : Bool) → IsSound s → IsSound (try_enqueue d manual s).1
unfolding try_enqueue
try_enqueue-IsSound s d manual h =
    elim (Bool-cases (is_in_flight d s.in_flight || member d (dates s.queue))) [
      | inl busy ↦ rw busy h
      | inr idle ↦ rw idle (
          ensure_worker-IsSound _
            (record { distinct = pending-snoc s d manual h idle; single_flight = h.single_flight }))
    ]

wake_if-IsSound : (ds : List ℕ) (s : Queue) → IsSound s → IsSound (wake_if ds s)
unfolding wake_if
wake_if-IsSound [] s h = h
wake_if-IsSound (d ∷ ds) s h = ensure_worker-IsSound s h

-- What `catchup_missing` adds is neither in flight, nor queued, nor added twice.
pub pending-fresh :
    (ingested cs : List ℕ) (s : Queue)
    → Distinct cs
    → Distinct (pending s)
    → Distinct (pending s ++ select (is_fresh ingested (dates s.queue) s.in_flight) cs)
pending-fresh ingested cs s dc d =
    Distinct-append (pending s) (select fresh cs) d (select-Distinct fresh cs dc)
      (λ y m. member-pending s y (ground (arith, member-select fresh y cs)))
  where
    fresh : ℕ → Bool
    fresh = is_fresh ingested (dates s.queue) s.in_flight

catchup-IsSound :
    (ingested cs : List ℕ) (s : Queue)
    → Distinct cs
    → IsSound s
    → IsSound (catchup_section ingested cs s).1
catchup-IsSound ingested cs s dc h = rw catchup_section-eq-select (
    wake_if-IsSound _ _ (record {
      distinct =
          rw
            (
              dates-scheduled s.queue (select (is_fresh ingested (dates s.queue) s.in_flight) cs),
              ← append_assoc,
            )
            (pending-fresh ingested cs s dc h.distinct);
      single_flight = h.single_flight;
    }))

advance_by-IsSound : (w : Worker) (s : Queue) → s.worker ≡ w → IsSound s → IsSound (advance_by w s)
unfolding advance_by
advance_by-IsSound absent s e h = h
advance_by-IsSound looping s e h = record {
  distinct = h.distinct;
  single_flight = ground (arith, h.single_flight);
}
advance_by-IsSound entering s e h = pop_from-IsSound s.queue s refl e h
advance_by-IsSound (working manual) s e h = record {
  distinct = drop_in_flight s.in_flight (dates s.queue) h.distinct;
  single_flight = refl;
}
advance_by-IsSound leaving s e h = record {
  distinct = h.distinct;
  single_flight = ground (arith, h.single_flight);
}

-- Every section and every step of the worker keeps the queue sound.
pub Step-IsSound : {s t : Queue} → Step s t → IsSound s → IsSound t
Step-IsSound (enqueue s d manual) h = try_enqueue-IsSound s d manual h
Step-IsSound (catchup s ingested cs dc) h = catchup-IsSound ingested cs s dc h
Step-IsSound (run s) h = unfold advance in advance_by-IsSound s.worker s refl h
Step-IsSound (stop s) h =
    unfold shutdown in record { distinct = h.distinct; single_flight = h.single_flight }

-- After any interleaving of try_enqueue, catchup_missing and shutdown with the steps of the
-- worker, no date is pending twice, and a date is in flight exactly while the worker runs a job.
pub Reach-IsSound : {s : Queue} → Reach s → IsSound s
Reach-IsSound start = unfold init in record { distinct = tt; single_flight = refl }
Reach-IsSound (next r st) = Step-IsSound st (Reach-IsSound r)
