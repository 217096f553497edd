-- ===== src/Orchestrator/Catchup.antt =====
-- bluewave/orchestrator.py, catchup_missing: the section under the lock, against filters.
use blue_waving.Base.{
  ℕ, ◌≡◌, refl, ap, Bool, false, not, ◌&&◌, ◌||◌, Option, List, [], ◌∷◌, ◌++◌, arith, member,
  select,
}
use mathlib.Core.List.{append-nil, append_assoc}
use blue_waving.Orchestrator.{
  Queue, Sweep, dates, is_in_flight, sweep, sweep_one, catchup_section, wake_if, finish_catchup,
}

module _ (ingested queued_now : List ℕ) (in_flight : Option ℕ) where
  abbrev pub is_busy : ℕ → Bool
  is_busy d = member d queued_now || is_in_flight d in_flight

  abbrev pub is_fresh : ℕ → Bool
  is_fresh d = not (member d ingested) && not (is_busy d)

  abbrev pub is_waiting : ℕ → Bool
  is_waiting d = not (member d ingested) && is_busy d

-- A run that the scheduler asks for, `manual=False`.
abbrev pub scheduled : List ℕ → List (ℕ × Bool)
scheduled [] = []
scheduled (d ∷ ds) = (d, false) ∷ scheduled ds

pub dates-scheduled :
    (q : List (ℕ × Bool)) (ds : List ℕ) → dates (q ++ scheduled ds) ≡ dates q ++ ds
dates-scheduled [] [] = refl
dates-scheduled [] (d ∷ ds) = ap (λ r. d ∷ r) (dates-scheduled [] ds)
dates-scheduled ((d, m) ∷ q) ds = ap (λ r. d ∷ r) (dates-scheduled q ds)

module _ (ingested queued_now : List ℕ) (in_flight : Option ℕ) where
  pub sweep-eq-select :
      (cs : List ℕ) (w : Sweep)
      → sweep ingested queued_now in_flight cs w ≡ record {
        queue = w.queue ++ scheduled (select (is_fresh ingested queued_now in_flight) cs);
        enqueued = w.enqueued ++ select (is_fresh ingested queued_now in_flight) cs;
        skipped = w.skipped ++ select (is_waiting ingested queued_now in_flight) cs;
      }
  unfolding sweep
  sweep-eq-select [] w = simp append-nil
  sweep-eq-select (c ∷ cs) w =
      rw (sweep-eq-select cs (sweep_one ingested queued_now in_flight c w)) (
        unfold sweep_one in
        ground (
          arith,
          append_assoc w.queue ((c, false) ∷ [])
              (scheduled (select (is_fresh ingested queued_now in_flight) cs)),
          append_assoc w.enqueued (c ∷ []) (select (is_fresh ingested queued_now in_flight) cs),
          append_assoc w.skipped (c ∷ []) (select (is_waiting ingested queued_now in_flight) cs),
        ))

-- The loop of catchup_missing over the candidates is two filters of them: what it appends to the
-- queue and reports, and what it reports as skipped.
pub catchup_section-eq-select :
    (ingested cs : List ℕ) (s : Queue)
    → let fresh = select (is_fresh ingested (dates s.queue) s.in_flight) cs in
      catchup_section ingested cs s ≡ (
        (fresh, select (is_waiting ingested (dates s.queue) s.in_flight) cs),
        wake_if fresh (record s { queue = s.queue ++ scheduled fresh }),
      )
unfolding finish_catchup
catchup_section-eq-select ingested cs s =
    unfold catchup_section in
    ap (finish_catchup s) (
      sweep-eq-select ingested (dates s.queue) s.in_flight cs
        (record { queue = s.queue; enqueued = []; skipped = [] }))
