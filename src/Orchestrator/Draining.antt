-- ===== src/Orchestrator/Draining.antt =====
-- bluewave/orchestrator.py, _consume: the worker thread by itself.
use blue_waving.Base.{
  ℕ, zero, suc, ◌≡◌, refl, ap, inl, inr, Bool, true, false, ◌||◌, Option, none, some, List, [], ◌∷◌,
  ◌++◌, arith, Bool-cases, member,
}
use blue_waving.Orchestrator.{
  Queue, Worker, absent, looping, entering, working, leaving, dates, is_in_flight, ensure_worker,
  try_enqueue, advance,
}

-- `n` steps of the worker thread, with no caller in between.
unfoldable pub steps : ℕ → Queue → Queue
steps zero s = s
steps (suc n) s = steps n (advance s)

-- The job that the worker is inside of.
abbrev pub running_job : Worker → Option ℕ → List (ℕ × Bool)
running_job (working manual) (some d) = (d, manual) ∷ []
running_job _ _ = []

-- The jobs that the worker starts in `n` steps, in their order.
unfoldable pub jobs : ℕ → Queue → List (ℕ × Bool)
jobs zero s = []
jobs (suc n) s = let t = advance s in running_job t.worker t.in_flight ++ jobs n t

abbrev pub three_per : List (ℕ × Bool) → ℕ
three_per [] = suc (suc (suc zero))
three_per (j ∷ q) = suc (suc (suc (three_per q)))

-- From the state `s` the worker runs exactly `q`, in order, and then ends.
pub record Drains (s : Queue) (q : List (ℕ × Bool)) : Type 0 where
  pub fuel : ℕ
  pub in_order : jobs fuel s ≡ q
  pub emptied : (steps fuel s).queue ≡ []
  pub ended : (steps fuel s).worker ≡ absent

module _ (o : Option ℕ) where
  abbrev pub at_worker : Worker → List (ℕ × Bool) → Queue
  at_worker w q = record { queue = q; in_flight = o; worker = w; shut_down = false }

drain_jobs : (q : List (ℕ × Bool)) (o : Option ℕ) → jobs (three_per q) (at_worker o looping q) ≡ q
unfolding jobs advance
drain_jobs [] o = refl
drain_jobs ((d, manual) ∷ q) o = ap (λ r. (d, manual) ∷ r) (drain_jobs q none)

drain_steps :
    (q : List (ℕ × Bool)) (o : Option ℕ)
    → ((steps (three_per q) (at_worker o looping q)).queue ≡ [])
      × ((steps (three_per q) (at_worker o looping q)).worker ≡ absent)
unfolding steps advance
drain_steps [] o = (refl, refl)
drain_steps ((d, manual) ∷ q) o = drain_steps q none

looping-Drains : (q : List (ℕ × Bool)) (o : Option ℕ) → Drains (at_worker o looping q) q
looping-Drains q o = record {
  fuel = three_per q;
  in_order = drain_jobs q o;
  emptied = (drain_steps q o).0;
  ended = (drain_steps q o).1;
}

working-Drains :
    (q : List (ℕ × Bool)) (o : Option ℕ) (m : Bool) → Drains (at_worker o (working m) q) q
unfolding jobs steps advance
working-Drains q o m = record {
  fuel = suc (three_per q);
  in_order = drain_jobs q none;
  emptied = (drain_steps q none).0;
  ended = (drain_steps q none).1;
}

entering-Drains : (q : List (ℕ × Bool)) (o : Option ℕ) → Drains (at_worker o entering q) q
unfolding jobs steps advance
entering-Drains [] o = record {
  fuel = suc (suc zero);
  in_order = refl;
  emptied = refl;
  ended = refl;
}
entering-Drains ((d, m) ∷ q) o = record {
  fuel = suc (suc (three_per q));
  in_order = ap (λ r. (d, m) ∷ r) (drain_jobs q none);
  emptied = (drain_steps q none).0;
  ended = (drain_steps q none).1;
}

abbrev pub is_leaving : Worker → Bool
is_leaving leaving = true
is_leaving _ = false

woken-Drains :
    (w : Worker) (q : List (ℕ × Bool)) (o : Option ℕ)
    → is_leaving w ≡ false
    → Drains (ensure_worker (at_worker o w q)) q
unfolding ensure_worker
woken-Drains absent q o h = looping-Drains q o
woken-Drains looping q o h = looping-Drains q o
woken-Drains entering q o h = entering-Drains q o
woken-Drains (working m) q o h = working-Drains q o m
woken-Drains leaving q o h = cc

-- Without shutdown, and with the worker not about to die, a date that try_enqueue accepts is run
-- after all that was queued before it, in that order; then the queue is empty and the thread has
-- ended.
pub accepted-Drains :
    (d : ℕ) (manual : Bool) (s : Queue)
    → s.shut_down ≡ false
    → is_leaving s.worker ≡ false
    → (try_enqueue d manual s).0.accepted ≡ true
    → Drains (try_enqueue d manual s).1 (s.queue ++ (d, manual) ∷ [])
unfolding try_enqueue
accepted-Drains d manual s up alive h =
    elim (Bool-cases (is_in_flight d s.in_flight || member d (dates s.queue))) [
      | inl busy ↦ cc (rw busy at h)
      | inr idle ↦
          rw idle
            (rw (← up) at (woken-Drains s.worker (s.queue ++ (d, manual) ∷ []) s.in_flight alive))
    ]

abbrev lying : Worker → List (ℕ × Bool) → Option ℕ → Bool → Queue
lying w q o b = record { queue = q; in_flight = o; worker = w; shut_down = b }

absent_steps :
    (n : ℕ) (q : List (ℕ × Bool)) (o : Option ℕ) (b : Bool)
    → steps n (lying absent q o b) ≡ lying absent q o b
unfolding steps advance
absent_steps zero q o b = refl
absent_steps (suc n) q o b = absent_steps n q o b

absent_jobs :
    (n : ℕ) (q : List (ℕ × Bool)) (o : Option ℕ) (b : Bool) → jobs n (lying absent q o b) ≡ []
unfolding jobs advance
absent_jobs zero q o b = refl
absent_jobs (suc n) q o b = absent_jobs n q o b

accepted_by_leaving :
    (d : ℕ) (manual : Bool) (s : Queue)
    → s.worker ≡ leaving
    → (try_enqueue d manual s).0.accepted ≡ true
    → (try_enqueue d manual s).1
      ≡ lying leaving (s.queue ++ (d, manual) ∷ []) s.in_flight s.shut_down
unfolding try_enqueue
accepted_by_leaving d manual s w h = ground arith

-- A date that try_enqueue accepts while the worker has left its loop but is still alive stays at
-- the end of the queue with no thread to run it, however many steps the worker is given, one at
-- least.
pub accepted_by_leaving_stays :
    (d : ℕ) (manual : Bool) (s : Queue) (n : ℕ)
    → s.worker ≡ leaving
    → (try_enqueue d manual s).0.accepted ≡ true
    → let t = steps (suc n) (try_enqueue d manual s).1 in
      (t.queue ≡ s.queue ++ (d, manual) ∷ [])
      × (t.worker ≡ absent)
      × (jobs (suc n) (try_enqueue d manual s).1 ≡ [])
unfolding steps jobs advance
accepted_by_leaving_stays d manual s n w h = rw (accepted_by_leaving d manual s w h) (
  ap (λ (t : Queue). t.queue) (absent_steps n _ _ _),
  ap (λ (t : Queue). t.worker) (absent_steps n _ _ _),
  absent_jobs n _ _ _,
)
