-- ===== src/Orchestrator.antt =====
-- bluewave/orchestrator.py, the class Orchestrator: the in-process queue and its worker thread.
-- A date is its ordinal (date.toordinal). Each function is one section under the lock, or one step
-- of the worker thread between two sections.
pub mod Window
pub mod Invariant
pub mod Refine
pub mod Draining
pub mod Catchup
pub mod Missing
use blue_waving.Base.{
  ℕ, zero, suc, ◌+◌, ◌-◌, ◌*◌, ◌/◌, ◌%◌, ◌≤◌, ◌<◌, String, ◌≡◌, refl, sym, ap, ◌∙◌, ◌≢◌, ◌↔◌, ◌⊎◌,
  inl, inr, Bool, true, false, not, ◌&&◌, ◌||◌, Option, none, some, List, [], ◌∷◌, ◌++◌, map, arith,
  ltb, leb, ◌==◌, str_eq, eq_iff, eq_refl, if◌then◌else◌, ==_refl, Bool-cases, Option-cases, length,
  take, drop, any, member, Distinct, Distinct-snoc, every, count_if, select, length-append,
  length-take, take-append-drop, length-drop, any-append, count_if-append, Text, codes, text_eq,
  is_empty, is_space, lstrip, strip, text_eq_sound, text_eq_refl, Result, ok, err, ◌>>=◌,
}

-- What the thread of `_worker` is doing. `absent` is None or a thread that is not alive.
pub data Worker : Type 0 where
  absent : Worker
  -- before `self._shutdown.is_set()`
  looping : Worker
  -- before `with self._lock`, at the head of the loop's body
  entering : Worker
  -- inside `_job_fn`, with the flag `manual`
  working : Bool → Worker
  -- `_consume` has returned, and the thread is still alive
  leaving : Worker

pub record Queue : Type 0 where
  pub queue : List (ℕ × Bool)
  pub in_flight : Option ℕ
  pub worker : Worker
  pub shut_down : Bool

-- __init__
unfoldable pub init : Queue
init = record { queue = []; in_flight = none; worker = absent; shut_down = false }

unfoldable pub is_alive : Worker → Bool
is_alive absent = false
is_alive looping = true
is_alive entering = true
is_alive (working manual) = true
is_alive leaving = true

abbrev pub dates : List (ℕ × Bool) → List ℕ
dates [] = []
dates ((d, manual) ∷ q) = d ∷ dates q

-- queued_dates, and the field `queued` of `state`
unfoldable pub queued_dates : Queue → List ℕ
queued_dates s = dates s.queue

unfoldable pub is_running : Queue → Bool
is_running s = elim s.in_flight [ none ↦ false | some d ↦ true ]

-- `d == self._in_flight`
unfoldable pub is_in_flight : ℕ → Option ℕ → Bool
is_in_flight d none = false
is_in_flight d (some e) = d == e

unfoldable pub ensure_worker : Queue → Queue
unfolding is_alive
ensure_worker s = if is_alive s.worker then s else record s { worker = looping }

pub record EnqueueResult : Type 0 where
  pub accepted : Bool
  pub reason : String
  pub queue_depth : ℕ

unfoldable pub try_enqueue : ℕ → Bool → Queue → EnqueueResult × Queue
unfolding is_in_flight ensure_worker
try_enqueue report_date manual s =
    if is_in_flight report_date s.in_flight || member report_date (dates s.queue)
    then (record { accepted = false; reason = "already_queued"; queue_depth = length s.queue }, s)
    else let q = s.queue ++ (report_date, manual) ∷ [] in
      (
        record { accepted = true; reason = "queued"; queue_depth = length q },
        ensure_worker (record s { queue = q }),
      )

-- The loop of `catchup_missing` over the candidates: the queue, and what was enqueued and skipped.
pub record Sweep : Type 0 where
  pub queue : List (ℕ × Bool)
  pub enqueued : List ℕ
  pub skipped : List ℕ

unfoldable pub sweep_one : List ℕ → List ℕ → Option ℕ → ℕ → Sweep → Sweep
unfolding is_in_flight
sweep_one ingested queued_now in_flight d w =
    if member d ingested
    then w
    else if member d queued_now || is_in_flight d in_flight
    then record w { skipped = w.skipped ++ d ∷ [] }
    else record w { queue = w.queue ++ (d, false) ∷ []; enqueued = w.enqueued ++ d ∷ [] }

unfoldable pub sweep : List ℕ → List ℕ → Option ℕ → List ℕ → Sweep → Sweep
sweep ingested queued_now in_flight [] w = w
sweep ingested queued_now in_flight (d ∷ candidates) w =
    sweep ingested queued_now in_flight candidates (sweep_one ingested queued_now in_flight d w)

-- `if enqueued: self._ensure_worker_locked()`
unfoldable pub wake_if : List ℕ → Queue → Queue
wake_if [] s = s
wake_if (d ∷ ds) s = ensure_worker s

unfoldable pub finish_catchup : Queue → Sweep → (List ℕ × List ℕ) × Queue
unfolding wake_if
finish_catchup s w = ((w.enqueued, w.skipped), wake_if w.enqueued (record s { queue = w.queue }))

-- The section of `catchup_missing` under the lock.
unfoldable pub catchup_section : List ℕ → List ℕ → Queue → (List ℕ × List ℕ) × Queue
unfolding sweep sweep_one finish_catchup
catchup_section ingested candidates s = finish_catchup s (
    sweep ingested (dates s.queue) s.in_flight candidates
      (record { queue = s.queue; enqueued = []; skipped = [] }))

-- One step of the worker thread in `_consume`. The body of the job is the environment's.
unfoldable pub pop_from : List (ℕ × Bool) → Queue → Queue
pop_from [] s = record s { worker = leaving }
pop_from ((d, manual) ∷ q) s = record s { queue = q; in_flight = some d; worker = working manual }

unfoldable pub advance_by : Worker → Queue → Queue
unfolding pop_from
advance_by absent s = s
advance_by looping s = record s { worker = if s.shut_down then leaving else entering }
advance_by entering s = pop_from s.queue s
advance_by (working manual) s = record s { in_flight = none; worker = looping }
advance_by leaving s = record s { worker = absent }

unfoldable pub advance : Queue → Queue
unfolding advance_by
advance s = advance_by s.worker s

-- shutdown, up to the join
unfoldable pub shutdown : Queue → Queue
shutdown s = record s { shut_down = true }
