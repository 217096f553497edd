-- ===== src/System/Ingested.antt =====
-- bluewave/orchestrator.py, catchup_missing: what it does about a date that is ingested already.
use blue_waving.Orchestrator.Window.{member-ascending, ascending}
use blue_waving.Orchestrator.Catchup.{dates-scheduled, is_fresh}
use blue_waving.Runs.History.{member-find_ingested_dates, has_ingested}
use blue_waving.Orchestrator.Missing.{catchup_missing_lem, catchup_missing}
use blue_waving.Scheduler.{catchup_or_keep}
use blue_waving.System.{Event, System, handle_event}
use blue_waving.Runs.{find_ingested_dates, RunRow}
use blue_waving.Orchestrator.{dates, Queue, wake_if}
use blue_waving.RunJob.{source_name}
use blue_waving.Config.{Config}
use blue_waving.Orchestrator.Invariant.{ensure_worker-queue}
use blue_waving.Base.{
  ℕ, ◌-◌, ◌≡◌, refl, inl, inr, Bool, true, false, Option, none, some, List, [], ◌∷◌, arith, ltb,
  ◌==◌, Bool-cases, any, member, member-select, select, any-append,
}

wake_if-queue : (ds : List ℕ) (q : Queue) → (wake_if ds q).queue ≡ q.queue
unfolding wake_if
wake_if-queue [] q = refl
wake_if-queue (d ∷ ds) q = (ensure_worker-queue q).0

not_fresh :
    (d since cap_days : ℕ) (runs : List RunRow) (queued : List ℕ) (o : Option ℕ)
    → any (has_ingested "Bluewave" d) runs ≡ true
    → member d (
        select
          (is_fresh (find_ingested_dates "Bluewave" since runs) queued o)
          (ascending since cap_days))
      ≡ false
not_fresh d since cap_days runs queued o h = ground (
  arith,
  h,
  member-select (is_fresh (find_ingested_dates "Bluewave" since runs) queued o) d
      (ascending since cap_days),
  member-find_ingested_dates "Bluewave" since d runs,
  member-ascending d since cap_days,
)

-- A date that has an `ok` or `skipped` run among the runs that a catch-up reads is not put into
-- the queue by it, and not taken out, whatever the settings, today and the cap are.
pub catch_up_skips_ingested :
    (d : ℕ) (connects : Bool) (cfg : Option Config) (today cap_days : ℕ) (s : System)
    → any (has_ingested source_name d) s.db.runs ≡ true
    → member d
        (dates (handle_event (Event.catch_up connects s.db.runs cfg today cap_days) s).queue.queue)
      ≡ member d (dates s.queue.queue)
unfolding handle_event
catch_up_skips_ingested d connects none today cap_days s h =
    unfold catchup_missing catchup_or_keep in refl
catch_up_skips_ingested d false (some cfg) today cap_days s h =
    unfold catchup_missing catchup_or_keep in
    elim (Bool-cases (ltb cap_days today)) [ inl near ↦ rw near refl | inr far ↦ rw far refl ]
catch_up_skips_ingested d true (some cfg) today cap_days s h =
    elim (Bool-cases (ltb cap_days today)) [
      | inr far ↦ unfold catchup_missing catchup_or_keep in rw far refl
      | inl near ↦
          let ingested = find_ingested_dates "Bluewave" (today - cap_days) s.db.runs in
          let fresh =
            select (is_fresh ingested (dates s.queue.queue) s.queue.in_flight)
              (ascending (today - cap_days) cap_days) in
          rw (catchup_missing_lem s.db.runs cfg today cap_days s.queue (ground (arith, near))) (
            unfold catchup_or_keep in
            rw (wake_if-queue fresh _, dates-scheduled s.queue.queue fresh)
              (ground (
                arith,
                any-append (λ y. y == d) (dates s.queue.queue) fresh,
                not_fresh d (today - cap_days) cap_days s.db.runs (dates s.queue.queue)
                    s.queue.in_flight h,
              )))
    ]
