-- ===== src/Examples/Queues.antt =====
-- The theorems on the table of runs and the queue, at concrete inputs.
use blue_waving.Base.{suc, ◌-◌, ◌≡◌, refl, true, some, [], ◌∷◌, ◌++◌, arith, select, ok}
use blue_waving.Runs.{find_ingested_dates}
use blue_waving.Orchestrator.{init, absent, try_enqueue, wake_if}
use blue_waving.Orchestrator.Window.{ascending}
use blue_waving.Orchestrator.Catchup.{is_fresh, is_waiting, scheduled}
use blue_waving.Orchestrator.Draining.{steps, jobs, accepted_by_leaving_stays}
use blue_waving.Orchestrator.Missing.{catchup_missing, catchup_missing_lem}
use blue_waving.Examples.{settings, old_run, busy, dying}

catchup_missing_lem_example :
    let ingested = find_ingested_dates "Bluewave" (739684 - 4) (old_run ∷ []) in
    let fresh = select (is_fresh ingested (739682 ∷ []) (some 739683)) (ascending (739684 - 4) 4) in
    let waiting =
      select (is_waiting ingested (739682 ∷ []) (some 739683)) (ascending (739684 - 4) 4) in
    catchup_missing true (old_run ∷ []) (some settings) 739684 4 busy
    ≡ ok
        ((fresh, waiting), wake_if fresh (record busy { queue = (739682, true) ∷ scheduled fresh }))
catchup_missing_lem_example =
    catchup_missing_lem (old_run ∷ []) settings 739684 4 busy (omega arith)

accepted_by_dying : (try_enqueue 739684 true dying).0.accepted ≡ true
unfolding try_enqueue init
accepted_by_dying = refl

accepted_by_leaving_stays_example :
    let t = steps (suc 9) (try_enqueue 739684 true dying).1 in
    (t.queue ≡ dying.queue ++ (739684, true) ∷ [])
    × (t.worker ≡ absent)
    × (jobs (suc 9) (try_enqueue 739684 true dying).1 ≡ [])
accepted_by_leaving_stays_example =
    accepted_by_leaving_stays 739684 true dying 9 refl accepted_by_dying
