-- ===== src/Routes/Laws.antt =====
-- bluewave/routes.py, post_run: its answers and the queue.
use blue_waving.Base.{
  ℕ, ◌-◌, ◌<◌, ◌≡◌, refl, sym, ap, ◌∙◌, inl, inr, true, false, ◌||◌, Option, none, some, [], ◌∷◌,
  ◌++◌, arith, Bool-cases, length, member, Text, ℤ, Result, ok, err, bind-eq-ok,
}
use blue_waving.Config.{Config, MultiFernet, ConfigFile, load}
use blue_waving.Web.{lift_sound, HttpError, lift}
use blue_waving.Exceptions.{Exn}
use blue_waving.Orchestrator.{Queue, EnqueueResult, try_enqueue, dates, is_in_flight, ensure_worker}
use blue_waving.Scheduler.{Surroundings, zone_info}
use blue_waving.Routes.{
  configured, today_local, requested_date, past_date, exceeds, within_cap, run_date, respond,
  enqueue_date, post_run,
}

configured-eq-ok :
    (r : Result Exn (Option Config)) (cfg : Config) → configured r ≡ ok cfg → r ≡ ok (some cfg)
unfolding configured
configured-eq-ok (err x) cfg e = cc e
configured-eq-ok (ok none) cfg e = cc e
configured-eq-ok (ok (some c)) cfg e = cc e

past_date-eq-ok : (today d d' : ℕ) → past_date today d ≡ ok d' → (d ≡ d') × (d' < today)
unfolding past_date
past_date-eq-ok today d d' e = ground (arith, e)

within_cap-eq-ok :
    (today d d' : ℕ) (cap : ℤ)
    → within_cap today cap d ≡ ok d'
    → (d ≡ d') × (exceeds (today - d') cap ≡ false)
unfolding within_cap
within_cap-eq-ok today d d' cap e = elim (Bool-cases (exceeds (today - d) cap)) [
  | inl far ↦ cc (rw far at e)
  | inr near ↦ let same : d ≡ d' = cc (rw near at e) in (same, rw (← same) near)
]

-- What is known of a date that is let through.
pub record Admitted (w : Surroundings) (stored : Result Exn (Option Config)) (cap : Result Exn ℤ)
    (d : ℕ) : Type 0 where
  pub cfg : Config
  pub cap_days : ℤ
  pub saved : stored ≡ ok (some cfg)
  pub known_zone : w.knows_zone cfg.operator_timezone ≡ true
  pub past : d < w.today_in cfg.operator_timezone
  pub has_cap : cap ≡ ok cap_days
  pub recent : exceeds (w.today_in cfg.operator_timezone - d) cap_days ≡ false

today_local-eq-ok :
    (w : Surroundings) (cfg : Config) (today : ℕ)
    → today_local w cfg ≡ ok today
    → (w.knows_zone cfg.operator_timezone ≡ true) × (w.today_in cfg.operator_timezone ≡ today)
unfolding today_local zone_info lift
today_local-eq-ok w cfg today e = elim (Bool-cases (w.knows_zone cfg.operator_timezone)) [
  | inl h ↦ (h, cc (rw h at e))
  | inr h ↦ cc (rw h at e)
]

run_date-Admitted :
    (w : Surroundings) (stored : Result Exn (Option Config)) (cap : Result Exn ℤ)
    (body : Option Text) (d : ℕ)
    → run_date w stored cap body ≡ ok d
    → Admitted w stored cap d
unfolding run_date
run_date-Admitted w stored cap body d e =
    let (cfg, p, q) = bind-eq-ok (configured stored) _ e in
    let (today, p1, q1) = bind-eq-ok (today_local w cfg) _ q in
    let (d1, p2, q2) = bind-eq-ok (requested_date today body) _ q1 in
    let (d2, p3, q3) = bind-eq-ok (past_date today d1) _ q2 in
    let (c, p4, q4) = bind-eq-ok (lift cap) _ q3 in
    let z = today_local-eq-ok w cfg today p1 in
    let past = past_date-eq-ok today d1 d2 p3 in
    let near = within_cap-eq-ok today d2 d c q4 in
    record {
      cfg = cfg;
      cap_days = c;
      saved = configured-eq-ok stored cfg p;
      known_zone = z.0;
      past = rw (z.1, sym near.0) past.1;
      has_cap = lift_sound cap c p4;
      recent = rw z.1 near.1;
    }

-- What a manual run that was accepted has done.
pub record Enqueued (w : Surroundings) (mf : MultiFernet) (file : ConfigFile) (cap : Result Exn ℤ)
    (q q' : Queue) (d depth : ℕ) : Type 0 where
  pub admitted : Admitted w (load mf file) cap d
  pub not_pending : (is_in_flight d q.in_flight || member d (dates q.queue)) ≡ false
  pub appended : q'.queue ≡ q.queue ++ (d, true) ∷ []
  pub told : depth ≡ length q'.queue

ensure_worker-queue : (q : Queue) → (ensure_worker q).queue ≡ q.queue
unfolding ensure_worker
ensure_worker-queue q = ground arith

accepted_date :
    (d : ℕ) (q : Queue)
    → (is_in_flight d q.in_flight || member d (dates q.queue)) ≡ false
    → ((try_enqueue d true q).0.accepted ≡ true)
      × ((try_enqueue d true q).1.queue ≡ q.queue ++ (d, true) ∷ [])
      × ((try_enqueue d true q).0.queue_depth ≡ length (q.queue ++ (d, true) ∷ []))
unfolding try_enqueue
accepted_date d q idle =
    rw idle (refl, ensure_worker-queue (record q { queue = q.queue ++ (d, true) ∷ [] }), refl)

refused_date :
    (d : ℕ) (q : Queue)
    → (is_in_flight d q.in_flight || member d (dates q.queue)) ≡ true
    → ((try_enqueue d true q).0.accepted ≡ false) × ((try_enqueue d true q).1 ≡ q)
unfolding try_enqueue
refused_date d q busy = rw busy (refl, refl)

respond-ok :
    (d d' depth : ℕ) (r : EnqueueResult × Queue)
    → (respond d r).0 ≡ ok (d', depth)
    → (r.0.accepted ≡ true) × (d ≡ d') × (r.0.queue_depth ≡ depth)
unfolding respond
respond-ok d d' depth (r, q) e = elim (Bool-cases r.accepted) [
  | inl taken ↦ (taken, cc (rw taken at e), cc (rw taken at e))
  | inr left ↦ cc (rw left at e)
]

enqueue_date-ok :
    (r : Result HttpError ℕ) (q : Queue) (d depth : ℕ)
    → (enqueue_date r q).0 ≡ ok (d, depth)
    → (r ≡ ok d)
      × ((is_in_flight d q.in_flight || member d (dates q.queue)) ≡ false)
      × ((enqueue_date r q).1.queue ≡ q.queue ++ (d, true) ∷ [])
      × (depth ≡ length (enqueue_date r q).1.queue)
unfolding enqueue_date
enqueue_date-ok (err x) q d depth e = cc e
enqueue_date-ok (ok d') q d depth e =
    let (accepted, same, told) = respond-ok d' d depth (try_enqueue d' true q) e in
    elim (Bool-cases (is_in_flight d' q.in_flight || member d' (dates q.queue))) [
      | inl busy ↦ cc (accepted, (refused_date d' q busy).0)
      | inr idle ↦
          let (_, grown, deep) = accepted_date d' q idle in
          (
            ap ok same,
            rw (← same) idle,
            cc (grown, same),
            sym told ∙ (deep ∙ ap length (sym grown)),
          )
    ]

enqueue_date-err :
    (r : Result HttpError ℕ) (q : Queue) (x : HttpError)
    → (enqueue_date r q).0 ≡ err x
    → (enqueue_date r q).1 ≡ q
unfolding enqueue_date respond try_enqueue
enqueue_date-err (err y) q x e = refl
enqueue_date-err (ok d') q x e =
    elim (Bool-cases (is_in_flight d' q.in_flight || member d' (dates q.queue))) [
      | inl busy ↦ rw busy
      | inr idle ↦ cc (rw idle at e)
    ]

-- If post_run answers 202, the request has passed its gate, the worker is configured, the date is
-- before today in the operator's zone and within the cap, it was not pending, and the queue has
-- grown by it as a manual run; the answer tells the date and the new depth.
pub post_run-Enqueued :
    (gate : Result HttpError Text) (w : Surroundings) (mf : MultiFernet) (file : ConfigFile)
    (cap : Result Exn ℤ) (body : Option Text) (q : Queue) (d depth : ℕ)
    → (post_run gate w mf file cap body q).0 ≡ ok (d, depth)
    → ((user : Text) × (gate ≡ ok user))
      × Enqueued w mf file cap q (post_run gate w mf file cap body q).1 d depth
unfolding post_run
post_run-Enqueued gate w mf file cap body q d depth e =
    let (run, idle, grown, told) = enqueue_date-ok _ q d depth e in
    let (user, passed, date) = bind-eq-ok gate _ run in
    (
      (user, passed),
      record {
        admitted = run_date-Admitted w (load mf file) cap body d date;
        not_pending = idle;
        appended = grown;
        told = told;
      },
    )

-- If post_run answers with an error, the queue is as it was.
pub post_run-err :
    (gate : Result HttpError Text) (w : Surroundings) (mf : MultiFernet) (file : ConfigFile)
    (cap : Result Exn ℤ) (body : Option Text) (q : Queue) (x : HttpError)
    → (post_run gate w mf file cap body q).0 ≡ err x
    → (post_run gate w mf file cap body q).1 ≡ q
unfolding post_run
post_run-err gate w mf file cap body q x e = enqueue_date-err _ q x e
