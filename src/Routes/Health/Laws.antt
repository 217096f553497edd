-- ===== src/Routes/Health/Laws.antt =====
-- bluewave/routes.py: the next run lies within a day, the time until then is told to the minute, and
-- what healthz answers.
use blue_waving.Base.{
  ℕ, zero, suc, ◌+◌, ◌*◌, ◌/◌, ◌%◌, ◌≤◌, ◌<◌, ◌≡◌, refl, ap, ◌∙◌, inl, inr, Bool, true, ◌&&◌,
  Option, none, some, List, [], ◌∷◌, ◌++◌, arith, leb, Bool-cases, every, Text, ℤ, pos, negsuc, ok,
  bind-eq-ok,
}
use blue_waving.Scheduler.{Surroundings, zone_info}
use mathlib.Core.Path.{subst}
use blue_waving.Routes.Health.{
  next_run_at, LocalTime, clock, day_seconds, replace_clock, tomorrow_if_past, EtaPart, days, hours,
  minutes, part_if, minutes_if, eta_parts,
}

-- The seconds that the parts stand for.
abbrev pub total : List EtaPart → ℕ
total [] = 0
total (days n ∷ ps) = n * 86400 + total ps
total (hours n ∷ ps) = n * 3600 + total ps
total (minutes n ∷ ps) = n * 60 + total ps

abbrev pub fits : EtaPart → Bool
fits (days n) = leb 1 n
fits (hours n) = leb 1 n && leb n 23
fits (minutes n) = leb n 59

total-append : (ps qs : List EtaPart) → total (ps ++ qs) ≡ total ps + total qs
total-append [] qs = omega arith
total-append (days n ∷ ps) qs = omega (arith, total-append ps qs)
total-append (hours n ∷ ps) qs = omega (arith, total-append ps qs)
total-append (minutes n ∷ ps) qs = omega (arith, total-append ps qs)

total-days : (n : ℕ) → total (part_if n days) ≡ n * 86400
unfolding part_if
total-days zero = refl
total-days (suc n) = omega arith

total-hours : (n : ℕ) → total (part_if n hours) ≡ n * 3600
unfolding part_if
total-hours zero = refl
total-hours (suc n) = omega arith

total-minutes_if : (n : ℕ) (ps : List EtaPart) → total (minutes_if n ps) ≡ total ps + n * 60
unfolding minutes_if part_if
total-minutes_if n [] = omega arith
total-minutes_if zero (p ∷ ps) = rw (total-append (p ∷ ps) []) (omega arith)
total-minutes_if (suc n) (p ∷ ps) = rw (total-append (p ∷ ps) (minutes (suc n) ∷ [])) (omega arith)

fits-append :
    (ps qs : List EtaPart)
    → every fits ps ≡ true
    → every fits qs ≡ true
    → every fits (ps ++ qs) ≡ true
fits-append [] qs h h' = h'
fits-append (p ∷ ps) qs h h' =
    let rest = fits-append ps qs (ground (arith, h)) h' in ground (arith, h, rest)

fits-days : (n : ℕ) → every fits (part_if n days) ≡ true
unfolding part_if
fits-days zero = refl
fits-days (suc n) = ground arith

fits-hours : (n : ℕ) → n ≤ 23 → every fits (part_if n hours) ≡ true
unfolding part_if
fits-hours zero h = refl
fits-hours (suc n) h = ground arith

fits-minutes_if :
    (n : ℕ) (ps : List EtaPart)
    → n ≤ 59
    → every fits ps ≡ true
    → every fits (minutes_if n ps) ≡ true
unfolding minutes_if part_if
fits-minutes_if n [] h h' = ground arith
fits-minutes_if zero (p ∷ ps) h h' = fits-append (p ∷ ps) [] h' refl
fits-minutes_if (suc n) (p ∷ ps) h h' =
    fits-append (p ∷ ps) (minutes (suc n) ∷ []) h' (ground arith)

-- The days, hours and minutes that are told add up to the given seconds less than a minute short,
-- with at most 23 hours and 59 minutes, and no part for days or hours that is 0.
pub eta_parts_bounds :
    (secs : ℕ)
    → (total (eta_parts secs) ≤ secs)
      × (secs < total (eta_parts secs) + 60)
      × (every fits (eta_parts secs) ≡ true)
unfolding eta_parts
eta_parts_bounds secs =
    let t =
      total-minutes_if (secs % 3600 / 60)
        (part_if (secs / 86400) days ++ part_if (secs % 86400 / 3600) hours)
      ∙ ap (λ x. x + secs % 3600 / 60 * 60)
          (total-append (part_if (secs / 86400) days) (part_if (secs % 86400 / 3600) hours)
            ∙ ap (λ x. x + total (part_if (secs % 86400 / 3600) hours)) (total-days (secs / 86400))
            ∙ ap (λ x. secs / 86400 * 86400 + x) (total-hours (secs % 86400 / 3600))) in
    (
      rw t (omega arith),
      rw t (omega arith),
      fits-minutes_if (secs % 3600 / 60)
          (part_if (secs / 86400) days ++ part_if (secs % 86400 / 3600) hours) (omega arith)
          (fits-append (part_if (secs / 86400) days) (part_if (secs % 86400 / 3600) hours)
            (fits-days (secs / 86400)) (fits-hours (secs % 86400 / 3600) (omega arith))),
    )

-- The clock of the zone shows a time of the day.
abbrev pub IsTime : LocalTime → Type 0
IsTime t = (t.second < day_seconds) × (t.microsecond < 1000000)

tomorrow_bounds :
    (now t : LocalTime)
    → IsTime now
    → t.day ≡ now.day
    → t.second < day_seconds
    → t.microsecond ≡ 0
    → (clock now < clock (tomorrow_if_past now t))
      × (clock (tomorrow_if_past now t) ≤ clock now + day_seconds * 1000000)
unfolding tomorrow_if_past
tomorrow_bounds now t h e s m = elim (Bool-cases (leb (clock t) (clock now))) [
  | inl late ↦ (let l : clock t ≤ clock now = ground arith in rw late (omega arith, omega arith))
  | inr early ↦ (let l : clock now < clock t = ground arith in rw early (omega arith, omega arith))
]

-- Hour and minute of a schedule that the clock can show, and the day's time for them.
abbrev pub Shows : ℤ × ℤ → LocalTime → Type 0
Shows hm t =
    (h : ℕ) × (m : ℕ) × (hm ≡ (pos h, pos m))
    × (h ≤ 23)
    × (m ≤ 59)
    × (t.second ≡ h * 3600 + m * 60)
    × (t.microsecond ≡ 0)

replaced :
    (now : LocalTime) (hm : ℤ × ℤ) (t : LocalTime)
    → replace_clock now hm ≡ ok t
    → Shows hm t × (t.day ≡ now.day)
unfolding replace_clock
replaced now (pos h, pos m) t e = elim (Bool-cases (leb h 23 && leb m 59)) [
  | inl fit ↦
      (let at : LocalTime = record {
        day = now.day;
        second = h * 3600 + m * 60;
        microsecond = 0;
        fold = now.fold;
      } in
        let v : at ≡ t = cc (rw fit at e) in
        subst (λ x. Shows (pos h, pos m) x × (x.day ≡ now.day)) v
          ((h, m, refl, ground (arith, fit), ground (arith, fit), refl, refl), refl))
  | inr out ↦ cc (rw out at e)
]
replaced now (negsuc h, m) t e = cc
replaced now (pos h, negsuc m) t e = cc

tomorrow-Shows : (now t : LocalTime) (hm : ℤ × ℤ) → Shows hm t → Shows hm (tomorrow_if_past now t)
unfolding tomorrow_if_past
tomorrow-Shows now t hm s = elim (Bool-cases (leb (clock t) (clock now))) [
  | inl late ↦ rw late s
  | inr early ↦ rw early s
]

-- The time is shown on the clock, after now, and within a day.
abbrev pub IsNext : LocalTime → ℤ × ℤ → LocalTime → Type 0
IsNext now hm t = Shows hm t × (clock now < clock t) × (clock t ≤ clock now + day_seconds * 1000000)

replaced-IsNext :
    (now : LocalTime) (hm : ℤ × ℤ) (t : LocalTime)
    → IsTime now
    → replace_clock now hm ≡ ok t
    → IsNext now hm (tomorrow_if_past now t)
replaced-IsNext now hm t h e =
    let ((x, y, q, xs, ys, sec, micro), d) = replaced now hm t e in
    let b = tomorrow_bounds now t h d (rw sec (omega arith)) micro in
    (tomorrow-Shows now t hm (x, y, q, xs, ys, sec, micro), b.0, b.1)

known_zone : (w : Surroundings) (name zone : Text) → zone_info w name ≡ ok zone → name ≡ zone
unfolding zone_info
known_zone w name zone e = elim (Bool-cases (w.knows_zone name)) [
  | inl known ↦ cc (rw known at e)
  | inr unknown ↦ cc (rw unknown at e)
]

pub next_run_at-IsNext :
    (w : Surroundings) (now_in : Text → LocalTime) (name : Text) (o : Option (ℤ × ℤ))
    (t : LocalTime)
    → IsTime (now_in name)
    → next_run_at w now_in name o ≡ ok (some t)
    → (hm : ℤ × ℤ) × (o ≡ some hm) × IsNext (now_in name) hm t
unfolding next_run_at
next_run_at-IsNext w now_in name none t h e = cc
next_run_at-IsNext w now_in name (some hm) t h e =
    let zoned = bind-eq-ok (zone_info w name) _ e in
    let (zone, known, e') = zoned in
    let (u, at, e'') = bind-eq-ok (replace_clock (now_in zone) hm) _ e' in
    let same : name ≡ zone = known_zone w name zone known in
    let v : tomorrow_if_past (now_in zone) u ≡ t = cc e'' in
    (
      hm,
      refl,
      subst (IsNext (now_in name) hm) v (
          subst
            (λ z.
              replace_clock (now_in z) hm ≡ ok u
              → IsNext (now_in name) hm (tomorrow_if_past (now_in z) u))
            same (λ at'. replaced-IsNext (now_in name) hm u h at') at),
    )
