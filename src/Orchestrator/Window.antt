-- ===== src/Orchestrator/Window.antt =====
-- bluewave/orchestrator.py, catchup_missing: the candidates.
use blue_waving.Exceptions.{Exn, overflow_error}
use blue_waving.Base.{
  ℕ, zero, suc, ◌+◌, ◌-◌, ◌≤◌, ◌<◌, ◌≡◌, refl, ap, ◌∙◌, false, ◌&&◌, List, [], ◌∷◌, arith, ltb, leb,
  if◌then◌else◌, member, Distinct, Result, ok, err,
}

-- `today - timedelta(days=i)` raises below `date.min`, whose ordinal is 1.
unfoldable pub minus_days : ℕ → ℕ → Result Exn ℕ
minus_days today i = if ltb i today then ok (today - i) else err overflow_error

-- `sorted`
insert_sorted : ℕ → List ℕ → List ℕ
insert_sorted x [] = x ∷ []
insert_sorted x (y ∷ ys) = if leb x y then x ∷ y ∷ ys else y ∷ insert_sorted x ys

unfoldable pub sorted : List ℕ → List ℕ
unfolding insert_sorted
sorted [] = []
sorted (x ∷ xs) = insert_sorted x (sorted xs)

-- `today_local - timedelta(days=i) for i in range(i, i + n)`
unfoldable pub days_before : ℕ → ℕ → ℕ → List ℕ
days_before today i zero = []
days_before today i (suc n) = (today - i) ∷ days_before today (suc i) n

unfoldable pub candidates : ℕ → ℕ → List ℕ
unfolding sorted days_before
candidates today cap_days = sorted (days_before today 1 cap_days)

abbrev pub ascending : ℕ → ℕ → List ℕ
ascending a zero = []
ascending a (suc n) = a ∷ ascending (suc a) n

insert-last : (a n : ℕ) → insert_sorted (a + n) (ascending a n) ≡ ascending a (suc n)
unfolding insert_sorted
insert-last a zero = ground arith
insert-last a (suc n) = ground (arith, insert-last (suc a) n)

sorted-days_before :
    (today i n : ℕ)
    → i + n ≤ today + 1
    → 0 < i
    → sorted (days_before today i n) ≡ ascending (today + 1 - (i + n)) n
unfolding sorted days_before
sorted-days_before today i zero h p = refl
sorted-days_before today i (suc n) h p =
    let e : today - i ≡ (today + 1 - (i + suc n)) + n = omega arith in
    let e' : today + 1 - (suc i + n) ≡ today + 1 - (i + suc n) = omega arith in
    rw (sorted-days_before today (suc i) n (omega arith) (omega arith), e', e)
      (insert-last (today + 1 - (i + suc n)) n)

-- With a cap below the ordinal of today, the sorted candidates are the cap_days days before today,
-- in ascending order.
pub candidates-eq-ascending :
    (today cap_days : ℕ)
    → cap_days < today
    → candidates today cap_days ≡ ascending (today - cap_days) cap_days
unfolding candidates
candidates-eq-ascending today cap_days h =
    sorted-days_before today 1 cap_days (omega arith) (omega arith)
    ∙ ap (λ (a : ℕ). ascending a cap_days) (omega arith)

member-ascending_below : (x a n : ℕ) → x < a → member x (ascending a n) ≡ false
member-ascending_below x a zero h = refl
member-ascending_below x a (suc n) h =
    ground (arith, member-ascending_below x (suc a) n (omega arith))

pub ascending-Distinct : (a n : ℕ) → Distinct (ascending a n)
ascending-Distinct a zero = tt
ascending-Distinct a (suc n) =
    (member-ascending_below a (suc a) n (omega arith), ascending-Distinct (suc a) n)

pub member-ascending : (x a n : ℕ) → member x (ascending a n) ≡ (leb a x && ltb x (a + n))
member-ascending x a zero = ground arith
member-ascending x a (suc n) = ground (arith, member-ascending x (suc a) n)
