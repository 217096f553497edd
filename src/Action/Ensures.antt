-- ===== src/Action/Ensures.antt =====
-- What an action ensures, by how it is built: it keeps `P`, raises only what `allowed` lets pass, and
-- returns what satisfies `Q`.
use blue_waving.Base.{
  ◌≡◌, refl, inl, inr, Bool, true, false, if◌then◌else◌, Bool-cases, Result, ok, err,
}
use mathlib.Core.Path.{subst}
use blue_waving.Exceptions.{Exn, RunFailure, failure}
use blue_waving.Action.{Action, pure, raise, catch, finally, translate, except_raise, ◌>>=◌}

abbrev pub Ensured : {A : Type 0} → (Exn → Bool) → (A → Type 0) → Result Exn A → Type 0
Ensured allowed Q (ok a) = Q a
Ensured allowed Q (err e) = allowed e ≡ true

pub record Ensures {S A : Type 0} (P : S → Type 0) (allowed : Exn → Bool) (Q : A → Type 0)
    (m : Action S A) : Type 0 where
  pub at : (s : S) → P s → P (m s).1 × Ensured allowed Q (m s).0

-- Of a result nothing is said.
abbrev pub Any : {A : Type 0} → A → Type 0
Any a = Unit

translate-allowed :
    (allowed caught : Exn → Bool) (new e : Exn)
    → allowed new ≡ true
    → allowed e ≡ true
    → allowed (translate caught new e) ≡ true
translate-allowed allowed caught new e hn he = elim (Bool-cases (caught e)) [
  | inl hit ↦ rw hit hn
  | inr miss ↦ rw miss he
]

module _ {S A : Type 0} {P : S → Type 0} {allowed : Exn → Bool} {Q : A → Type 0} where
  pub Ensures-pure : (a : A) → Q a → Ensures P allowed Q (pure a)
  unfolding pure
  Ensures-pure a q = record { at = λ s h. (h, q) }

  pub Ensures-raise : (e : Exn) → allowed e ≡ true → Ensures P allowed Q (raise e)
  unfolding raise
  Ensures-raise e h = record { at = λ s p. (p, h) }

  pub Ensures-if :
      (b : Bool) (m n : Action S A)
      → (b ≡ true → Ensures P allowed Q m)
      → (b ≡ false → Ensures P allowed Q n)
      → Ensures P allowed Q (if b then m else n)
  Ensures-if true m n hm hn = hm refl
  Ensures-if false m n hm hn = hn refl

  handled :
      {raised : Exn → Bool} (handler : Exn → Action S A) (r : Result Exn A) (s : S)
      → ((e : Exn) → raised e ≡ true → Ensures P allowed Q (handler e))
      → P s
      → Ensured raised Q r
      → let t = elim r as (λ _. Result Exn A × S) [ ok a ↦ (ok a, s) | err e ↦ handler e s ] in
        P t.1 × Ensured allowed Q t.0
  handled handler (ok a) s h p o = (p, o)
  handled handler (err e) s h p o = (h e o).at s p

  pub Ensures-catch :
      {raised : Exn → Bool} (m : Action S A) (handler : Exn → Action S A)
      → Ensures P raised Q m
      → ((e : Exn) → raised e ≡ true → Ensures P allowed Q (handler e))
      → Ensures P allowed Q (catch m handler)
  unfolding catch
  Ensures-catch {raised} m handler hm hh = record {
    at = λ s p. let q = hm.at s p in handled {raised = raised} handler (m s).0 (m s).1 hh q.0 q.1;
  }

  pub Ensures-except :
      {raised : Exn → Bool} (caught : Exn → Bool) (f : RunFailure) (m : Action S A)
      → Ensures P raised Q m
      → allowed (failure f) ≡ true
      → ((e : Exn) → raised e ≡ true → allowed e ≡ true)
      → Ensures P allowed Q (except_raise caught f m)
  Ensures-except {raised} caught f m hm hf he =
      Ensures-catch {raised = raised} m _ hm
        (λ e r. Ensures-raise _ (translate-allowed allowed caught (failure f) e hf (he e r)))

module _ {S A : Type 0} (P : S → Type 0) (allowed : Exn → Bool) (Q : A → Type 0) where
  finished :
      (r : Result Exn A) (q : Result Exn Unit) (s : S)
      → P s
      → Ensured allowed Q r
      → Ensured allowed Any q
      → let t = elim q as (λ _. Result Exn A × S) [ ok u ↦ (r, s) | err e ↦ (err e, s) ] in
        P t.1 × Ensured allowed Q t.0
  finished r (ok u) s p o o' = (p, o)
  finished r (err e) s p o o' = (p, o')

module _ {S A : Type 0} {P : S → Type 0} {allowed : Exn → Bool} {Q : A → Type 0} where
  pub Ensures-finally :
      (m : Action S A) (last : Action S Unit)
      → Ensures P allowed Q m
      → Ensures P allowed Any last
      → Ensures P allowed Q (finally m last)
  unfolding finally
  Ensures-finally m last hm hl = record {
    at = λ s p.
        let q = hm.at s p in
        let q' = hl.at (m s).1 q.0 in
        finished P allowed Q (m s).0 (last (m s).1).0 (last (m s).1).1 q'.0 q.1 q'.1;
  }

  -- What it raises is allowed.
  pub Ensures-err :
      (m : Action S A) (s : S) (e : Exn)
      → Ensures P allowed Q m
      → P s
      → (m s).0 ≡ err e
      → allowed e ≡ true
  Ensures-err m s e h p failed = subst (Ensured allowed Q) failed (h.at s p).1

module _ {S A B : Type 0} {P : S → Type 0} {allowed : Exn → Bool} {Q : A → Type 0}
    {R : B → Type 0} where
  after :
      (f : A → Action S B) (r : Result Exn A) (s : S)
      → ((a : A) → Q a → Ensures P allowed R (f a))
      → P s
      → Ensured allowed Q r
      → let t = elim r as (λ _. Result Exn B × S) [ ok a ↦ f a s | err e ↦ (err e, s) ] in
        P t.1 × Ensured allowed R t.0
  after f (ok a) s h p q = (h a q).at s p
  after f (err e) s h p q = (p, q)

  pub Ensures-bind :
      (m : Action S A) (f : A → Action S B)
      → Ensures P allowed Q m
      → ((a : A) → Q a → Ensures P allowed R (f a))
      → Ensures P allowed R (m >>= f)
  unfolding ◌>>=◌
  Ensures-bind m f hm hf = record {
    at = λ s p. let q = hm.at s p in after f (m s).0 (m s).1 hf q.0 q.1;
  }

weakened :
    {A : Type 0} {allowed wider : Exn → Bool} {Q R : A → Type 0} (r : Result Exn A)
    → ((e : Exn) → allowed e ≡ true → wider e ≡ true)
    → ((a : A) → Q a → R a)
    → Ensured allowed Q r
    → Ensured wider R r
weakened (ok a) he hq o = hq a o
weakened (err e) he hq o = he e o

module _ {S A : Type 0} {P : S → Type 0} {allowed wider : Exn → Bool} {Q R : A → Type 0} where
  pub Ensures-weaken :
      (m : Action S A)
      → ((e : Exn) → allowed e ≡ true → wider e ≡ true)
      → ((a : A) → Q a → R a)
      → Ensures P allowed Q m
      → Ensures P wider R m
  Ensures-weaken m he hq h = record {
    at = λ s p. let q = h.at s p in (q.0, weakened (m s).0 he hq q.1);
  }

pub ruleset ensures_rules = (Ensures-pure, Ensures-raise, Ensures-if, Ensures-catch, Ensures-bind)
