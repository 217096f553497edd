-- ===== src/Action/Reaches.antt =====
-- What an action does from one state: what holds where it returns, and what where it raises.
use blue_waving.Action.{Action, pure, raise, catch, ◌>>=◌}
use blue_waving.Base.{◌≡◌, refl, ap, Bool, true, false, if◌then◌else◌, Result, ok, err}
use blue_waving.Exceptions.{Exn}
use blue_waving.Action.Ensures.{Ensures, Ensured}

abbrev pub Ended :
    {S A : Type 0} → (Exn → S → Type 0) → (A → S → Type 0) → Result Exn A → S → Type 0
Ended E Q (ok a) s = Q a s
Ended E Q (err e) s = E e s

-- Of a raise nothing is said.
abbrev pub Whatever : {S : Type 0} → Exn → S → Type 0
Whatever e t = Unit

pub record Reaches {S A : Type 0} (E : Exn → S → Type 0) (Q : A → S → Type 0) (m : Action S A)
    (s : S) : Type 0 where
  pub at : Ended E Q (m s).0 (m s).1

module _ {S A : Type 0} {E : Exn → S → Type 0} {Q : A → S → Type 0} where
  pub Reaches-pure : (a : A) (s : S) → Q a s → Reaches E Q (pure a) s
  unfolding pure
  Reaches-pure a s q = record { at = q }

  pub Reaches-raise : (e : Exn) (s : S) → E e s → Reaches E Q (raise e) s
  unfolding raise
  Reaches-raise e s h = record { at = h }

  pub Reaches-if :
      (b : Bool) (m n : Action S A) (s : S)
      → (b ≡ true → Reaches E Q m s)
      → (b ≡ false → Reaches E Q n s)
      → Reaches E Q (if b then m else n) s
  Reaches-if true m n s hm hn = hm refl
  Reaches-if false m n s hm hn = hn refl

  handled :
      {F : Exn → S → Type 0} (handler : Exn → Action S A) (r : Result Exn A) (s : S)
      → ((e : Exn) (t : S) → F e t → Reaches E Q (handler e) t)
      → Ended F Q r s
      → let t = elim r as (λ _. Result Exn A × S) [ ok a ↦ (ok a, s) | err e ↦ handler e s ] in
        Ended E Q t.0 t.1
  handled handler (ok a) s h o = o
  handled handler (err e) s h o = (h e s o).at

  pub Reaches-catch :
      {F : Exn → S → Type 0} (m : Action S A) (handler : Exn → Action S A) (s : S)
      → Reaches F Q m s
      → ((e : Exn) (t : S) → F e t → Reaches E Q (handler e) t)
      → Reaches E Q (catch m handler) s
  unfolding catch
  Reaches-catch {F} m handler s hm hh = record {
    at = handled {F = F} handler (m s).0 (m s).1 hh hm.at;
  }

module _ {S A B : Type 0} {E : Exn → S → Type 0} {Q : A → S → Type 0} {R : B → S → Type 0} where
  after :
      (f : A → Action S B) (r : Result Exn A) (s : S)
      → ((a : A) (t : S) → Q a t → Reaches E R (f a) t)
      → Ended E Q r s
      → let t = elim r as (λ _. Result Exn B × S) [ ok a ↦ f a s | err e ↦ (err e, s) ] in
        Ended E R t.0 t.1
  after f (ok a) s h q = (h a s q).at
  after f (err e) s h q = q

  pub Reaches-bind :
      (m : Action S A) (f : A → Action S B) (s : S)
      → Reaches E Q m s
      → ((a : A) (t : S) → Q a t → Reaches E R (f a) t)
      → Reaches E R (m >>= f) s
  unfolding ◌>>=◌
  Reaches-bind m f s hm hf = record { at = after f (m s).0 (m s).1 hf hm.at }

weakened :
    {S A : Type 0} {E F : Exn → S → Type 0} {Q R : A → S → Type 0} (r : Result Exn A) (s : S)
    → ((e : Exn) (t : S) → E e t → F e t)
    → ((a : A) (t : S) → Q a t → R a t)
    → Ended E Q r s
    → Ended F R r s
weakened (ok a) s he hq o = hq a s o
weakened (err e) s he hq o = he e s o

pub Reaches-weaken :
    {S A : Type 0} {E F : Exn → S → Type 0} {Q R : A → S → Type 0} (m : Action S A) (s : S)
    → ((e : Exn) (t : S) → E e t → F e t)
    → ((a : A) (t : S) → Q a t → R a t)
    → Reaches E Q m s
    → Reaches F R m s
Reaches-weaken m s he hq h = record { at = weakened (m s).0 (m s).1 he hq h.at }

module _ {S A : Type 0} (P : S → Type 0) (allowed : Exn → Bool) (Q : A → Type 0) where
  reached :
      (r : Result Exn A) (s : S)
      → P s
      → Ensured allowed Q r
      → Ended (λ e t. P t × allowed e ≡ true) (λ a t. P t × Q a) r s
  reached (ok a) s p o = (p, o)
  reached (err e) s p o = (p, o)

  ensured :
      (r : Result Exn A) (s : S)
      → Ended (λ e t. P t × allowed e ≡ true) (λ a t. P t × Q a) r s
      → P s × Ensured allowed Q r
  ensured (ok a) s o = o
  ensured (err e) s o = o

module _ {S A : Type 0} {P : S → Type 0} {allowed : Exn → Bool} {Q : A → Type 0} where
  pub Ensures-Reaches :
      (m : Action S A) (s : S)
      → Ensures P allowed Q m
      → P s
      → Reaches (λ e t. P t × allowed e ≡ true) (λ a t. P t × Q a) m s
  Ensures-Reaches m s h p =
      let q = h.at s p in record { at = reached P allowed Q (m s).0 (m s).1 q.0 q.1 }

  pub Reaches-Ensures :
      (m : Action S A)
      → ((s : S) → P s → Reaches (λ e t. P t × allowed e ≡ true) (λ a t. P t × Q a) m s)
      → Ensures P allowed Q m
  Reaches-Ensures m h = record { at = λ s p. ensured P allowed Q (m s).0 (m s).1 (h s p).at }

-- Of an action of which nothing is known.
reached_any :
    {S A : Type 0} (r : Result Exn A) (s : S) → Ended (λ e t. Unit {0}) (λ a t. Unit {0}) r s
reached_any (ok a) s = tt
reached_any (err e) s = tt

pub Reaches-any :
    {S A : Type 0} (m : Action S A) (s : S) → Reaches (λ e t. Unit {0}) (λ a t. Unit {0}) m s
Reaches-any m s = record { at = reached_any (m s).0 (m s).1 }

-- What returns and what raises end in the same sort of state.
both :
    {S A : Type 0} (Q : S → Type 0) (r : Result Exn A) (s : S)
    → Ended (λ e t. Q t) (λ a t. Q t) r s
    → Q s
both Q (ok a) s q = q
both Q (err e) s q = q

pub Reaches-both :
    {S A : Type 0} (Q : S → Type 0) (m : Action S A) (s : S)
    → Reaches (λ e t. Q t) (λ a t. Q t) m s
    → Q (m s).1
Reaches-both Q m s h = both Q (m s).0 (m s).1 h.at

pub bind_ok :
    {S A B : Type 0} (m : Action S A) (f : A → Action S B) (s : S) (a : A)
    → (m s).0 ≡ ok a
    → (m >>= f) s ≡ f a (m s).1
unfolding ◌>>=◌
bind_ok {S} {A} {B} m f s a h =
    ap (λ r. elim r as (λ _. Result Exn B × S) [ ok x ↦ f x (m s).1 | err e ↦ (err e, (m s).1) ]) h
