-- ===== src/Action.antt =====
-- Code that acts on the world: it returns or raises, and what it did stays done.
pub mod Ensures
pub mod Reaches
use blue_waving.Base.{Bool, if◌then◌else◌, Result, ok, err}
use blue_waving.Exceptions.{Exn, RunFailure, failure}

abbrev pub Action : Type 0 → Type 0 → Type 0
Action S A = S → Result Exn A × S

-- `except` of the exceptions that pass `caught`: another is raised instead.
abbrev pub translate : (Exn → Bool) → Exn → Exn → Exn
translate caught new e = if caught e then new else e

module _ {S A : Type 0} where
  unfoldable pub pure : A → Action S A
  pure a s = (ok a, s)

  unfoldable pub raise : Exn → Action S A
  raise e s = (err e, s)

  -- `try: m` with a handler for every exception
  unfoldable pub catch : Action S A → (Exn → Action S A) → Action S A
  catch m handler s = let (r, s') = m s in elim r [ ok a ↦ (ok a, s') | err e ↦ handler e s' ]

  abbrev pub except_raise : (Exn → Bool) → RunFailure → Action S A → Action S A
  except_raise caught f m = catch m (λ e. raise (translate caught (failure f) e))

  -- `try: m finally: last`
  unfoldable pub finally : Action S A → Action S (Unit {0}) → Action S A
  finally m last s =
      let (r, s') = m s in
      let (q, s'') = last s' in elim q [ ok u ↦ (r, s'') | err e ↦ (err e, s'') ]

-- `except Exception: pass` and the like
unfoldable pub tolerate : {S : Type 0} → Action S (Unit {0}) → Action S (Unit {0})
tolerate m = catch m (λ e. pure tt)

infixl 5 ◌>>=◌ ◌>>◌
unfoldable pub ◌>>=◌ : {S A B : Type 0} → Action S A → (A → Action S B) → Action S B
◌>>=◌ m f s = let (r, s') = m s in elim r [ ok a ↦ f a s' | err e ↦ (err e, s') ]

abbrev pub ◌>>◌ : {S B : Type 0} → Action S (Unit {0}) → Action S B → Action S B
m >> k = m >>= λ _. k
