-- ===== src/Prelude/Actions.antt =====
-- Statements over a state, which may raise. What a statement did to the state before it raised stays
-- done.
use mathlib.Core.Path.{◌≡◌, refl, ap}
use mathlib.Core.Bool.{Bool, true, false}
use smc_ict_engine.Prelude.Tests.{if◌then◌else◌}
use smc_ict_engine.Prelude.Results.{Result, ok, err, Error, err-ne-ok, ok_inj}

abbrev pub Action : Type 0 → Type 0 → Type 0
Action S A = S → Result A × S

module _ {S A : Type 0} where
  abbrev pub pure : A → Action S A
  pure a s = (ok a, s)

  abbrev pub lift : Result A → Action S A
  lift r s = (r, s)

  -- `try` around a statement: its outcome, as a value.
  unfoldable pub attempt : Action S A → Action S (Result A)
  attempt m s = (ok (m s).0, (m s).1)

  abbrev pub reads : (S → A) → Action S A
  reads f s = (ok (f s), s)

abbrev pub raise : {S A : Type 0} → Error → Action S A
raise e s = (err e, s)

abbrev pub writes : {S : Type 0} → (S → S) → Action S (Unit {0})
writes f s = (ok tt, f s)

abbrev pub proceed : {S A B : Type 0} → (A → Action S B) → Result A × S → Result B × S
proceed f (ok a, t) = f a t
proceed f (err e, t) = (err e, t)

module _ {S A B : Type 0} where
  infixl 5 ◌>>=◌ ◌>>◌
  unfoldable pub ◌>>=◌ : Action S A → (A → Action S B) → Action S B
  ◌>>=◌ m f s = proceed f (m s)

  abbrev pub ◌>>◌ : Action S A → Action S B → Action S B
  m >> k = m >>= λ _. k

-- An invariant of the state that a statement keeps, also where it raises.
pub record Keeps {S A : Type 0} (I : S → Type 0) (m : Action S A) : Type 0 where
  pub at : (s : S) → I s → I (m s).1

module _ {S A : Type 0} (I : S → Type 0) where
  pub lift-Keeps : (r : Result A) → Keeps I (lift {S = S} {A = A} r)
  lift-Keeps r = record { at = λ s h. h }

  pub pure-Keeps : (a : A) → Keeps I (pure {S = S} {A = A} a)
  pure-Keeps a = record { at = λ s h. h }

  pub reads-Keeps : (f : S → A) → Keeps I (reads f)
  reads-Keeps f = record { at = λ s h. h }

  pub attempt-Keeps : (m : Action S A) → Keeps I m → Keeps I (attempt m)
  unfolding attempt
  attempt-Keeps m k = record { at = λ s h. k.at s h }

module _ {S A B : Type 0} where
  proceed_keeps :
      (I : S → Type 0) (f : A → Action S B) (step : Result A × S)
      → ((a : A) → Keeps I (f a))
      → I step.1
      → I (proceed f step).1
  proceed_keeps I f (ok a, t) k h = (k a).at t h
  proceed_keeps I f (err e, t) k h = h

  pub bind-Keeps :
      (I : S → Type 0) (m : Action S A) (f : A → Action S B)
      → Keeps I m
      → ((a : A) → Keeps I (f a))
      → Keeps I (m >>= f)
  unfolding ◌>>=◌
  bind-Keeps I m f k l = record { at = λ s h. proceed_keeps I f (m s) l (k.at s h) }

  proceed_ends :
      (Mid Post : S → Type 0) (f : A → Action S B) (step : Result A × S)
      → ((a : A) (t : S) → Mid t → Post (f a t).1)
      → ((t : S) → Mid t → Post t)
      → Mid step.1
      → Post (proceed f step).1
  proceed_ends Mid Post f (ok a, t) k l h = k a t h
  proceed_ends Mid Post f (err e, t) k l h = l t h

  -- A statement that ends in `Mid`, followed by one that goes from there to `Post`.
  pub bind_ends :
      (Mid Post : S → Type 0) (m : Action S A) (f : A → Action S B) (s : S)
      → Mid (m s).1
      → ((a : A) (t : S) → Mid t → Post (f a t).1)
      → ((t : S) → Mid t → Post t)
      → Post ((m >>= f) s).1
  unfolding ◌>>=◌
  bind_ends Mid Post m f s h k l = proceed_ends Mid Post f (m s) k l h

  proceed-eq-ok :
      (f : A → Action S B) (step : Result A × S) (b : B) (t : S)
      → proceed f step ≡ (ok b, t)
      → (a : A) × (u : S) × (step ≡ (ok a, u)) × (f a u ≡ (ok b, t))
  proceed-eq-ok f (ok a, u) b t e = (a, u, refl, e)
  proceed-eq-ok f (err x, u) b t e = absurd (err-ne-ok (ap (λ r. r.0) e))

  -- A block that returned ran its first statement to a value.
  pub run-eq-ok :
      (m : Action S A) (f : A → Action S B) (s : S) (b : B) (t : S)
      → (m >>= f) s ≡ (ok b, t)
      → (a : A) × (u : S) × (m s ≡ (ok a, u)) × (f a u ≡ (ok b, t))
  unfolding ◌>>=◌
  run-eq-ok m f s b t e = proceed-eq-ok f (m s) b t e

pub if-Keeps :
    {S A : Type 0} (I : S → Type 0) (test : Bool) (m k : Action S A)
    → Keeps I m
    → Keeps I k
    → Keeps I (if test then m else k)
if-Keeps I true m k h h' = h
if-Keeps I false m k h h' = h'

-- What a statement did, by what `attempt` returned.
pub attempt-eq-ok :
    {S A : Type 0} (m : Action S A) (s t : S) (answer : Result A)
    → attempt m s ≡ (ok answer, t)
    → m s ≡ (answer, t)
unfolding attempt
attempt-eq-ok m s t answer h = cc (ok_inj (ap (λ p. p.0) h), ap (λ p. p.1) h)

module _ {S A B : Type 0} (f : A → Action S B) where
  proceed_ok : (step : Result A × S) (a : A) → step.0 ≡ ok a → proceed f step ≡ f a step.1
  proceed_ok (ok b, t) a h = ap (λ x. f x t) (ok_inj h)
  proceed_ok (err e, t) a h = absurd (err-ne-ok h)

  -- A block goes on from a statement that returned.
  pub bind_ok : (m : Action S A) (s : S) (a : A) → (m s).0 ≡ ok a → (m >>= f) s ≡ f a (m s).1
  unfolding ◌>>=◌
  bind_ok m s a = proceed_ok (m s) a
