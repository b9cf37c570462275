-- ===== src/Exec/Yields.antt =====
-- What every run of an action returns: `Yields Q m` says that `m` returns a value with `Q`, from any
-- state, and never an error.
use orkai.Prelude.{Bool, true, false, if◌then◌else◌}
use orkai.Result.{Result, ok, err}
use orkai.Exec.{Exec, pure, view, catch, ignore, continue, ◌>>=◌}

abbrev pub Post : {S A : Type 0} → (A → Type 0) → Result A × S → Type 0
Post Q (ok a, _) = Q a
Post Q (err _, _) = ⊥

pub record Yields {S A : Type 0} (Q : A → Type 0) (m : Exec S A) : Type 0 where
  pub at : (s : S) → Post Q (m s)

module _ {S A : Type 0} {Q : A → Type 0} where
  pub Yields-pure : (a : A) → Q a → Yields {S = S} Q (pure a)
  unfolding pure
  Yields-pure a h = record { at = λ s. h }

  pub Yields-if :
      (b : Bool) (m n : Exec S A) → Yields Q m → Yields Q n → Yields Q (if b then m else n)
  Yields-if true m n hm hn = hm
  Yields-if false m n hm hn = hn

module _ {S A : Type 0} where
  pub Yields-view : (f : S → A) → Yields (λ _. Unit {0}) (view f)
  unfolding view
  Yields-view f = record { at = λ s. tt }

  pub Yields-catch : (m : Exec S A) → Yields (λ _. Unit {0}) (catch m)
  unfolding catch
  Yields-catch m = record { at = λ s. tt }

  pub Yields-ignore : (m : Exec S A) → Yields (λ _. Unit {0}) (ignore m)
  unfolding ignore
  Yields-ignore m = record { at = λ s. tt }

module _ {S A B : Type 0} {R : A → Type 0} {Q : B → Type 0} where
  continue-Post :
      (r : Result A) (f : A → Exec S B) (s : S)
      → Post R (r, s)
      → ((a : A) → R a → Yields Q (f a))
      → Post Q (continue r f s)
  continue-Post (ok a) f s h k = (k a h).at s
  continue-Post (err e) f s h k = absurd h

  pub Yields-bind :
      (m : Exec S A) (f : A → Exec S B)
      → Yields R m
      → ((a : A) → R a → Yields Q (f a))
      → Yields Q (m >>= f)
  unfolding ◌>>=◌
  Yields-bind m f hm hf = record {
    at = λ s. let (r, s') = m s in continue-Post r f s' (hm.at s) hf;
  }

Post-weaken :
    {S A : Type 0} {R Q : A → Type 0} (r : Result A) (s : S)
    → ((a : A) → R a → Q a)
    → Post R (r, s)
    → Post Q (r, s)
Post-weaken (ok a) s k h = k a h
Post-weaken (err e) s k h = h

pub Yields-weaken :
    {S A : Type 0} {R Q : A → Type 0} (m : Exec S A)
    → ((a : A) → R a → Q a)
    → Yields R m
    → Yields Q m
Yields-weaken m k h = record { at = λ s. let (r, s') = m s in Post-weaken r s' k (h.at s) }

-- A step whose value is of no interest, and then the rest.
pub Yields-then :
    {S A B : Type 0} {Q : B → Type 0} (m : Exec S A) (f : A → Exec S B)
    → Yields (λ _. Unit {0}) m
    → ((a : A) → Yields Q (f a))
    → Yields Q (m >>= f)
Yields-then m f hm hf = Yields-bind m f hm (λ a _. hf a)

pub ruleset yields_rules = (Yields-if, Yields-view, Yields-catch, Yields-ignore, Yields-then)
