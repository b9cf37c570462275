-- ===== src/Exec/Preserves.antt =====
-- Predicates of the state that an action leaves as they are.
use orkai.Prelude.{◌≡◌, refl, Bool, true, false, if◌then◌else◌}
use orkai.Result.{Result, ok, err, Error}
use orkai.Exec.{Exec, pure, throw, lift, view, catch, continue, ◌>>=◌, throw_if, or_else, ignore}

-- A state with `P` has `P` after `m` too, on both ways out.
pub record Preserves {S A : Type 0} (P : S → Type 0) (m : Exec S A) : Type 0 where
  pub at : (now : S) → P now → P (m now).1

module _ {S A B : Type 0} {P : S → Type 0} where
  then_preserves :
      (f : A → Exec S B) (now : S) (r : Result A)
      → P now
      → ((a : A) → Preserves P (f a))
      → P (continue r f now).1
  then_preserves f now (err e) p k = p
  then_preserves f now (ok a) p k = (k a).at now p

  pub Preserves-bind :
      (first : Exec S A) (next : A → Exec S B)
      → Preserves P first
      → ((a : A) → Preserves P (next a))
      → Preserves P (first >>= next)
  unfolding ◌>>=◌
  Preserves-bind first next pf pn = record {
    at = λ now p. let (r, after) = first now in then_preserves next after r (pf.at now p) pn;
  }

module _ {S A : Type 0} {P : S → Type 0} (m : Exec S A) (pm : Preserves P m) where
  pub Preserves-ignore : Preserves P (ignore m)
  unfolding ignore
  Preserves-ignore = record { at = pm.at }

  pub Preserves-catch : Preserves P (catch m)
  unfolding catch
  Preserves-catch = record { at = pm.at }

  pub Preserves-or_else : (e : Error) → Preserves P (or_else m e)
  unfolding or_else
  Preserves-or_else e = record { at = pm.at }

module _ {S A : Type 0} {P : S → Type 0} where
  pub Preserves-if :
      (test : Bool) (m n : Exec S A)
      → Preserves P m
      → Preserves P n
      → Preserves P (if test then m else n)
  Preserves-if false m n py pn = pn
  Preserves-if true m n py pn = py

  pub Preserves-view : (look : S → A) → Preserves P (view look)
  unfolding view
  Preserves-view look = record { at = λ now p. p }

  pub Preserves-lift : (outcome : Result A) → Preserves P (lift outcome)
  unfolding lift
  Preserves-lift outcome = record { at = λ now p. p }

  pub Preserves-throw : (e : Error) → Preserves P (throw {A = A} e)
  unfolding throw
  Preserves-throw e = record { at = λ now p. p }

  pub Preserves-pure : (value : A) → Preserves P (pure value)
  unfolding pure
  Preserves-pure value = record { at = λ now p. p }

module _ {S : Type 0} {P : S → Type 0} where
  pub Preserves-throw_if : (test : Bool) (e : Error) → Preserves P (throw_if test e)
  unfolding throw_if
  Preserves-throw_if true e = record { at = λ now p. p }
  Preserves-throw_if false e = record { at = λ now p. p }

module _ {S A B : Type 0} (a : B) where
  continue-pure : (r : Result A) (now : S) → (continue r (λ _. pure a) now).1 ≡ now
  unfolding pure
  continue-pure (err _) now = refl
  continue-pure (ok _) now = refl

  -- Returning a value after `m` leaves the state that `m` left.
  pub state-then_pure : (m : Exec S A) (now : S) → ((m >>= λ _. pure a) now).1 ≡ (m now).1
  unfolding ◌>>=◌
  state-then_pure m now = let (r, after) = m now in continue-pure r after

pub ruleset preserves_rules = (
  Preserves-bind, Preserves-if, Preserves-ignore, Preserves-catch, Preserves-or_else,
  Preserves-view, Preserves-lift, Preserves-throw, Preserves-throw_if, Preserves-pure,
)
