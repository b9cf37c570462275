-- ===== src/Exec.antt =====
-- How a Go method is modelled: it takes the state, and gives back a value or an error together with
-- the state as it is then. An error undoes nothing.
pub mod Preserves
pub mod Yields
pub mod Triple
use orkai.Prelude.{Bool, true, false}
use orkai.Result.{Result, ok, err, Error}

abbrev pub Exec : Type 0 → Type 0 → Type 0
Exec State Value = State → Result Value × State

module _ {S : Type 0} where
  -- `if test { return e }`
  unfoldable pub throw_if : Bool → Error → Exec S (Unit {0})
  throw_if true e now = (err e, now)
  throw_if false e now = (ok tt, now)

  unfoldable pub modify : (S → S) → Exec S (Unit {0})
  modify change now = (ok tt, change now)

module _ {A : Type 0} where
  abbrev pub replace : Error → Result A → Result A
  replace e (ok a) = ok a
  replace e (err _) = err e

module _ {S A : Type 0} where
  -- `if err != nil { return e }`, whatever the error was.
  unfoldable pub or_else : Exec S A → Error → Exec S A
  or_else m e now = let (r, after) = m now in (replace e r, after)

  -- `err == nil` and the like: the error becomes a value, and the caller goes on.
  unfoldable pub catch : Exec S A → Exec S (Result A)
  catch m now = let (r, after) = m now in (ok r, after)

  -- `_ = f()`, and calls whose error is only logged.
  unfoldable pub ignore : Exec S A → Exec S (Unit {0})
  ignore m now = let (_, after) = m now in (ok tt, after)

  unfoldable pub lift : Result A → Exec S A
  lift outcome now = (outcome, now)

  unfoldable pub view : (S → A) → Exec S A
  view look now = (ok (look now), now)

  unfoldable pub throw : Error → Exec S A
  throw e now = (err e, now)

  unfoldable pub pure : A → Exec S A
  pure value now = (ok value, now)

module _ {S A B : Type 0} where
  abbrev pub continue : Result A → (A → Exec S B) → Exec S B
  continue (err e) next now = (err e, now)
  continue (ok value) next now = next value now

  -- Opening this opens the operations above as well.
  infixl 10 ◌>>=◌ ◌>>◌
  unfoldable pub ◌>>=◌ : Exec S A → (A → Exec S B) → Exec S B
  unfolding throw_if modify or_else catch ignore lift view throw pure
  ◌>>=◌ first next now = let (r, after) = first now in continue r next after

  abbrev pub ◌>>◌ : Exec S A → Exec S B → Exec S B
  first >> second = first >>= λ _. second
