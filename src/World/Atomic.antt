-- ===== src/World/Atomic.antt =====
-- Round trips and transactions, by what they leave on each way out.
use orkai.Prelude.{Bool, true, false, List, [], ◌∷◌}
use orkai.Result.{Result, ok, err}
use orkai.Exec.{Exec}
use orkai.Exec.Triple.{Both, Triple}
use orkai.World.{
  Db, World, Context, background, round_trip, tx, spend, reach, then_commit, with_value, commit,
  begin,
}

-- A predicate of the database, as one of the world.
abbrev pub On : (Db → Type 0) → World → Type 0
On P w = P w.db

spend-On :
    (P : Db → Type 0) (fs : List Bool) (w : World) → On P w → Both (λ _. On P) (On P) (spend fs w)
unfolding spend
spend-On P [] w h = h
spend-On P (true ∷ fs) w h = h
spend-On P (false ∷ fs) w h = h

reach-On : (P : Db → Type 0) (b : Bool) (w : World) → On P w → Both (λ _. On P) (On P) (reach b w)
unfolding reach spend
reach-On P true w h = h
reach-On P false w h = spend-On P w.faults w h

module _ (P : Db → Type 0) (c : Context) where
  pub round_trip-On : Triple (On P) (round_trip c) (λ _. On P) (On P)
  unfolding round_trip
  round_trip-On = record { at = λ w h. reach-On P _ w h }

module _ {A : Type 0} (P : Db → Type 0) (Q : A → Db → Type 0) where
  commit-On :
      (before : Db) (r : Result A) (w : World)
      → P before
      → Both (λ a. On (Q a)) (λ _. Unit {0}) (r, w)
      → Both (λ a. On (Q a)) (On P) (commit before (r, w))
  unfolding commit
  commit-On before (ok _) w p h = h
  commit-On before (err e) w p h = p

  with_value-On :
      (a : A) (r : Result (Unit {0})) (w : World)
      → Both (λ _. On (Q a)) (On (Q a)) (r, w)
      → Both (λ a. On (Q a)) (λ _. Unit {0}) (with_value a (r, w))
  unfolding with_value
  with_value-On a (ok _) w h = h
  with_value-On a (err e) w h = tt

  then_commit-On :
      (r : Result A) (w : World)
      → Both (λ a. On (Q a)) (λ _. Unit {0}) (r, w)
      → Both (λ a. On (Q a)) (λ _. Unit {0}) (then_commit r w)
  unfolding then_commit
  then_commit-On (ok a) w h =
      let (r, w') = round_trip background w in
      with_value-On a r w' ((round_trip-On (Q a) background).at w h)
  then_commit-On (err e) w h = tt

  begin-On :
      (body : Exec World A) (before : Db) (r : Result (Unit {0})) (w : World)
      → P before
      → Triple (On P) body (λ a. On (Q a)) (λ _. Unit {0})
      → Both (λ _. On P) (On P) (r, w)
      → Both (λ a. On (Q a)) (On P) (begin body before r w)
  unfolding begin commit
  begin-On body before (err e) w p k h = h
  begin-On body before (ok _) w p k h =
      let (r, w1) = body w in
      let (r', w2) = then_commit r w1 in commit-On before r' w2 p (then_commit-On r w1 (k.at w h))

  -- A transaction takes effect whole, or leaves the database as it was.
  pub tx-On :
      (body : Exec World A)
      → Triple (On P) body (λ a. On (Q a)) (λ _. Unit {0})
      → Triple (On P) (tx body) (λ a. On (Q a)) (On P)
  unfolding tx
  tx-On body k = record {
    at = λ w h.
        let (r, w') = round_trip background w in
        begin-On body w.db r w' h k ((round_trip-On P background).at w h);
  }
