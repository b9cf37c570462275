-- ===== src/Store/Query.antt =====
-- The three shapes of a statement: one row, an expression over the tables, a change of the tables.
-- A model with a `soft_delete` column has, in every SELECT, UPDATE and DELETE, the condition that
-- the row is not deleted, and its DELETE writes `deleted_at`.
use orkai.Prelude.{ℕ, Bool, true, false, Option, none, some}
use orkai.Result.{Result, ok, err, no_rows}
use orkai.Exec.{Exec, lift, view, ◌>>=◌, ◌>>◌}
use orkai.World.{Db, World, Context, round_trip, on_db}

abbrev pub is_live : Option ℕ → Bool
is_live none = true
is_live (some t) = false

module _ {A : Type 0} where
  abbrev pub row : Option A → Result A
  row none = err no_rows
  row (some a) = ok a

  unfoldable pub fetch : Context → (Db → Option A) → Exec World A
  unfolding round_trip ◌>>=◌
  fetch c f = do round_trip c; found ← view (λ w. f w.db); lift (row found)

  unfoldable pub select : Context → (Db → A) → Exec World A
  unfolding round_trip ◌>>=◌
  select c f = do round_trip c; view (λ w. f w.db)

unfoldable pub exec : Context → (Db → Db) → Exec World (Unit {0})
unfolding round_trip on_db ◌>>=◌
exec c f = do round_trip c; on_db f
