-- ===== src/Store/Reads.antt =====
-- Queries that write nothing: whatever fails, the database is as it was.
use orkai.Prelude.{ℕ, ◌≡◌, Option, [], arith}
use orkai.Exec.{Exec}
use orkai.Exec.Preserves.{Preserves, preserves_rules}
use orkai.World.{Db, World, Context, live, round_trip}
use orkai.Store.Query.{fetch, select}
use orkai.Store.Users as Users
use orkai.Store.Projects as Projects

abbrev pub HasDb : Db → World → Type 0
HasDb db w = w.db ≡ db

-- `m` writes nothing.
abbrev pub Reads : {A : Type 0} → Exec World A → Type 0
Reads m = (db : Db) → Preserves (HasDb db) m

pub round_trip-Reads : (c : Context) → Reads (round_trip c)
unfolding round_trip
round_trip-Reads c db = record { at = λ w h. ground arith }

module _ {A : Type 0} where
  pub fetch-Reads : (c : Context) (f : Db → Option A) → Reads (fetch c f)
  unfolding fetch
  fetch-Reads c f db = search (preserves_rules, round_trip-Reads)

  pub select-Reads : (c : Context) (f : Db → A) → Reads (select c f)
  unfolding select
  select-Reads c f db = search (preserves_rules, round_trip-Reads)

pub get_user-Reads : (c : Context) (id : ℕ) → Reads (Users.get_by_id c id)
unfolding Users.get_by_id
get_user-Reads c id = fetch-Reads c _

pub get_project-Reads : (c : Context) (id : ℕ) → Reads (Projects.get_by_id c id)
unfolding Projects.get_by_id Projects.attach_team
get_project-Reads c id db = search (preserves_rules, fetch-Reads, select-Reads)

-- The database is up, the job's context is live, the time is `t`, and the tables are `db`.
pub record Calm (db : Db) (t : ℕ) (w : World) : Type 0 where
  pub up : w.faults ≡ []
  pub on : w.job_err ≡ live
  pub tables : w.db ≡ db
  pub clock : w.now ≡ t

pub round_trip-Calm : (c : Context) (db : Db) (t : ℕ) → Preserves (Calm db t) (round_trip c)
unfolding round_trip
round_trip-Calm c db t = record { at = λ w h. ground arith }

module _ {A : Type 0} where
  pub fetch-Calm :
      (c : Context) (f : Db → Option A) (db : Db) (t : ℕ) → Preserves (Calm db t) (fetch c f)
  unfolding fetch
  fetch-Calm c f db t = search (preserves_rules, round_trip-Calm)

  pub select-Calm :
      (c : Context) (f : Db → A) (db : Db) (t : ℕ) → Preserves (Calm db t) (select c f)
  unfolding select
  select-Calm c f db t = search (preserves_rules, round_trip-Calm)

pub get_project-Calm :
    (c : Context) (id : ℕ) (db : Db) (t : ℕ) → Preserves (Calm db t) (Projects.get_by_id c id)
unfolding Projects.get_by_id Projects.attach_team
get_project-Calm c id db t = search (preserves_rules, fetch-Calm, select-Calm)
