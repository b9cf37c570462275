-- ===== src/Store/Deploys.antt =====
-- apps/api/internal/store/pg/deployment_store.go and application_store.go
pub mod Rows
use orkai.Prelude.{
  ℕ, suc, Bool, Option, none, some, List, [], ◌∷◌, ◌++◌, ◌&&◌, ◌==◌, leb, find?, update_where,
  if◌then◌else◌,
}
use orkai.Exec.{Exec, view, ◌>>=◌, ◌>>◌}
use orkai.Model.Deploys.{Deployment, Application, AppStatus}
use orkai.World.{Db, World, Context, round_trip, on_db}
use orkai.Store.Query.{is_live, fetch, exec}

abbrev pub by_id : ℕ → Deployment → Bool
by_id id d = (d.id == id) && is_live d.deleted_at

abbrev pub app_by_id : ℕ → Application → Bool
app_by_id id a = (a.id == id) && is_live a.deleted_at

unfoldable pub get_by_id : Context → ℕ → Exec World Deployment
unfolding fetch
get_by_id c id = fetch c (λ db. find? (by_id id) db.deployments)

abbrev pub insert_deployment : Deployment → ℕ → Db → Db
insert_deployment d now db = record db {
  deployments = db.deployments ++ record d { id = db.next_id; created_at = now } ∷ [];
  next_id = suc db.next_id;
}

unfoldable pub create : Context → Deployment → Exec World Deployment
unfolding round_trip on_db ◌>>=◌
create c d = do
  round_trip c
  id ← view (λ w. w.db.next_id)
  now ← view (λ w. w.now)
  on_db (insert_deployment d now)
  view (λ w. record d { id = id; created_at = now })

abbrev pub save : Deployment → Db → Db
save d db = record db { deployments = update_where (by_id d.id) (λ _. d) db.deployments }

-- Every column is written from the value in memory.
unfoldable pub update : Context → Deployment → Exec World (Unit {0})
unfolding exec
update c d = exec c (save d)

-- The first of the newest rows of an application.
abbrev pub newest : ℕ → Option Deployment → List Deployment → Option Deployment
newest app_id best [] = best
newest app_id none (d ∷ ds) =
    newest app_id (if (d.app_id == app_id) && is_live d.deleted_at then some d else none) ds
newest app_id (some b) (d ∷ ds) =
    newest app_id
      (if (d.app_id == app_id) && is_live d.deleted_at && leb (suc b.created_at) d.created_at
        then some d
        else some b)
      ds

unfoldable pub get_latest_by_app : Context → ℕ → Exec World Deployment
unfolding fetch
get_latest_by_app c app_id = fetch c (λ db. newest app_id none db.deployments)

unfoldable pub get_app : Context → ℕ → Exec World Application
unfolding fetch
get_app c id = fetch c (λ db. find? (app_by_id id) db.applications)

abbrev pub save_app : Application → Db → Db
save_app a db = record db { applications = update_where (app_by_id a.id) (λ _. a) db.applications }

unfoldable pub update_app : Context → Application → Exec World (Unit {0})
unfolding exec
update_app c a = exec c (save_app a)

abbrev pub put_status : ℕ → AppStatus → Db → Db
put_status id status db = record db {
  applications = update_where (app_by_id id) (λ a. record a { status = status }) db.applications;
}

unfoldable pub update_app_status : Context → ℕ → AppStatus → Exec World (Unit {0})
unfolding exec
update_app_status c id status = exec c (put_status id status)
