-- ===== src/Deploy/Common/Cancelling.antt =====
-- `finalizeCancelled` leaves the deployment cancelled, whatever the target reports.
use orkai.Prelude.{
  ℕ, String, ◌≡◌, refl, ◌∙◌, Option, none, some, List, [], arith, update_where, if◌then◌else◌,
}
use orkai.Result.{Result, ok, err}
use orkai.Exec.{pure, ◌>>=◌, ◌>>◌}
use orkai.Exec.Preserves.{Preserves, preserves_rules}
use orkai.Model.Accounts.{Project}
use orkai.Model.Deploys.{Deployment, Application, DeployStatus, AppStatus}
use orkai.World.{World, Db, Context, request, on_db, notify, round_trip}
use orkai.Store.Query.{fetch, select, exec}
use orkai.Store.Projects as Projects
use orkai.Store.Deploys as Deploys
use orkai.Store.Deploys.{by_id, save, put_status}
use orkai.Deploy.Env.{Env, perform}
use orkai.Deploy.Common.{
  to_org, notify_deploy, set_app_status, update_deploy, live_phase, still_running,
  finalize_cancelled, cancel_log,
}

-- The database is up, and the deployments are `ds`.
pub record Rows (ds : List Deployment) (w : World) : Type 0 where
  pub up : w.faults ≡ []
  pub rows : w.db.deployments ≡ ds

module _ (ds : List Deployment) (c : Context) where
  round_trip-Rows : Preserves (Rows ds) (round_trip c)
  unfolding round_trip
  round_trip-Rows = record { at = λ w h. ground arith }

module _ {A : Type 0} (ds : List Deployment) (c : Context) where
  fetch-Rows : (f : Db → Option A) → Preserves (Rows ds) (fetch c f)
  unfolding fetch
  fetch-Rows f = search (preserves_rules, round_trip-Rows)

  select-Rows : (f : Db → A) → Preserves (Rows ds) (select c f)
  unfolding select
  select-Rows f = search (preserves_rules, round_trip-Rows)

module _ (ds : List Deployment) where
  get_project-Rows : (c : Context) (id : ℕ) → Preserves (Rows ds) (Projects.get_by_id c id)
  unfolding Projects.get_by_id Projects.attach_team
  get_project-Rows c id = search (preserves_rules, fetch-Rows, select-Rows)

  to_org-Rows :
      (app : Application) (event : String) (p : Result Project)
      → Preserves (Rows ds) (to_org app event p)
  unfolding to_org notify
  to_org-Rows app event (ok p) = record { at = λ w h. record { up = h.up; rows = h.rows } }
  to_org-Rows app event (err e) = search preserves_rules

  notify_deploy-Rows :
      (app : Application) (event : String) → Preserves (Rows ds) (notify_deploy app event)
  unfolding notify_deploy
  notify_deploy-Rows app event = search (preserves_rules, get_project-Rows, to_org-Rows)

  put_status-Rows :
      (id : ℕ) (status : AppStatus) → Preserves (Rows ds) (on_db (put_status id status))
  unfolding on_db
  put_status-Rows id status = record { at = λ w h. record { up = h.up; rows = h.rows } }

  set_app_status-Rows :
      (c : Context) (id : ℕ) (status : AppStatus) → Preserves (Rows ds) (set_app_status c id status)
  unfolding set_app_status Deploys.update_app_status exec
  set_app_status-Rows c id status = search (preserves_rules, round_trip-Rows, put_status-Rows)

-- A deployment as it is finalized at a time.
abbrev pub cancelled_at : Deployment → ℕ → Deployment
cancelled_at d now = record d {
  status = DeployStatus.cancelled;
  finished_at = some now;
  build_log = cancel_log d.build_log;
}

-- The target's report changes no deployment.
abbrev pub Undisturbed : Env → Type 0
Undisturbed env = (db : Db) → (env.phase.meanwhile db).deployments ≡ db.deployments

module _ (env : Env) (quiet : Undisturbed env) (ds : List Deployment) where
  phase-Rows : Preserves (Rows ds) (perform env.phase)
  unfolding perform
  phase-Rows = record { at = λ w h. record { up = h.up; rows = quiet w.db ∙ h.rows } }

  live_phase-Rows : (r : Result (Unit {0})) → Preserves (Rows ds) (live_phase env r)
  unfolding live_phase
  live_phase-Rows (ok _) = search (preserves_rules, phase-Rows)
  live_phase-Rows (err e) = search preserves_rules

  still_running-Rows : (app : Option Application) → Preserves (Rows ds) (still_running env app)
  unfolding still_running
  still_running-Rows none = search preserves_rules
  still_running-Rows (some app) = search (preserves_rules, notify_deploy-Rows, live_phase-Rows)

  -- The application's status after the report.
  restored-Rows :
      (app : Option Application) (d : Deployment)
      → Preserves (Rows ds) (
          still_running env app >>= λ running.
          set_app_status request d.app_id (if running then AppStatus.running else AppStatus.idle)
          >> pure d)
  restored-Rows app d = search (preserves_rules, still_running-Rows, set_app_status-Rows)

module _ (env : Env) (quiet : Undisturbed env) (d : Deployment) (app : Option Application)
    (w : World) (up : w.faults ≡ []) where
  pub finalize_cancelled-Rows :
      Rows
        (update_where (by_id d.id) (λ _. cancelled_at d w.now) w.db.deployments)
        (finalize_cancelled env request d app w).1
  unfolding finalize_cancelled update_deploy Deploys.update ◌>>=◌
  finalize_cancelled-Rows =
      let ds = update_where (by_id d.id) (λ _. cancelled_at d w.now) w.db.deployments in
      rw up (
        (restored-Rows env quiet ds app (cancelled_at d w.now)).at
          (record w { db = save (cancelled_at d w.now) w.db; faults = [] })
          (record { up = refl; rows = refl }))
