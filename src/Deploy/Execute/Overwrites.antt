-- ===== src/Deploy/Execute/Overwrites.antt =====
-- What the last writes of a deploy job do to rows that changed while it ran.
use orkai.Prelude.{ℕ, ◌≡◌, Bool, true, false, none, some, List, find?, find?-sound, arith}
use orkai.Model.Deploys.{Deployment, Application, DeployStatus, AppStatus}
use orkai.World.{World, Db}
use orkai.Store.Deploys.{by_id, app_by_id, save, put_status}
use orkai.Store.Deploys.Rows.{find?-save, find?-save_app, find?-put_status}
use orkai.Deploy.Env.{Env}
use orkai.Deploy.Execute.{run_deploy_job}
use orkai.Deploy.Execute.Outcomes.{Ready, Goes, db-run_deploy_job}

-- The row while the target deploys, and as the job saves it in the end.
abbrev deploying : Deployment → World → Deployment
deploying d w = record d { status = DeployStatus.deploying; started_at = some w.now }

abbrev succeeded : Deployment → Application → World → Deployment
succeeded d app w = record d {
  status = DeployStatus.success;
  image = app.docker_image;
  started_at = some w.now;
  finished_at = some w.now;
}

app_id : (id : ℕ) (a : Application) → app_by_id id a ≡ true → a.id ≡ id
app_id id a h = ground arith

app_self :
    (apps : List Application) (id : ℕ) (a : Application)
    → find? (app_by_id id) apps ≡ some a
    → find? (app_by_id a.id) apps ≡ some a
app_self apps id a e = let h = find?-sound (app_by_id id) apps a e in simp (app_id id a h) e

app_alive : (id : ℕ) (a : Application) → app_by_id id a ≡ true → a.deleted_at ≡ none
app_alive id a h = ground arith

deploy_alive : (id : ℕ) (d : Deployment) → by_id id d ≡ true → d.deleted_at ≡ none
deploy_alive id d h = ground arith

module _ (env : Env) (id : ℕ) (force : Bool) (d : Deployment) (app : Application) (w : World)
    (ready : Ready id d app w) where
  -- A job that is `Ready`, whose calls succeed and to which nobody else writes meanwhile, leaves
  -- the application as it was when the job loaded it, its status included: the write of the whole
  -- row undoes the write of the status `running`.
  pub run_deploy_job-stale_status :
      Goes env (λ db. db)
      → find? (app_by_id app.id) (run_deploy_job env id force w).1.db.applications ≡ some app
  run_deploy_job-stale_status goes =
      let alive =
        app_alive d.app_id app
          (find?-sound (app_by_id d.app_id) w.db.applications app ready.app_row) in
      let db1 = save (succeeded d app w) (save (deploying d w) w.db) in
      rw (db-run_deploy_job env (λ db. db) goes id force d app w ready) (
        find?-save_app app alive (put_status app.id AppStatus.running db1)
          (record app { status = AppStatus.running })
          (find?-put_status app alive db1 AppStatus.running
            (app_self w.db.applications d.app_id app ready.app_row)))

  -- A job that is `Ready` and whose calls succeed, its context still live, saves its own copy of
  -- the deployment's row over whatever the row holds by then: a cancellation that is requested
  -- while the target deploys is lost, and the deployment ends as a success with no cancellation
  -- requested.
  pub run_deploy_job-lost_cancel :
      (during : Db → Db) (cancelled : Deployment)
      → Goes env during
      → find? (by_id d.id) (during (save (deploying d w) w.db)).deployments ≡ some cancelled
      → find? (by_id d.id) (run_deploy_job env id force w).1.db.deployments
        ≡ some (record d {
          status = DeployStatus.success;
          cancel_requested = false;
          image = app.docker_image;
          started_at = some w.now;
          finished_at = some w.now;
        })
  run_deploy_job-lost_cancel during cancelled goes row =
      let alive = deploy_alive id d (find?-sound (by_id id) w.db.deployments d ready.row) in
      rw (db-run_deploy_job env during goes id force d app w ready) (
        rw⁻¹ ready.uncancelled
          (find?-save (succeeded d app w) alive (during (save (deploying d w) w.db)) cancelled row))
