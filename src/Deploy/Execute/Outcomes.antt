-- ===== src/Deploy/Execute/Outcomes.antt =====
-- What a deploy job leaves in the database.
use orkai.Prelude.{ℕ, String, ◌≡◌, refl, ◌∙◌, ap, Bool, true, false, some, List, [], find?}
use orkai.Result.{ok}
use orkai.Exec.{catch, ◌>>=◌}
use orkai.Exec.Preserves.{preserves_rules, state-then_pure}
use orkai.Model.Deploys.{Deployment, Application, DeployStatus, AppStatus}
use orkai.World.{World, Db, live, job}
use orkai.Store.Reads.{Reads, Calm, get_project-Calm}
use orkai.Store.Deploys as Deploys
use orkai.Store.Deploys.{by_id, app_by_id, save, save_app, put_status}
use orkai.Deploy.Env.{Env, DeployOpts, returns, perform}
use orkai.Deploy.Common.{is_terminal, update_deploy, set_app_status}
use orkai.Deploy.Common.Notices.{notify_deploy-Reads}
use orkai.Deploy.Build.{build_stage}
use orkai.Deploy.Execute.{
  announce, succeed, deployed, on_target, with_secret, deploy_stage, execute_deploy, run_deploy_job,
}

module _ (env : Env) where
  announce-Reads :
      (app : Application) (d : Deployment)
      → app.autoscaling_enabled ≡ false
      → Reads (announce env app d)
  unfolding announce
  announce-Reads app d fixed db = rw fixed (search (preserves_rules, notify_deploy-Reads))

  -- The writes of a successful deploy, in their order.
  db-succeed :
      (app : Application) (d : Deployment) (w : World)
      → w.faults ≡ []
      → w.job_err ≡ live
      → app.autoscaling_enabled ≡ false
      → (succeed env app d w).1.db
        ≡ save_app app (
            put_status app.id AppStatus.running
              (save (record d { status = DeployStatus.success; image = app.docker_image }) w.db))
  unfolding succeed update_deploy set_app_status Deploys.update Deploys.update_app_status
      Deploys.update_app ◌>>=◌
  db-succeed app d w faults ctx fixed = rw (faults, ctx) ((announce-Reads app _ fixed _).at _ refl)

module _ (env : Env) where
  -- From the registry's credentials on, when every call succeeds.
  db-with_secret :
      (app : Application) (d : Deployment) (vars : List (String × String)) (db : Db)
      (secret : String) (before during : Db → Db) (t : ℕ) (w : World)
      → app.autoscaling_enabled ≡ false
      → env.pull_secret ≡ returns secret before
      → env.target ≡ ok tt
      → ((o : DeployOpts) → env.deploy o ≡ returns tt during)
      → Calm db t w
      → ((catch (perform env.pull_secret) >>= λ s. with_secret env s app d vars) w).1.db
        ≡ save_app app (
            put_status app.id AppStatus.running (
              save
                (record d {
                  status = DeployStatus.success;
                  image = app.docker_image;
                  finished_at = some t;
                })
                (during (before db))))
  unfolding with_secret on_target deployed perform ◌>>=◌
  db-with_secret app d vars db secret before during t w fixed pull target deploy calm =
      rw (pull, target, deploy, calm.on, calm.tables, calm.clock)
        (db-succeed _ app (record d { finished_at = some t }) _ calm.up refl fixed)

  -- From the end of the build on.
  db-deploy_stage :
      (app : Application) (d : Deployment) (secret : String) (before during : Db → Db) (w : World)
      → app.autoscaling_enabled ≡ false
      → env.pull_secret ≡ returns secret before
      → env.target ≡ ok tt
      → ((o : DeployOpts) → env.deploy o ≡ returns tt during)
      → w.faults ≡ []
      → w.job_err ≡ live
      → (deploy_stage env app d w).1.db
        ≡ save_app app (
            put_status app.id AppStatus.running (
              save
                (record d {
                  status = DeployStatus.success;
                  image = app.docker_image;
                  finished_at = some w.now;
                })
                (during (before (save (record d { status = DeployStatus.deploying }) w.db)))))
  unfolding deploy_stage update_deploy Deploys.update ◌>>=◌
  db-deploy_stage app d secret before during w fixed pull target deploy up on =
      rw (up, on)
        (db-with_secret app (record d { status = DeployStatus.deploying }) _
          (save (record d { status = DeployStatus.deploying }) w.db) secret before during w.now _
          fixed pull target deploy
          ((get_project-Calm job app.project_id _ w.now).at _
            (record { up = refl; on = refl; tables = refl; clock = refl })))

  -- A job for a deployment that has ended does nothing.
  pub run_deploy_job-terminal :
      (deploy_id : ℕ) (force : Bool) (w : World) (d : Deployment)
      → w.faults ≡ []
      → find? (by_id deploy_id) w.db.deployments ≡ some d
      → is_terminal d.status ≡ true
      → run_deploy_job env deploy_id force w ≡ (ok tt, w)
  unfolding run_deploy_job Deploys.get_by_id ◌>>=◌
  run_deploy_job-terminal deploy_id force w d h found ended = rw (h, found, ended) refl

-- A job that finds its deployment queued and its application built from an image.
pub record Ready (id : ℕ) (d : Deployment) (app : Application) (w : World) : Type 0 where
  pub up : w.faults ≡ []
  pub row : find? (by_id id) w.db.deployments ≡ some d
  pub queued : d.status ≡ DeployStatus.queued
  pub uncancelled : d.cancel_requested ≡ false
  pub app_row : find? (app_by_id d.app_id) w.db.applications ≡ some app
  pub from_image : app.from_git ≡ false
  pub fixed_size : app.autoscaling_enabled ≡ false

-- The calls of a deploy that goes through, with what others write to the database during it.
pub record Goes (env : Env) (during : Db → Db) : Type 0 where
  pub secret : String
  pub pull : env.pull_secret ≡ returns secret (λ db. db)
  pub target : env.target ≡ ok tt
  pub deploy : (o : DeployOpts) → env.deploy o ≡ returns tt during

module _ (env : Env) (during : Db → Db) (goes : Goes env during) (id : ℕ) (force : Bool)
    (d : Deployment) (app : Application) (w : World) (ready : Ready id d app w) where
  pub db-run_deploy_job :
      (run_deploy_job env id force w).1.db
      ≡ save_app app (
          put_status app.id AppStatus.running (
            save
              (record d {
                status = DeployStatus.success;
                image = app.docker_image;
                started_at = some w.now;
                finished_at = some w.now;
              })
              (during (
                save
                  (record d { status = DeployStatus.deploying; started_at = some w.now })
                  w.db))))
  unfolding run_deploy_job execute_deploy build_stage Deploys.get_by_id Deploys.get_app ◌>>=◌
  db-run_deploy_job =
      let app' = record app { from_git = false } in
      let d' = record d {
        status = DeployStatus.queued;
        cancel_requested = false;
        started_at = some w.now;
      } in
      let w1 = record w { faults = []; job_err = live } in
      rw (ready.up, ready.row, ready.queued, ready.uncancelled, ready.app_row, ready.from_image)
        (ap (λ (v : World). v.db) (state-then_pure tt (deploy_stage env app' d') w1)
          ∙ db-deploy_stage env app' d' goes.secret (λ db. db) during w1 ready.fixed_size goes.pull
              goes.target goes.deploy refl refl)
