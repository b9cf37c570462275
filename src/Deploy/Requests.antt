-- ===== src/Deploy/Requests.antt =====
-- The requests of deploy_service.go: `Trigger`, `Cancel`, `Rollback`.
pub mod Outcomes
pub mod Cancelling
use orkai.Prelude.{
  ℕ, String, Bool, true, false, Option, none, some, List, [], ◌∷◌, ◌&&◌, not, ◌||◌, if◌then◌else◌,
}
use orkai.Result.{Result, ok, err, Error, formatted, wrapped}
use orkai.Exec.{Exec, pure, throw, lift, view, catch, throw_if, ◌>>=◌, ◌>>◌}
use orkai.Model.Deploys.{
  Deployment, Application, DeployStatus, AppStatus, deploy_status_eq, app_status_text,
  deploy_status_text,
}
use orkai.Model.Jobs.{new_deploy_job}
use orkai.World.{World, request}
use orkai.Store.Deploys as Deploys
use orkai.Store.Jobs as Queue
use orkai.Deploy.Env.{Env, perform}
use orkai.Deploy.Common.{update_deploy, set_app_status, finalize_cancelled}

abbrev pub is_busy : AppStatus → Bool
is_busy AppStatus.building = true
is_busy AppStatus.deploying = true
is_busy AppStatus.restarting = true
is_busy AppStatus.stopping = true
is_busy _ = false

pub record TriggerInput : Type 0 where
  pub app_id : ℕ
  pub force_build : Bool
  pub triggered_by : Option ℕ
  pub trigger_type : String

abbrev pub new_deployment : Application → TriggerInput → Deployment
new_deployment app input = record {
  id = 0;
  created_at = 0;
  deleted_at = none;
  app_id = app.id;
  status = DeployStatus.queued;
  cancel_requested = false;
  commit_sha = "";
  image = "";
  build_log = [];
  started_at = none;
  finished_at = none;
  trigger_type = input.trigger_type;
  triggered_by = input.triggered_by;
  app_name = app.name;
  project_id = app.project_id;
}

-- A failed enqueue finalizes the row that was just created. `text` is `err.Error()`.
enqueued : (Error → String) → Result (Unit {0}) → Application → Deployment → Exec World Deployment
unfolding update_deploy set_app_status
enqueued text (ok _) app d = do set_app_status request app.id AppStatus.building; pure d
enqueued text (err e) app d = do
  now ← view (λ w. w.now)
  update_deploy request (record d {
    status = DeployStatus.failed;
    finished_at = some now;
    build_log = "Failed to enqueue deploy job: " ∷ text e ∷ [];
  })
  lift (err (wrapped "enqueue deploy job" e))

unfoldable pub trigger : (Error → String) → TriggerInput → Exec World Deployment
unfolding enqueued
trigger text input = do
  app ← Deploys.get_app request input.app_id
  throw_if (is_busy app.status)
      (formatted "app is currently %s, wait for it to finish first" (app_status_text app.status))
  d ← Deploys.create request (new_deployment app input)
  sent ← catch (Queue.enqueue request (new_deploy_job d.id input.force_build))
  enqueued text sent app d

abbrev pub in_progress : DeployStatus → Bool
in_progress s =
    deploy_status_eq s DeployStatus.queued
    || deploy_status_eq s DeployStatus.building
    || deploy_status_eq s DeployStatus.deploying

abbrev found_app : Result Application → Option Application
found_app (ok app) = some app
found_app (err e) = none

abbrev wrap : String → Result (Unit {0}) → Result (Unit {0})
wrap context (ok _) = ok tt
wrap context (err e) = err (wrapped context e)

module _ (env : Env) where
  -- `CancelBuild` acts on the cluster alone, and its error is dropped.
  unfoldable pub cancel : ℕ → Exec World (Unit {0})
  cancel deploy_id = do
    deploy ← Deploys.get_by_id request deploy_id
    throw_if (not (in_progress deploy.status))
        (formatted "deployment is not in progress (status: %s)" (deploy_status_text deploy.status))
    let d = record deploy { cancel_requested = true }
    saved ← catch (Deploys.update request d)
    lift (wrap "set cancel_requested" saved)
    app ← catch (Deploys.get_app request d.app_id)
    if deploy_status_eq d.status DeployStatus.queued
        then (do finalize_cancelled env request d (found_app app); pure tt)
        else pure tt

  unfoldable pub rollback : ℕ → Option ℕ → Exec World Deployment
  unfolding set_app_status
  rollback deploy_id triggered_by = do
    prev ← Deploys.get_by_id request deploy_id
    app ← Deploys.get_app request prev.app_id
    lift env.target
    perform env.rollback
    now ← view (λ w. w.now)
    d ← Deploys.create request (record {
      id = 0;
      created_at = 0;
      deleted_at = none;
      app_id = app.id;
      status = DeployStatus.success;
      cancel_requested = false;
      commit_sha = prev.commit_sha;
      image = prev.image;
      build_log = [];
      started_at = some now;
      finished_at = some now;
      trigger_type = "rollback";
      triggered_by = triggered_by;
      app_name = "";
      project_id = 0;
    })
    set_app_status request app.id AppStatus.running
    pure d
