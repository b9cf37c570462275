-- ===== src/Deploy/Execute.antt =====
-- `executeDeploy` and `RunDeployJob`.
pub mod Recorded
pub mod Outcomes
pub mod Overwrites
use orkai.Prelude.{
  ℕ, String, Bool, true, false, Option, none, some, List, [], ◌∷◌, ◌++◌, str_eq, if◌then◌else◌,
}
use orkai.Result.{Result, ok, err, wrapped}
use orkai.Exec.{Exec, pure, view, modify, catch, ignore, lift, ◌>>=◌, ◌>>◌}
use orkai.Model.Accounts.{Project}
use orkai.Model.Deploys.{Deployment, Application, DeployStatus, AppStatus}
use orkai.World.{World, job, background, request, CtxErr, live, canceled, deadline_exceeded}
use orkai.Store.Projects as Projects
use orkai.Store.Deploys as Deploys
use orkai.Deploy.Env.{Env, DeployOpts, perform}
use orkai.Deploy.Common.{
  is_terminal, update_deploy, set_app_status, notify_deploy, cancel_requested, finalize_cancelled,
  finalize_cancelled_from_context, fail_deploy,
}
use orkai.Deploy.Build.{Stage, done, proceed, build_stage}

-- `m[k] = v`
abbrev pub put : String → String → List (String × String) → List (String × String)
put k v [] = (k, v) ∷ []
put k v ((j, u) ∷ rest) = if str_eq j k then (k, v) ∷ rest else (j, u) ∷ put k v rest

-- `for k, v := range xs { m[k] = v }`
abbrev pub put_all : List (String × String) → List (String × String) → List (String × String)
put_all [] m = m
put_all ((k, v) ∷ xs) m = put_all xs (put k v m)

abbrev project_env : Result Project → List (String × String)
project_env (ok p) = p.env_vars
project_env (err e) = []

unfoldable pub merge_env : Result Project → Application → List (String × String)
merge_env p app = put_all app.env_vars (put_all (project_env p) [])

module _ (env : Env) where
  -- The autoscaler is restored where it is enabled; its failure changes only the notification's text.
  unfoldable pub announce : Application → Deployment → Exec World Deployment
  announce app d = do
    if app.autoscaling_enabled
        then (do catch (perform env.configure_hpa); notify_deploy app "deploy_success")
        else notify_deploy app "deploy_success"
    pure d

  succeed : Application → Deployment → Exec World Deployment
  succeed app deploy = do
    let d = record deploy { status = DeployStatus.success; image = app.docker_image }
    update_deploy job d
    set_app_status job app.id AppStatus.running
    ignore (Deploys.update_app job app)
    announce app d

  deploy_failed : CtxErr → Bool → Application → Deployment → Exec World Deployment
  deploy_failed live true app d = finalize_cancelled env background d (some app)
  deploy_failed live false app d = fail_deploy job app d [] "deploy_failed"
  deploy_failed _ flag app d = finalize_cancelled_from_context env d app

  flag_if_live : CtxErr → ℕ → Exec World Bool
  flag_if_live live id = cancel_requested id
  flag_if_live _ id = pure false

  deployed : Result (Unit {0}) → Application → Deployment → Exec World Deployment
  unfolding succeed deploy_failed flag_if_live
  deployed (ok _) app d = succeed app d
  deployed (err e) app d = do
    ctx ← view (λ w. w.job_err)
    flag ← flag_if_live ctx d.id
    deploy_failed ctx flag app d

  on_target :
      Result (Unit {0})
      → Application
      → Deployment
      → List (String × String)
      → String
      → Exec World Deployment
  unfolding deployed
  on_target (err e) app d vars secret = fail_deploy job app d [] "deploy_failed"
  on_target (ok _) app d vars secret = do
    r ← catch (
        perform (
          env.deploy (record {
            image = app.docker_image;
            env_vars = vars;
            config = app.config;
            image_pull_secret = secret;
          })))
    now ← view (λ w. w.now)
    deployed r app (record d { finished_at = some now })

  with_secret :
      Result String → Application → Deployment → List (String × String) → Exec World Deployment
  unfolding on_target
  with_secret (err e) app d vars = fail_deploy job app d [] "deploy_failed"
  with_secret (ok secret) app d vars = on_target env.target app d vars secret

  unfoldable pub deploy_stage : Application → Deployment → Exec World Deployment
  unfolding with_secret merge_env
  deploy_stage app deploy = do
    let d = record deploy { status = DeployStatus.deploying }
    update_deploy job d
    project ← catch (Projects.get_by_id job app.project_id)
    secret ← catch (perform env.pull_secret)
    with_secret secret app d (merge_env project app)

  next_stage : Stage → Exec World Deployment
  next_stage (done d) = pure d
  next_stage (proceed app d) = deploy_stage app d

  unfoldable pub execute_deploy : Application → Deployment → Bool → Exec World (Unit {0})
  unfolding next_stage
  execute_deploy app deploy force = do
    now ← view (λ w. w.now)
    stage ← build_stage env force app (record deploy { started_at = some now })
    next_stage stage
    pure tt

  found_app : Result Application → Option Application
  found_app (ok app) = some app
  found_app (err e) = none

  with_app : Result Application → Deployment → Bool → Exec World (Unit {0})
  with_app (err e) d force = lift (err (wrapped "load application" e))
  with_app (ok app) d force = do
    modify (λ w. record w { job_err = live })
    execute_deploy app d force

  start_job : Deployment → Bool → Exec World (Unit {0})
  unfolding found_app with_app
  start_job d force =
      if is_terminal d.status
      then pure tt
      else if d.cancel_requested
      then (do
        app ← catch (Deploys.get_app background d.app_id)
        finalize_cancelled env background d (found_app app)
        pure tt)
      else (do app ← catch (Deploys.get_app background d.app_id); with_app app d force)

  loaded : Result Deployment → Bool → Exec World (Unit {0})
  unfolding start_job
  loaded (err e) force = lift (err (wrapped "load deployment" e))
  loaded (ok d) force = start_job d force

  unfoldable pub run_deploy_job : ℕ → Bool → Exec World (Unit {0})
  unfolding loaded
  run_deploy_job deploy_id force = do
    d ← catch (Deploys.get_by_id background deploy_id)
    loaded d force
