-- ===== src/Deploy/Build.antt =====
-- The build stage of `executeDeploy`, and `Build` of build_service.go.
pub mod Yielding
pub mod Recorded
use orkai.Prelude.{
  ℕ, String, Bool, true, false, Option, none, some, List, [], ◌∷◌, ◌++◌, ◌&&◌, not, str_eq,
  if◌then◌else◌,
}
use Prim.Native.String.{slice}
use orkai.Result.{Result, ok, err, Error, wrapped}
use orkai.Exec.{Exec, pure, view, catch, ignore, ◌>>=◌, ◌>>◌}
use orkai.Model.Deploys.{Deployment, Application, DeployStatus, deploy_status_eq}
use orkai.World.{World, job, background, CtxErr, live, canceled, deadline_exceeded}
use orkai.Store.Deploys as Deploys
use orkai.Deploy.Env.{Env, BuildResult, perform}
use orkai.Deploy.Common.{
  log_of, update_deploy, cancel_requested, finalize_cancelled, finalize_cancelled_from_context,
  fail_build, fail_deploy,
}

-- A stage ends the job, or hands the application and the deployment to the next one.
pub data Stage : Type 0 where
  done : Deployment → Stage
  proceed : Application → Deployment → Stage

-- `OnLog`: each log replaces the one before it, and the row is saved.
save_logs : (String → String) → List String → Deployment → Exec World Deployment
save_logs redact [] d = pure d
save_logs redact (l ∷ ls) d = do
  let d' = record d { build_log = log_of (redact l) }
  ignore (Deploys.update job d')
  save_logs redact ls d'

-- What `Build` leaves: the two records it changed, and its error.
pub record Built : Type 0 where
  pub app : Application
  pub deploy : Deployment
  pub error : Option Error

abbrev failure_log : Env → Error → List String
failure_log env e =
    if str_eq env.failed_logs ""
    then log_of (env.text e)
    else env.failed_logs ∷ "\n\n--- Error ---\n" ∷ env.text e ∷ []

keep_image : Application → Deployment → BuildResult → Result (Unit {0}) → Exec World Built
keep_image app d r (err e) =
    pure (record { app = app; deploy = d; error = some (wrapped "update app image" e) })
keep_image app d r (ok _) = do
  let d' = record d { build_log = log_of r.logs; image = r.image }
  ignore (Deploys.update job d')
  pure (record { app = app; deploy = d'; error = none })

after_build : Env → Application → Deployment → Result BuildResult → Exec World Built
unfolding keep_image
after_build env app d (err e) = do
  let d' = record d { build_log = failure_log env e }
  ignore (Deploys.update job d')
  pure (record { app = app; deploy = d'; error = some e })
after_build env app d (ok r) = do
  let app' = record app { docker_image = r.image }
  saved ← catch (Deploys.update_app job app')
  keep_image app' d r saved

run_builder : Env → Result (Unit {0}) → Application → Deployment → Exec World Built
unfolding after_build save_logs
run_builder env (err e) app d = pure (record { app = app; deploy = d; error = some e })
run_builder env (ok _) app d = do
  d' ← save_logs env.redact env.on_log d
  r ← catch (perform env.build)
  after_build env app d' r

unfoldable pub build : Env → Application → Deployment → Exec World Built
unfolding run_builder
build env app d = run_builder env env.builder app d

abbrev pub reusable : Deployment → Deployment → Bool
reusable last d =
    deploy_status_eq last.status DeployStatus.success
    && not (str_eq last.image "")
    && not (str_eq last.commit_sha "")
    && str_eq last.commit_sha d.commit_sha

abbrev pub reused : Result Deployment → Deployment → Option String
reused (err e) d = none
reused (ok last) d = if reusable last d then some last.image else none

-- The image of the application's latest deployment, where the build can be skipped.
unfoldable pub reusable_image : Bool → Application → Deployment → Exec World (Option String)
reusable_image force app d =
    if not force && not app.no_cache && not (str_eq d.commit_sha "")
    then (do last ← catch (Deploys.get_latest_by_app job app.id); pure (reused last d))
    else pure none

module _ (env : Env) where
  -- The three ways in which a failed build ends.
  build_failed : CtxErr → Bool → Application → Deployment → Exec World Deployment
  build_failed canceled flag app d = finalize_cancelled_from_context env d app
  build_failed deadline_exceeded flag app d =
      fail_build app d ("\n\n--- Build timed out (30 min limit) ---" ∷ []) "build_timeout"
  build_failed live true app d = finalize_cancelled env background d (some app)
  build_failed live false app d = fail_build app d [] "deploy_failed"

  -- The cancel flag is read only while the context is live.
  flag_if_live : CtxErr → ℕ → Exec World Bool
  flag_if_live live id = cancel_requested id
  flag_if_live _ id = pure false

  reloaded : Result Application → Application → Deployment → Exec World Stage
  reloaded (ok app) _ d = pure (proceed app d)
  reloaded (err e) app d = do
    d' ←
        fail_deploy background app d ("\n\n--- Failed to reload app after build ---" ∷ [])
          "deploy_failed"
    pure (done d')

  build_succeeded : CtxErr → Application → Deployment → Exec World Stage
  unfolding reloaded
  build_succeeded live app d = do fresh ← catch (Deploys.get_app job app.id); reloaded fresh app d
  build_succeeded _ app d = do d' ← finalize_cancelled_from_context env d app; pure (done d')

  end_build : Option Error → Built → Exec World Stage
  unfolding build_failed flag_if_live build_succeeded
  end_build (some e) b = do
    ctx ← view (λ w. w.job_err)
    flag ← flag_if_live ctx b.deploy.id
    d' ← build_failed ctx flag b.app b.deploy
    pure (done d')
  end_build none b = do ctx ← view (λ w. w.job_err); build_succeeded ctx b.app b.deploy

  build_or_reuse : Option String → Application → Deployment → Exec World Stage
  unfolding end_build update_deploy
  build_or_reuse (some image) app d = do
    let d' = record d {
      build_log =
          "Build skipped — commit "
          ∷ slice d.commit_sha 0 7
          ∷ " unchanged, reusing image.\nUse 'Force Build' to rebuild from scratch."
          ∷ [];
      image = image;
    }
    update_deploy job d'
    pure (proceed (record app { docker_image = image }) d')
  build_or_reuse none app d = do
    let d' = record d { status = DeployStatus.building }
    update_deploy job d'
    b ← build env app d'
    end_build b.error b

  unfoldable pub build_stage : Bool → Application → Deployment → Exec World Stage
  unfolding build_or_reuse
  build_stage force app d =
      if app.from_git
      then (do image ← reusable_image force app d; build_or_reuse image app d)
      else pure (proceed app d)
