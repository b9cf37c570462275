-- ===== src/Deploy/Common.antt =====
-- The helpers of deploy_service.go: logged updates, notifications, cancellation.
pub mod Yielding
pub mod Notices
pub mod Cancelling
pub mod Recorded
use orkai.Prelude.{
  ℕ, String, Bool, true, false, Option, none, some, List, [], ◌∷◌, ◌++◌, ◌&&◌, str_eq,
  if◌then◌else◌,
}
use orkai.Result.{Result, ok, err}
use orkai.Exec.{Exec, pure, view, catch, ignore, ◌>>=◌, ◌>>◌}
use orkai.Model.Accounts.{Project}
use orkai.Model.Deploys.{Deployment, Application, DeployStatus, AppStatus}
use orkai.World.{World, Context, job, background, CtxErr, live, canceled, deadline_exceeded, notify}
use orkai.Store.Projects as Projects
use orkai.Store.Deploys as Deploys
use orkai.Deploy.Env.{Env, Call, perform}

abbrev pub is_terminal : DeployStatus → Bool
is_terminal DeployStatus.success = true
is_terminal DeployStatus.failed = true
is_terminal DeployStatus.cancelled = true
is_terminal _ = false

-- The empty text is the empty log.
abbrev pub log_of : String → List String
log_of s = if str_eq s "" then [] else s ∷ []

unfoldable pub update_deploy : Context → Deployment → Exec World (Unit {0})
update_deploy c d = ignore (Deploys.update c d)

unfoldable pub set_app_status : Context → ℕ → AppStatus → Exec World (Unit {0})
set_app_status c id status = ignore (Deploys.update_app_status c id status)

to_org : Application → String → Result Project → Exec World (Unit {0})
to_org app event (ok project) = notify project.org_id event app.name
to_org app event (err e) = pure tt

-- Nothing is sent where the project cannot be read.
unfoldable pub notify_deploy : Application → String → Exec World (Unit {0})
unfolding to_org
notify_deploy app event = do
  project ← catch (Projects.get_by_id background app.project_id)
  to_org app event project

abbrev flag_of : Result Deployment → Bool
flag_of (ok d) = d.cancel_requested
flag_of (err e) = false

unfoldable pub cancel_requested : ℕ → Exec World Bool
cancel_requested deploy_id = do d ← catch (Deploys.get_by_id background deploy_id); pure (flag_of d)

abbrev pub cancel_log : List String → List String
cancel_log [] = "Cancelled by user" ∷ []
cancel_log (l ∷ log) = (l ∷ log) ++ "\n\n--- Cancelled by user ---" ∷ []

abbrev is_running : Result String → Bool
is_running (ok phase) = str_eq phase "running"
is_running (err e) = false

module _ (env : Env) where
  live_phase : Result (Unit {0}) → Exec World Bool
  live_phase (ok _) = do phase ← catch (perform env.phase); pure (is_running phase)
  live_phase (err e) = pure false

  -- Is the application still running? Asked of the target, where there is one.
  pub still_running : Option Application → Exec World Bool
  unfolding live_phase
  still_running none = pure false
  still_running (some app) = do notify_deploy app "deploy_cancelled"; live_phase env.target

  unfoldable pub finalize_cancelled :
      Context → Deployment → Option Application → Exec World Deployment
  unfolding still_running update_deploy set_app_status
  finalize_cancelled c deploy app = do
    now ← view (λ w. w.now)
    let d = record deploy {
      status = DeployStatus.cancelled;
      finished_at = some now;
      build_log = cancel_log deploy.build_log;
    }
    update_deploy c d
    running ← still_running app
    set_app_status c d.app_id (if running then AppStatus.running else AppStatus.idle)
    pure d

  if_done : CtxErr → Deployment → Application → Exec World Deployment
  if_done live d app = pure d
  if_done canceled d app = finalize_cancelled background d (some app)
  if_done deadline_exceeded d app = finalize_cancelled background d (some app)

  unfoldable pub finalize_cancelled_from_context : Deployment → Application → Exec World Deployment
  unfolding if_done
  finalize_cancelled_from_context d app = do e ← view (λ w. w.job_err); if_done e d app

abbrev pub failed_now : ℕ → List String → Deployment → Deployment
failed_now now entry deploy = record deploy {
  status = DeployStatus.failed;
  finished_at = some now;
  build_log = deploy.build_log ++ entry;
}

-- A failed build: the notification goes out before the rows are written.
unfoldable pub fail_build : Application → Deployment → List String → String → Exec World Deployment
unfolding update_deploy set_app_status
fail_build app deploy entry event = do
  now ← view (λ w. w.now)
  let d = failed_now now entry deploy
  notify_deploy app event
  update_deploy background d
  set_app_status background app.id AppStatus.error
  pure d

-- Elsewhere the deployment and the application's status are written first.
unfoldable pub fail_deploy :
    Context → Application → Deployment → List String → String → Exec World Deployment
unfolding update_deploy set_app_status
fail_deploy c app deploy entry event = do
  now ← view (λ w. w.now)
  let d = failed_now now entry deploy
  update_deploy c d
  set_app_status c app.id AppStatus.error
  notify_deploy app event
  pure d
