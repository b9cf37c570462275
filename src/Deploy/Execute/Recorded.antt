-- ===== src/Deploy/Execute/Recorded.antt =====
-- `executeDeploy` ends the deployment on its rows.
use orkai.Prelude.{ℕ, String, ◌≡◌, refl, Bool, true, false, some, List, [], ◌⊎◌, any}
use orkai.Result.{Result, ok, err}
use orkai.Exec.{catch, ◌>>=◌}
use orkai.Exec.Preserves.{Preserves, Preserves-bind, Preserves-catch, Preserves-view, Preserves-if}
use orkai.Exec.Triple.{Both, Triple, Triple-bind, Triple-pure, Triple-fact}
use orkai.Exec.Yields.{Yields-catch, Yields-view, Yields-ignore, Yields-if, Yields-then}
use orkai.Model.Deploys.{Deployment, Application, DeployStatus}
use orkai.World.{World, background, job, refuses, CtxErr, live, canceled, deadline_exceeded}
use orkai.Deploy.Env.{Env, perform}
use orkai.Deploy.Common.Yielding.{
  update_deploy-Quiet, set_app_status-Quiet, notify_deploy-Quiet, cancel_requested-Quiet,
}
use orkai.Deploy.Common.Recorded.{
  misses, Rows, Recorded, Calm, Broken, ended, Leaves, perform-Calm, perform-keeps,
  update_deploy-Calm, update_deploy-Recorded, set_app_status-keeps, update_app-keeps,
  notify_deploy-keeps, get_project-keeps, cancel_requested-Calm, finalize_cancelled-Recorded,
  finalize_from_done-Recorded, fail_deploy-Recorded, Triple-keeping,
}
use orkai.Deploy.Build.{Stage, done, proceed}
use orkai.Deploy.Build.Recorded.{StagedAt, build_stage-Recorded}
use orkai.Deploy.Execute.{
  announce, succeed, deploy_failed, flag_if_live, deployed, on_target, with_secret, deploy_stage,
  next_stage, execute_deploy,
}

module _ (env : Env) where
  module _ (id : ℕ) (k : Leaves env id) where
    restore-keeps : Preserves (Recorded ended id) (catch (perform env.configure_hpa))
    restore-keeps = Preserves-catch _ (perform-keeps ended id env.configure_hpa k.hpa)

    announce-Recorded :
        (app : Application) (d : Deployment)
        → Triple (Recorded ended id) (announce env app d) (λ _. Recorded ended id) Broken
    unfolding announce
    announce-Recorded app d =
        let told = notify_deploy-keeps (Rows ended id) app "deploy_success" in
        let sent = notify_deploy-Quiet app "deploy_success" in
        Triple-bind _ _
          (Triple-keeping _ (Yields-if _ _ _ (Yields-then _ _ (Yields-catch _) (λ r. sent)) sent)
            (Preserves-if _ _ _ (Preserves-bind _ _ restore-keeps (λ r. told)) told))
          (λ _. Triple-pure d (λ s h. h))

  succeed-Recorded :
      (app : Application) (d : Deployment) (now : ℕ)
      → Leaves env d.id
      → Triple Calm
          (succeed env app (record d { finished_at = some now }))
          (λ _. Recorded ended d.id)
          Broken
  unfolding succeed
  succeed-Recorded app d now k = Triple-bind _ _ (update_deploy-Recorded job _ refl) (λ _.
      Triple-bind _ _
        (Triple-keeping _ (set_app_status-Quiet job _ _)
          (set_app_status-keeps (Rows ended d.id) job _ _))
        (λ _.
          Triple-bind _ _
            (Triple-keeping _ (Yields-ignore _) (update_app-keeps (Rows ended d.id) job app))
            (λ _. announce-Recorded d.id k app _)))

  failed_live :
      (app : Application) (d : Deployment) (flag : Bool)
      → Leaves env d.id
      → Triple Calm (deploy_failed env live flag app d) (λ _. Recorded ended d.id) Broken
  unfolding deploy_failed
  failed_live app d true k = finalize_cancelled-Recorded env background d (some app) k
  failed_live app d false k = fail_deploy-Recorded d [] job app _

  failed_at :
      (e : CtxErr) (app : Application) (d : Deployment) (w : World)
      → Leaves env d.id
      → w.job_err ≡ e
      → Calm w
      → Both
          (λ _. Recorded ended d.id)
          Broken
          ((flag_if_live env e d.id >>= λ flag. deploy_failed env e flag app d) w)
  unfolding flag_if_live deploy_failed ◌>>=◌
  failed_at live app d w k h up =
      (Triple-bind _ _ (Triple-keeping _ (cancel_requested-Quiet d.id) (cancel_requested-Calm d.id))
          (λ flag. failed_live app d flag k)).at
        w up
  failed_at canceled app d w k h up = (finalize_from_done-Recorded env d app k).at w (up, λ e. cc)
  failed_at deadline_exceeded app d w k h up =
      (finalize_from_done-Recorded env d app k).at w (up, λ e. cc)

  deployed-Recorded :
      (r : Result (Unit {0})) (app : Application) (d : Deployment) (now : ℕ)
      → Leaves env d.id
      → Triple Calm
          (deployed env r app (record d { finished_at = some now }))
          (λ _. Recorded ended d.id)
          Broken
  unfolding deployed ◌>>=◌
  deployed-Recorded (ok _) app d now k = succeed-Recorded app d now k
  deployed-Recorded (err e) app d now k = record {
    at = λ w up. failed_at w.job_err app (record d { finished_at = some now }) w k refl up;
  }

  on_target-Recorded :
      (r : Result (Unit {0})) (app : Application) (d : Deployment) (vars : List (String × String))
      (secret : String)
      → Leaves env d.id
      → Triple Calm (on_target env r app d vars secret) (λ _. Recorded ended d.id) Broken
  unfolding on_target
  on_target-Recorded (err e) app d vars secret k = fail_deploy-Recorded d [] job app _
  on_target-Recorded (ok _) app d vars secret k =
      Triple-bind _ _ (Triple-keeping _ (Yields-catch _) (Preserves-catch _ (perform-Calm _))) (λ r.
        Triple-bind _ _ (Triple-keeping _ (Yields-view _) (Preserves-view _))
          (λ now. deployed-Recorded r app d now k))

  with_secret-Recorded :
      (r : Result String) (app : Application) (d : Deployment) (vars : List (String × String))
      → Leaves env d.id
      → Triple Calm (with_secret env r app d vars) (λ _. Recorded ended d.id) Broken
  unfolding with_secret
  with_secret-Recorded (err e) app d vars k = fail_deploy-Recorded d [] job app _
  with_secret-Recorded (ok secret) app d vars k = on_target-Recorded env.target app d vars secret k

  deploy_stage-Recorded :
      (app : Application) (d : Deployment)
      → Leaves env d.id
      → Triple Calm (deploy_stage env app d) (λ _. Recorded ended d.id) Broken
  unfolding deploy_stage
  deploy_stage-Recorded app d k =
      Triple-bind _ _ (Triple-keeping _ (update_deploy-Quiet job _) (update_deploy-Calm job _))
        (λ _.
          Triple-bind _ _
            (Triple-keeping _ (Yields-catch _) (Preserves-catch _ (get_project-keeps _ job _)))
            (λ p.
              Triple-bind _ _
                (Triple-keeping _ (Yields-catch _)
                  (Preserves-catch _ (perform-Calm env.pull_secret)))
                (λ secret.
                  with_secret-Recorded secret app (record d { status = DeployStatus.deploying }) _
                    k)))

  next_stage-Recorded :
      (id : ℕ) (s : Stage)
      → Leaves env id
      → Triple (StagedAt id s) (next_stage env s) (λ _. Recorded ended id) Broken
  unfolding next_stage
  next_stage-Recorded id (done d) k = Triple-pure d (λ s h. h)
  next_stage-Recorded id (proceed app d) k =
      Triple-fact _ (λ same. rw⁻¹ same (deploy_stage-Recorded app d (rw same k)))

  execute_deploy-Recorded :
      (app : Application) (deploy : Deployment) (force : Bool)
      → Leaves env deploy.id
      → Triple Calm (execute_deploy env app deploy force) (λ _. Recorded ended deploy.id) Broken
  unfolding execute_deploy
  execute_deploy-Recorded app deploy force k =
      Triple-bind _ _ (Triple-keeping _ (Yields-view _) (Preserves-view _)) (λ now.
        Triple-bind _ _
          (build_stage-Recorded env force app (record deploy { started_at = some now }) k)
          (λ s.
            Triple-bind _ _ (next_stage-Recorded deploy.id s k) (λ d. Triple-pure tt (λ r h. h))))

both_ways :
    (r : Result (Unit {0})) (id : ℕ) (w : World)
    → Both (λ _. Recorded ended id) Broken (r, w)
    → (r ≡ ok tt) × Rows ended id w.db.deployments w.job_err
both_ways (ok tt) id w h = (refl, h.1)
both_ways (err e) id w h = absurd h

-- Whatever the builder and the target answer, whatever others write before the deployment ends, and
-- however the job is cancelled or timed out: if the database can be reached, and what others write
-- while the job winds up puts no ended row of the deployment back, then the run of a deploy job
-- returns, and every live row of the deployment is a success, a failure or a cancellation with the
-- time of its end, unless the job's context was done by the end of the run.
pub execute_deploy-settles :
    (env : Env) (app : Application) (deploy : Deployment) (force : Bool) (w : World)
    → w.faults ≡ []
    → Leaves env deploy.id
    → ((execute_deploy env app deploy force w).0 ≡ ok tt)
      × ((any (misses ended deploy.id) (execute_deploy env app deploy force w).1.db.deployments
            ≡ false)
          ⊎ (refuses job (execute_deploy env app deploy force w).1.job_err ≡ true))
execute_deploy-settles env app deploy force w up k =
    let (r, w') = execute_deploy env app deploy force w in
    both_ways r deploy.id w' ((execute_deploy-Recorded env app deploy force k).at w (up, tt))
