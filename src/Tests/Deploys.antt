-- ===== src/Tests/Deploys.antt =====
-- Deploys at concrete inputs.
use orkai.Prelude.{String, ◌≡◌, refl, true, none, some, [], ◌∷◌, find?, any, ◌⊎◌, false}
use orkai.Result.{Error, ok, err, query_failed, wrapped}
use orkai.Model.Deploys.{Deployment, Application, DeployStatus, AppStatus}
use orkai.Model.Jobs.{new_deploy_job}
use orkai.World.{World, Db, job, refuses}
use orkai.Store.Deploys.{by_id, app_by_id, save}
use orkai.Deploy.Common.Recorded.{misses, ended}
use orkai.Deploy.Execute.{execute_deploy, run_deploy_job}
use orkai.Deploy.Execute.Recorded.{execute_deploy-settles}
use orkai.Deploy.Execute.Outcomes.{Ready, Goes}
use orkai.Deploy.Execute.Overwrites.{run_deploy_job-stale_status, run_deploy_job-lost_cancel}
use orkai.Deploy.Requests.{TriggerInput, trigger, cancel}
use orkai.Deploy.Requests.Cancelling.{cancel-run_deploy_job}
use orkai.Deploy.Common.Cancelling.{cancelled_at}
use orkai.Deploy.Requests.Outcomes.{created, trigger_queues, trigger_unqueued}
use orkai.Tests.Data.{world, db, app, deployment, env, queued, idle_app}

abbrev queued_row : Deployment
queued_row = deployment DeployStatus.queued

abbrev waiting : Application
waiting = app AppStatus.building

abbrev input : TriggerInput
input = record { app_id = 41; force_build = false; triggered_by = none; trigger_type = "manual" }

-- `Cancel` of a running deployment, from another process.
abbrev cancelling : Db → Db
cancelling db =
    save
      (record queued_row {
        status = DeployStatus.deploying;
        cancel_requested = true;
        started_at = some 1000;
      })
      db

abbrev ready : Ready 51 queued_row waiting queued
ready = record {
  up = refl;
  row = refl;
  queued = refl;
  uncancelled = refl;
  app_row = refl;
  from_image = refl;
  fixed_size = refl;
}

goes : (during : Db → Db) → Goes (env during) during
goes during = record { secret = ""; pull = refl; target = refl; deploy = λ o. refl }

execute_deploy-settles_example :
    let w' = (execute_deploy (env (λ db. db)) waiting queued_row false queued).1 in
    ((execute_deploy (env (λ db. db)) waiting queued_row false queued).0 ≡ ok tt)
    × ((any (misses ended 51) w'.db.deployments ≡ false) ⊎ (refuses job w'.job_err ≡ true))
execute_deploy-settles_example =
    execute_deploy-settles (env (λ db. db)) waiting queued_row false queued refl
      (record { phase = λ db h. h; hpa = λ db h. h })

run_deploy_job-stale_status_example :
    find? (app_by_id 41) (run_deploy_job (env (λ db. db)) 51 false queued).1.db.applications
    ≡ some waiting
run_deploy_job-stale_status_example =
    run_deploy_job-stale_status (env (λ db. db)) 51 false queued_row waiting queued ready
      (goes (λ db. db))

run_deploy_job-lost_cancel_example :
    find? (by_id 51) (run_deploy_job (env cancelling) 51 false queued).1.db.deployments
    ≡ some (record queued_row {
      status = DeployStatus.success;
      cancel_requested = false;
      image = "api:1";
      started_at = some 1000;
      finished_at = some 1000;
    })
run_deploy_job-lost_cancel_example =
    run_deploy_job-lost_cancel (env cancelling) 51 false queued_row waiting queued ready cancelling
      (record queued_row {
        status = DeployStatus.deploying;
        cancel_requested = true;
        started_at = some 1000;
      })
      (goes cancelling) refl

abbrev as_text : Error → String
as_text e = "connection refused"

trigger_queues_example :
    let (r, w') = trigger as_text input idle_app in
    (r ≡ ok (created idle_app (app AppStatus.idle) input))
    × (w'.db.deployments ≡ created idle_app (app AppStatus.idle) input ∷ [])
    × (w'.db.queue ≡ record { msg_id = 101; read_ct = 0; job = new_deploy_job 100 false } ∷ [])
    × (find? (app_by_id 41) w'.db.applications ≡ some (app AppStatus.building))
trigger_queues_example = trigger_queues as_text idle_app input (app AppStatus.idle) refl refl refl

abbrev no_queue : World
no_queue = world (db [] [] (app AppStatus.idle ∷ []) []) (false ∷ false ∷ true ∷ [])

trigger_unqueued_example :
    let (r, w') = trigger as_text input no_queue in
    (r ≡ err (wrapped "enqueue deploy job" query_failed))
    × (w'.db.applications ≡ no_queue.db.applications)
    × (w'.db.queue ≡ [])
    × (find? (by_id 100) w'.db.deployments
        ≡ some (record (created no_queue (app AppStatus.idle) input) {
          status = DeployStatus.failed;
          finished_at = some 1000;
          build_log = "Failed to enqueue deploy job: " ∷ "connection refused" ∷ [];
        }))
trigger_unqueued_example =
    trigger_unqueued as_text no_queue input (app AppStatus.idle) refl refl refl refl

cancel-run_deploy_job_example :
    let w' = (cancel (env (λ db. db)) 51 queued).1 in
    (find? (by_id 51) w'.db.deployments
      ≡ some (cancelled_at (record queued_row { cancel_requested = true }) 1000))
    × (run_deploy_job (env cancelling) 51 true w' ≡ (ok tt, w'))
cancel-run_deploy_job_example =
    cancel-run_deploy_job (env (λ db. db)) (λ db. refl) 51 queued_row waiting queued refl refl refl
      refl (env cancelling) true
