-- ===== src/Worker.antt =====
-- The queue consumer: `processMessage` and `dispatchJob` of apps/api/cmd/worker/main.go.
pub mod Queue
use orkai.Prelude.{ℕ, String, Bool, true, false, Option, none, some, leb, if◌then◌else◌}
use orkai.Result.{Result, ok, err, message, formatted}
use orkai.Exec.{Exec, pure, throw, catch, ignore, ◌>>=◌}
use orkai.Model.Jobs.{
  JobType, Job, Message, deploy, system_backup, database_backup, page_deploy, worker_deploy, other,
}
use orkai.World.{World, background}
use orkai.Store.Jobs as Jobs

-- The services that run the jobs.
pub record Services : Type 0 where
  pub run_deploy : ℕ → Bool → Exec World (Unit {0})
  pub run_system_backup : ℕ → Exec World (Unit {0})
  pub run_database_backup : ℕ → Exec World (Unit {0})
  pub run_page_deploy : ℕ → Exec World (Unit {0})
  pub run_worker_deploy : ℕ → Exec World (Unit {0})

with_id : String → Option ℕ → (ℕ → Exec World (Unit {0})) → Exec World (Unit {0})
with_id text none run = throw (message text)
with_id text (some id) run = run id

dispatch_as : Services → JobType → Job → Exec World (Unit {0})
unfolding with_id
dispatch_as s deploy job =
    with_id "deploy job missing deploy_id" job.deploy_id (λ id. s.run_deploy id job.force_build)
dispatch_as s system_backup job =
    with_id "backup job missing backup_id" job.backup_id s.run_system_backup
dispatch_as s database_backup job =
    with_id "database backup job missing database_backup_id" job.database_backup_id
      s.run_database_backup
dispatch_as s page_deploy job =
    with_id "page deploy job missing page_deployment_id" job.page_deployment_id s.run_page_deploy
dispatch_as s worker_deploy job =
    with_id "worker deploy job missing worker_deployment_id" job.worker_deployment_id
      s.run_worker_deploy
dispatch_as s (other text) job = throw (formatted "unknown job type: %q" text)

unfoldable pub dispatch_job : Services → Job → Exec World (Unit {0})
unfolding dispatch_as
dispatch_job s job = dispatch_as s job.type job

abbrev pub max_read_attempts : ℕ
max_read_attempts = 5

-- A failed job stays in the queue until it was read often enough; errors of the queue are logged.
settle : Result (Unit {0}) → Message → Exec World (Unit {0})
settle (err e) msg =
    if leb max_read_attempts msg.read_ct
    then ignore (Jobs.archive background msg.msg_id)
    else pure tt
settle (ok _) msg = ignore (Jobs.delete background msg.msg_id)

unfoldable pub process_message : Services → Message → Exec World (Unit {0})
unfolding settle
process_message s msg = do r ← catch (dispatch_job s msg.job); settle r msg
