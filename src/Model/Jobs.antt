-- ===== src/Model/Jobs.antt =====
-- The envelope of a queued job: apps/api/internal/jobs/jobs.go, and `Message` of queue.go.
use orkai.Prelude.{ℕ, String, Bool, false, Option, none, some}

pub data JobType : Type 0 where
  deploy system_backup database_backup page_deploy worker_deploy : JobType
  -- any other text, as read from the queue
  other : String → JobType

pub record Job : Type 0 where
  pub type : JobType
  pub deploy_id : Option ℕ
  pub backup_id : Option ℕ
  pub database_backup_id : Option ℕ
  pub force_build : Bool
  pub page_deployment_id : Option ℕ
  pub worker_deployment_id : Option ℕ

pub record Message : Type 0 where
  pub msg_id : ℕ
  pub read_ct : ℕ
  pub job : Job

abbrev pub blank : JobType → Job
blank t = record {
  type = t;
  deploy_id = none;
  backup_id = none;
  database_backup_id = none;
  force_build = false;
  page_deployment_id = none;
  worker_deployment_id = none;
}

abbrev pub new_deploy_job : ℕ → Bool → Job
new_deploy_job id force = record (blank JobType.deploy) { deploy_id = some id; force_build = force }

abbrev pub new_system_backup_job : ℕ → Job
new_system_backup_job id = record (blank JobType.system_backup) { backup_id = some id }

abbrev pub new_database_backup_job : ℕ → Job
new_database_backup_job id = record (blank JobType.database_backup) { database_backup_id = some id }

abbrev pub new_page_deploy_job : ℕ → Job
new_page_deploy_job id = record (blank JobType.page_deploy) { page_deployment_id = some id }

abbrev pub new_worker_deploy_job : ℕ → Job
new_worker_deploy_job id = record (blank JobType.worker_deploy) { worker_deployment_id = some id }
