-- ===== src/Model/Deploys.antt =====
-- Deployments and applications: apps/api/internal/model/deployment.go and application.go.
use orkai.Prelude.{ℕ, String, Bool, true, false, Option, List}

pub data DeployStatus : Type 0 where
  queued building deploying success failed cancelled : DeployStatus

pub data AppStatus : Type 0 where
  idle building deploying restarting running partial stopping stopped error : AppStatus

pub record Deployment : Type 0 where
  pub id : ℕ
  pub created_at : ℕ
  pub deleted_at : Option ℕ
  pub app_id : ℕ
  pub status : DeployStatus
  pub cancel_requested : Bool
  pub commit_sha : String
  pub image : String
  -- the log, by the pieces that were appended to it
  pub build_log : List String
  pub started_at : Option ℕ
  pub finished_at : Option ℕ
  pub trigger_type : String
  pub triggered_by : Option ℕ
  pub app_name : String
  pub project_id : ℕ

-- The fields of an application that the deploy service reads or writes. The runtime settings that
-- it only hands on to the target (ports, limits, probes, volumes, strategy) are `config`.
pub record Application : Type 0 where
  pub id : ℕ
  pub deleted_at : Option ℕ
  pub project_id : ℕ
  pub name : String
  pub from_git : Bool
  pub no_cache : Bool
  pub docker_image : String
  pub env_vars : List (String × String)
  pub autoscaling_enabled : Bool
  pub config : String
  pub status : AppStatus

abbrev pub deploy_status_eq : DeployStatus → DeployStatus → Bool
deploy_status_eq DeployStatus.queued DeployStatus.queued = true
deploy_status_eq DeployStatus.building DeployStatus.building = true
deploy_status_eq DeployStatus.deploying DeployStatus.deploying = true
deploy_status_eq DeployStatus.success DeployStatus.success = true
deploy_status_eq DeployStatus.failed DeployStatus.failed = true
deploy_status_eq DeployStatus.cancelled DeployStatus.cancelled = true
deploy_status_eq _ _ = false

abbrev pub deploy_status_text : DeployStatus → String
deploy_status_text DeployStatus.queued = "queued"
deploy_status_text DeployStatus.building = "building"
deploy_status_text DeployStatus.deploying = "deploying"
deploy_status_text DeployStatus.success = "success"
deploy_status_text DeployStatus.failed = "failed"
deploy_status_text DeployStatus.cancelled = "cancelled"

abbrev pub app_status_text : AppStatus → String
app_status_text AppStatus.idle = "idle"
app_status_text AppStatus.building = "building"
app_status_text AppStatus.deploying = "deploying"
app_status_text AppStatus.restarting = "restarting"
app_status_text AppStatus.running = "running"
app_status_text AppStatus.partial = "partial"
app_status_text AppStatus.stopping = "stopping"
app_status_text AppStatus.stopped = "stopped"
app_status_text AppStatus.error = "error"
