-- ===== src/Tests/Data.antt =====
-- A small installation: one organization, two administrators and a member, one project.
use orkai.Prelude.{ℕ, String, Bool, false, none, some, List, [], ◌∷◌}
use orkai.Result.{ok, err, query_failed}
use orkai.Model.Accounts.{User, Team, Invitation, ApiKey, Project, role_admin, role_member}
use orkai.Model.Deploys.{Deployment, Application, DeployStatus, AppStatus}
use orkai.Model.Pages.{Page, PageStatus, PageProvider, no_runtime}
use orkai.World.{Db, World, live}
use orkai.Deploy.Env.{Env, returns}

abbrev pub user : ℕ → String → String → User
user id email role = record {
  id = id;
  created_at = 1;
  deleted_at = none;
  org_id = 1;
  email = email;
  password_hash = "";
  display_name = "";
  first_name = "";
  last_name = "";
  role = role;
  avatar_url = "";
  two_fa_secret = "";
  two_fa_enabled = false;
  token_version = 0;
  is_super_admin = false;
}

abbrev pub ada : User
ada = user 11 "ada@orkai.dev" role_admin

abbrev pub bob : User
bob = user 12 "bob@orkai.dev" role_admin

abbrev pub cyd : User
cyd = user 13 "cyd@orkai.dev" role_member

abbrev pub team : Team
team = record { id = 21; deleted_at = none; org_id = 1; name = "web"; description = "" }

abbrev pub idle_team : Team
idle_team = record { id = 22; deleted_at = none; org_id = 1; name = "ops"; description = "" }

abbrev pub project : Project
project = record {
  id = 31;
  deleted_at = none;
  org_id = 1;
  team_id = 21;
  name = "shop";
  env_vars = ("MODE", "prod") ∷ [];
}

abbrev pub app : AppStatus → Application
app status = record {
  id = 41;
  deleted_at = none;
  project_id = 31;
  name = "api";
  from_git = false;
  no_cache = false;
  docker_image = "api:1";
  env_vars = ("PORT", "80") ∷ [];
  autoscaling_enabled = false;
  config = "";
  status = status;
}

abbrev pub deployment : DeployStatus → Deployment
deployment status = record {
  id = 51;
  created_at = 2;
  deleted_at = none;
  app_id = 41;
  status = status;
  cancel_requested = false;
  commit_sha = "";
  image = "";
  build_log = [];
  started_at = none;
  finished_at = none;
  trigger_type = "manual";
  triggered_by = none;
  app_name = "api";
  project_id = 31;
}

abbrev pub key : ApiKey
key = record {
  id = 61;
  deleted_at = none;
  org_id = 1;
  user_id = 12;
  name = "ci";
  key_prefix = "ork_0000";
  key_hash = "h1";
  role = role_admin;
  last_used_at = none;
  expires_at = none;
}

abbrev pub invitation : String → String → Invitation
invitation email role = record {
  id = 71;
  org_id = 1;
  email = email;
  role = role;
  token = "t1";
  invited_by = some 11;
  expires_at = 5000;
  accepted_at = none;
}

abbrev pub page : PageStatus → Page
page status = record {
  id = 81;
  deleted_at = none;
  project_id = 31;
  name = "docs";
  description = "";
  git_repo = "";
  git_branch = "main";
  git_provider_id = none;
  publish_path = ".";
  build_enabled = false;
  package_manager = "auto";
  install_command = "";
  build_command = "";
  output_dir = "";
  root_directory = ".";
  node_version = "";
  build_env_vars = [];
  provider = PageProvider.aws_cloudfront;
  cloud_account_id = some 91;
  region = "us-east-1";
  custom_domain = "";
  manage_dns = false;
  dns_account_id = none;
  dns_zone_id = "";
  runtime = no_runtime;
  status = status;
}

abbrev pub db : List User → List Invitation → List Application → List Deployment → Db
db users invitations applications deployments = record {
  users = users;
  teams = team ∷ idle_team ∷ [];
  team_members = record { team_id = 21; user_id = 13 } ∷ [];
  invitations = invitations;
  api_keys = key ∷ [];
  projects = project ∷ [];
  applications = applications;
  deployments = deployments;
  databases = [];
  pages = page PageStatus.live ∷ [];
  page_deployments = [];
  workers = [];
  cron_jobs = [];
  domains = [];
  settings = [];
  organizations = [];
  identities = [];
  used_challenges = [];
  resources = [];
  queue = [];
  archive = [];
  next_id = 100;
}

abbrev pub world : Db → List Bool → World
world tables faults = record { db = tables; now = 1000; faults = faults; job_err = live; sent = [] }

abbrev pub members : World
members = world (db (ada ∷ bob ∷ cyd ∷ []) [] [] []) []

abbrev pub idle_app : World
idle_app = world (db [] [] (app AppStatus.idle ∷ []) []) []

abbrev pub queued : World
queued = world (db [] [] (app AppStatus.building ∷ []) (deployment DeployStatus.queued ∷ [])) []

-- A target that deploys, while `during` happens in the database.
abbrev pub env : (Db → Db) → Env
env during = record {
  builder = err query_failed;
  on_log = [];
  build = returns (record { image = "api:2"; logs = "" }) (λ db. db);
  failed_logs = "";
  redact = λ s. s;
  text = λ e. "error";
  pull_secret = returns "" (λ db. db);
  target = ok tt;
  deploy = λ o. returns tt during;
  phase = returns "running" (λ db. db);
  configure_hpa = returns tt (λ db. db);
  rollback = returns tt (λ db. db);
}
