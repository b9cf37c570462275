-- ===== src/Model/Pages.antt =====
-- Pages and their deployments: apps/api/internal/model/page.go, and the fields of shared_resource.go that
-- they use.
use orkai.Prelude.{ℕ, String, Bool, Option, none, List}
use orkai.Model.Accounts.{Owned}

pub data PageStatus : Type 0 where
  idle deploying live error draining : PageStatus

pub data PageProvider : Type 0 where
  aws_cloudfront cloudflare_pages : PageProvider
  -- any other text
  other : String → PageProvider

pub data PageDeploymentStatus : Type 0 where
  queued deploying success failed cancelled : PageDeploymentStatus

pub record PageValidationRecord : Type 0 where
  pub name : String
  pub type : String
  pub value : String

pub record PageRuntime : Type 0 where
  pub bucket_name : String
  pub distribution_id : String
  pub distribution_arn : String
  pub oac_id : String
  pub default_url : String
  pub certificate_arn : String
  pub cert_status : String
  pub validation_record : Option PageValidationRecord
  pub alias_target : String
  pub cf_project_name : String
  pub cf_project_id : String

abbrev pub no_runtime : PageRuntime
no_runtime = record {
  bucket_name = "";
  distribution_id = "";
  distribution_arn = "";
  oac_id = "";
  default_url = "";
  certificate_arn = "";
  cert_status = "";
  validation_record = none;
  alias_target = "";
  cf_project_name = "";
  cf_project_id = "";
}

-- A row as it is read: `AfterScanRow` gives it a runtime.
pub record Page : Type 0 where
  pub id : ℕ
  pub deleted_at : Option ℕ
  pub project_id : ℕ
  pub name : String
  pub description : String
  pub git_repo : String
  pub git_branch : String
  pub git_provider_id : Option ℕ
  pub publish_path : String
  pub build_enabled : Bool
  pub package_manager : String
  pub install_command : String
  pub build_command : String
  pub output_dir : String
  pub root_directory : String
  pub node_version : String
  pub build_env_vars : List (String × String)
  pub provider : PageProvider
  pub cloud_account_id : Option ℕ
  pub region : String
  pub custom_domain : String
  pub manage_dns : Bool
  pub dns_account_id : Option ℕ
  pub dns_zone_id : String
  pub runtime : PageRuntime
  pub status : PageStatus

-- What access control reads of a page.
abbrev pub owned_page : Page → Owned
owned_page p = record { id = p.id; deleted_at = p.deleted_at; project_id = p.project_id }

-- A part of a deploy log: a stamped line, or text that is put in as it is. A text is the list of the
-- parts that the code puts together.
pub data LogEntry : Type 0 where
  line : ℕ → List String → LogEntry
  plain : List String → LogEntry

pub record PageDeployment : Type 0 where
  pub id : ℕ
  pub created_at : ℕ
  pub deleted_at : Option ℕ
  pub page_id : ℕ
  pub status : PageDeploymentStatus
  pub publish_path : String
  pub commit_sha : String
  pub deploy_log : List LogEntry
  pub provider_ref : String
  pub trigger_type : String
  pub started_at : Option ℕ
  pub finished_at : Option ℕ

pub record SharedResource : Type 0 where
  pub id : ℕ
  pub deleted_at : Option ℕ
  pub org_id : ℕ
  pub type : String
  pub provider : String
  pub name : String
  pub config : String
