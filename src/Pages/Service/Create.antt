-- ===== src/Pages/Service/Create.antt =====
-- `Create` of the page service.
use orkai.Prelude.{ℕ, String, Bool, Option, none, some, List, not, if◌then◌else◌}
use orkai.Prelude.Text.{trim_space, is_safe_name}
use orkai.Result.{Result, ok, err, message, formatted, unique_violation}
use orkai.Exec.{Exec, pure, lift, catch, throw_if, ◌>>=◌, ◌>>◌}
use orkai.Model.Pages.{Page, PageProvider, PageStatus, no_runtime}
use orkai.World.{World, request}
use orkai.Store.Projects as Projects
use orkai.Store.Pages as Pages
use orkai.Pages.Env.{PageEnv}
use orkai.Pages.Domains.{is_empty, wrapping, normalize_domain, cloud_account}
use orkai.Pages.Service.{
  Domain, git_provider, validate_resource, validate_cloud_account, validate_package_manager,
  validate_custom_domain,
}
use orkai.Pages.Service.Update.{or_text, with_output, is_aws}

pub record CreatePageInput : Type 0 where
  pub project_id : ℕ
  pub name : String
  pub description : String
  pub git_repo : String
  pub git_branch : String
  pub git_provider_id : Option ℕ
  pub publish_path : String
  pub provider : PageProvider
  pub cloud_account_id : Option ℕ
  pub region : String
  pub domain : Domain
  pub build_enabled : Bool
  pub package_manager : String
  pub install_command : String
  pub build_command : String
  pub output_dir : String
  pub root_directory : String
  pub node_version : String
  pub build_env_vars : List (String × String)

-- The empty provider is CloudFront.
abbrev chosen : PageProvider → Result PageProvider
chosen PageProvider.aws_cloudfront = ok PageProvider.aws_cloudfront
chosen PageProvider.cloudflare_pages = ok PageProvider.cloudflare_pages
chosen (PageProvider.other p) =
    if is_empty p
    then ok PageProvider.aws_cloudfront
    else err (message "provider must be aws_cloudfront or cloudflare_pages")

check_account : PageProvider → ℕ → Option ℕ → Exec World (Unit {0})
check_account provider org_id none = pure tt
check_account provider org_id (some id) = do
  validate_resource org_id id cloud_account
  validate_cloud_account provider id

check_git : ℕ → Option ℕ → Exec World (Unit {0})
check_git org_id none = pure tt
check_git org_id (some id) = validate_resource org_id id git_provider

-- `build_env_vars` is empty where the request has none.
new_page : (String → String) → CreatePageInput → PageProvider → Page
new_page to_lower i provider = with_output (record {
  id = 0;
  deleted_at = none;
  project_id = i.project_id;
  name = i.name;
  description = i.description;
  git_repo = i.git_repo;
  git_branch = or_text "main" i.git_branch;
  git_provider_id = i.git_provider_id;
  publish_path = or_text "." i.publish_path;
  build_enabled = i.build_enabled;
  package_manager = or_text "auto" i.package_manager;
  install_command = i.install_command;
  build_command = i.build_command;
  output_dir = trim_space i.output_dir;
  root_directory = or_text "." i.root_directory;
  node_version = trim_space i.node_version;
  build_env_vars = i.build_env_vars;
  provider = provider;
  cloud_account_id = i.cloud_account_id;
  region = if is_aws provider then or_text "us-east-1" i.region else i.region;
  custom_domain = normalize_domain to_lower i.domain.custom_domain;
  manage_dns = i.domain.manage_dns;
  dns_account_id = i.domain.dns_account_id;
  dns_zone_id = trim_space i.domain.dns_zone_id;
  runtime = no_runtime;
  status = PageStatus.idle;
})

-- The index of the live names of a project refuses a name that was taken meanwhile.
name_taken : String → Result Page → Result Page
name_taken name (ok page) = ok page
name_taken name (err unique_violation) =
    err (formatted "a page named %q already exists in this project" name)
name_taken name (err e) = err e

module _ (env : PageEnv) where
  unfoldable pub create : CreatePageInput → Exec World Page
  unfolding check_account check_git new_page name_taken
  create i = do
    throw_if (not (is_safe_name i.name)) (
        message
          "page name must start with alphanumeric and contain only letters, numbers, hyphens, and underscores")
    project ← wrapping "project not found" (Projects.get_by_id request i.project_id)
    check_account i.provider project.org_id i.cloud_account_id
    check_git project.org_id i.git_provider_id
    provider ← lift (chosen i.provider)
    let domain = normalize_domain env.lower i.domain.custom_domain
    if is_empty domain
        then throw_if i.domain.manage_dns
            (message "custom_domain is required when manage_dns is enabled")
        else validate_custom_domain env project.org_id provider
            (record i.domain { custom_domain = domain })
    lift (validate_package_manager i.package_manager)
    taken ←
        wrapping "cannot verify name uniqueness" (Pages.exists_by_name request i.project_id i.name)
    throw_if taken (formatted "a page named %q already exists in this project" i.name)
    made ← catch (Pages.create request (new_page env.lower i provider))
    lift (name_taken i.name made)
