-- ===== src/Pages/Service/Update.antt =====
-- `Update` of the page service.
pub mod Reading
pub mod Locked
use orkai.Prelude.{
  ℕ, String, Bool, true, false, Option, none, some, List, [], ◌&&◌, ◌||◌, not, ◌==◌, str_eq,
  is_some, if◌then◌else◌,
}
use orkai.Prelude.Text.{trim_space, is_safe_name}
use orkai.Result.{Result, ok, err, Error, message, formatted, wrapped, unique_violation}
use orkai.Exec.{Exec, pure, lift, catch, throw, throw_if, ◌>>=◌, ◌>>◌}
use orkai.Model.Accounts.{Project}
use orkai.Model.Pages.{Page, PageProvider, PageStatus, no_runtime}
use orkai.World.{World, request}
use orkai.Store.Projects as Projects
use orkai.Store.Pages as Pages
use orkai.Pages.Env.{PageEnv}
use orkai.Pages.Domains.{is_empty, wrapping, normalize_domain, cloud_account}
use orkai.Pages.Service.{
  Domain, git_provider, validate_resource, validate_cloud_account, validate_package_manager,
  validate_custom_domain, is_cloud_provisioned, is_domain_locked,
}

pub record UpdatePageInput : Type 0 where
  pub description : Option String
  pub git_repo : Option String
  pub git_branch : Option String
  pub git_provider_id : Option ℕ
  pub publish_path : Option String
  pub cloud_account_id : Option ℕ
  pub region : Option String
  pub custom_domain : Option String
  pub manage_dns : Option Bool
  pub dns_account_id : Option ℕ
  pub dns_zone_id : Option String
  pub build_enabled : Option Bool
  pub package_manager : Option String
  pub install_command : Option String
  pub build_command : Option String
  pub output_dir : Option String
  pub root_directory : Option String
  pub node_version : Option String
  pub build_env_vars : Option (List (String × String))

-- `if input.X != nil { … }`
abbrev given : {A B : Type 0} → Option A → (A → B) → B → B
given none f old = old
given (some a) f old = f a

abbrev pub or_text : String → String → String
or_text default s = if is_empty s then default else s

abbrev pub with_output : Page → Page
with_output p =
    if p.build_enabled && is_empty (trim_space p.output_dir)
    then record p { output_dir = "dist" }
    else p

-- The settings that need no check beside the package manager's.
settings : UpdatePageInput → Page → Page
settings i p = record p {
  description = given i.description (λ t. t) p.description;
  git_repo = given i.git_repo (λ t. t) p.git_repo;
  git_branch = given i.git_branch (λ t. t) p.git_branch;
  build_enabled = given i.build_enabled (λ b. b) p.build_enabled;
  package_manager = given i.package_manager (λ t. or_text "auto" (trim_space t)) p.package_manager;
  install_command = given i.install_command (λ t. t) p.install_command;
  build_command = given i.build_command (λ t. t) p.build_command;
  output_dir = given i.output_dir trim_space p.output_dir;
  root_directory = given i.root_directory (λ t. or_text "." (trim_space t)) p.root_directory;
  node_version = given i.node_version trim_space p.node_version;
  build_env_vars = given i.build_env_vars (λ m. m) p.build_env_vars;
}

edited : UpdatePageInput → Page → Page
unfolding settings
edited i p = with_output (settings i p)

-- The organization is looked up once, when it is first needed.
pub resolve_org : Page → Option ℕ → Exec World ℕ
resolve_org page (some org_id) = pure org_id
resolve_org page none = do
  project ← wrapping "project not found" (Projects.get_by_id request page.project_id)
  pure project.org_id

git_stage : Option ℕ → Page → Exec World (Page × Option ℕ)
unfolding resolve_org
git_stage none page = pure (page, none)
git_stage (some id) page = do
  org_id ← resolve_org page none
  validate_resource org_id id git_provider
  pure (record page { git_provider_id = some id }, some org_id)

abbrev touches_domain : UpdatePageInput → Bool
touches_domain i =
    is_some i.custom_domain
    || is_some i.manage_dns
    || is_some i.dns_account_id
    || is_some i.dns_zone_id

abbrev same_account : Option ℕ → ℕ → Bool
same_account none id = false
same_account (some a) id = id == a

-- The status is looked at here, and again when the row is written.
account_stage : Option ℕ → Page → Option ℕ → Exec World (Page × Bool)
unfolding resolve_org
account_stage none page known = pure (page, false)
account_stage (some id) page known = do
  throw_if
      (not (same_account page.cloud_account_id id)
        && (Pages.is_deploying page.status || is_cloud_provisioned page))
      (message
        "cannot change cloud account while a deploy is in progress or after the first deploy")
  org_id ← resolve_org page known
  validate_resource org_id id cloud_account
  validate_cloud_account page.provider id
  pure (record page { cloud_account_id = some id }, not (same_account page.cloud_account_id id))

abbrev pub is_aws : PageProvider → Bool
is_aws PageProvider.aws_cloudfront = true
is_aws _ = false

region_stage : Option String → Page → Exec World (Page × Bool)
region_stage none page = pure (page, false)
region_stage (some region) page = do
  throw_if (not (is_aws page.provider)) (message "region can only be set for AWS CloudFront pages")
  throw_if
      (not (str_eq region page.region)
        && (Pages.is_deploying page.status || not (is_empty page.runtime.bucket_name)))
      (message "cannot change region while a deploy is in progress or after the first deploy")
  pure (record page { region = region }, not (str_eq region page.region))

applied : Option Page → Exec World Page
applied none = throw (message "cannot change cloud account or region while a deploy is in progress")
applied (some page) = pure page

-- A new cloud target is written only where no deployment runs.
persist : Bool → Page → Exec World Page
unfolding applied
persist true page = do
  written ← Pages.update_settings_if_not_deploying request page
  applied written
persist false page = Pages.update_settings request page

-- The cloud target, and the write.
retarget : UpdatePageInput → Page → Option ℕ → Exec World Page
unfolding account_stage region_stage persist
retarget i page known = do
  (page1, moved1) ← account_stage i.cloud_account_id page known
  (page2, moved2) ← region_stage i.region page1
  persist (moved1 || moved2) page2

pub check_manager : Option String → Exec World (Unit {0})
check_manager none = pure tt
check_manager (some p) = lift (validate_package_manager p)

module _ (env : PageEnv) where
  with_domain : UpdatePageInput → Page → Page
  with_domain i p = record p {
    custom_domain = given i.custom_domain (normalize_domain env.lower) p.custom_domain;
    manage_dns = given i.manage_dns (λ b. b) p.manage_dns;
    dns_account_id = given i.dns_account_id some p.dns_account_id;
    dns_zone_id = given i.dns_zone_id trim_space p.dns_zone_id;
  }

  pub check_domain : UpdatePageInput → Page → ℕ → Exec World (Unit {0})
  check_domain i p org_id =
      if touches_domain i && not (is_empty p.custom_domain)
      then validate_custom_domain env org_id p.provider (record {
        custom_domain = p.custom_domain;
        manage_dns = p.manage_dns;
        dns_account_id = p.dns_account_id;
        dns_zone_id = p.dns_zone_id;
      })
      else throw_if (p.manage_dns && is_empty p.custom_domain)
          (message "custom_domain is required when manage_dns is enabled")

  keep_domain : UpdatePageInput → Page → Option ℕ → Exec World (Page × Option ℕ)
  keep_domain i page known = do
    throw_if (touches_domain i)
        (message "cannot change custom domain settings after the page has been provisioned")
    pure (page, known)

  change_domain : UpdatePageInput → Page → Option ℕ → Exec World (Page × Option ℕ)
  unfolding resolve_org with_domain check_domain
  change_domain i page known = do
    org_id ← resolve_org page known
    check_domain i (with_domain i page) org_id
    pure (with_domain i page, some org_id)

  domain_stage : UpdatePageInput → Page → Option ℕ → Exec World (Page × Option ℕ)
  unfolding keep_domain change_domain
  domain_stage i page known =
      if is_domain_locked page then keep_domain i page known else change_domain i page known

  unfoldable pub update : ℕ → UpdatePageInput → Exec World Page
  unfolding edited git_stage domain_stage retarget check_manager
  update id i = do
    page ← Pages.get_by_id request id
    check_manager i.package_manager
    (page1, org1) ← git_stage i.git_provider_id (edited i page)
    (page2, org2) ←
        domain_stage i
          (record page1 { publish_path = given i.publish_path (λ t. t) page1.publish_path }) org1
    retarget i page2 org2
