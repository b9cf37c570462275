-- ===== src/Pages/Service.antt =====
-- The page service (apps/api/internal/service/page_service.go), and `validateCustomDomain` of
-- page_domain.go.
pub mod Update
pub mod Create
use orkai.Prelude.{
  ℕ, String, Bool, true, false, Option, none, some, List, [], ◌∷◌, ◌&&◌, ◌||◌, not, ◌==◌, str_eq,
  is_some, if◌then◌else◌,
}
use orkai.Prelude.Text.{trim_space, append}
use orkai.Result.{Result, ok, err, Error, message, formatted, wrapped}
use orkai.Exec.{Exec, pure, lift, view, catch, throw, throw_if, ignore, ◌>>=◌, ◌>>◌}
use orkai.Model.Accounts.{Project}
use orkai.Model.Pages.{Page, PageProvider, PageRuntime, PageStatus, SharedResource}
use orkai.World.{World, Context, request, background, notify}
use orkai.Store.Projects as Projects
use orkai.Store.Pages as Pages
use orkai.Deploy.Env.{perform}
use orkai.Pages.Env.{PageEnv, DnsProvider}
use orkai.Pages.Domains.{
  is_empty, wrapping, normalize_domain, validate_dns_account, resolve_dns_provider, cloud_account,
}
use orkai.Pages.Job.{resolve_cloud_config}

abbrev git_provider : String
git_provider = "git_provider"

-- A resource of the wanted type that belongs to the organization.
unfoldable pub validate_resource : ℕ → ℕ → String → Exec World (Unit {0})
validate_resource org_id id want = do
  res ← wrapping (append want " resource not found") (Pages.get_resource request id)
  throw_if (not (str_eq res.type want)) (formatted (append "resource %s is not a " want) res.name)
  throw_if (not (res.org_id == org_id))
      (formatted "resource %s does not belong to this organization" res.name)

abbrev wanted_account : PageProvider → Result String
wanted_account PageProvider.cloudflare_pages = ok "cloudflare"
wanted_account PageProvider.aws_cloudfront = ok "aws"
wanted_account (PageProvider.other p) =
    if is_empty p then ok "aws" else err (formatted "unsupported page provider %q" p)

abbrev named : String → String
named provider = if is_empty provider then "aws" else provider

unfoldable pub validate_cloud_account : PageProvider → ℕ → Exec World (Unit {0})
validate_cloud_account provider id = do
  res ← wrapping "cloud account not found" (Pages.get_resource request id)
  want ← lift (wanted_account provider)
  throw_if (not (str_eq (named res.provider) want)) (
      formatted "page provider %q requires a %s cloud account, but %q was selected"
        (named res.provider))

abbrev is_known_manager : String → Bool
is_known_manager p = is_empty p || str_eq p "auto" || str_eq p "npm" || str_eq p "pnpm"

unfoldable pub validate_package_manager : String → Result (Unit {0})
validate_package_manager p =
    if is_known_manager (trim_space p)
    then ok tt
    else err (message "package_manager must be one of: auto, npm, pnpm")

abbrev pub is_cloud_provisioned : Page → Bool
is_cloud_provisioned page = by page.provider
  where
    by : PageProvider → Bool
    by PageProvider.cloudflare_pages = not (is_empty page.runtime.cf_project_id)
    by _ = not (is_empty page.runtime.bucket_name) || not (is_empty page.runtime.distribution_id)

abbrev pub is_domain_locked : Page → Bool
is_domain_locked page = by page.provider
  where
    by : PageProvider → Bool
    by PageProvider.cloudflare_pages = not (is_empty page.runtime.cf_project_id)
    by _ =
        not (is_empty page.runtime.certificate_arn) || not (is_empty page.runtime.distribution_id)

-- The DNS settings of a page.
pub record Domain : Type 0 where
  pub custom_domain : String
  pub manage_dns : Bool
  pub dns_account_id : Option ℕ
  pub dns_zone_id : String

abbrev has_record : (String → String) → String → List String → Bool
has_record to_lower want [] = false
has_record to_lower want (name ∷ names) =
    str_eq (normalize_domain to_lower name) want || has_record to_lower want names

module _ (env : PageEnv) where
  managed_domain : ℕ → PageProvider → String → Domain → Option ℕ → Exec World (Unit {0})
  managed_domain org_id provider domain d none =
      throw (message "dns_account_id and dns_zone_id are required when manage_dns is enabled")
  managed_domain org_id provider domain d (some account_id) = do
    throw_if (is_empty (trim_space d.dns_zone_id))
        (message "dns_account_id and dns_zone_id are required when manage_dns is enabled")
    validate_resource org_id account_id cloud_account
    validate_dns_account request provider account_id
    (dns, config) ← resolve_dns_provider request account_id
    names ← wrapping "list DNS records" (lift (env.list_records dns config d.dns_zone_id))
    throw_if (has_record env.lower domain names) (
        formatted "domain %q is not available — a DNS record already exists in the selected zone"
          domain)

  unfoldable pub validate_custom_domain : ℕ → PageProvider → Domain → Exec World (Unit {0})
  unfolding managed_domain
  validate_custom_domain org_id provider d =
      let domain = normalize_domain env.lower d.custom_domain in
      if is_empty domain
      then pure tt
      else if not d.manage_dns
      then pure tt
      else managed_domain org_id provider domain d d.dns_account_id

notify_deleted : Result Project → Page → Exec World (Unit {0})
notify_deleted (ok project) page = notify project.org_id "page_deleted" page.name
notify_deleted (err e) page = pure tt

abbrev pub deploying_now : Error
deploying_now = message "page is currently deploying, wait for it to finish before deleting"

gone : Option Page → Exec World (Option Page)
unfolding notify_deleted
gone none = throw deploying_now
gone (some page) = do
  project ← catch (Projects.get_by_id background page.project_id)
  notify_deleted project page
  pure (if is_cloud_provisioned page then some page else none)

-- The answer is the row whose cloud resources `teardown` then removes, apart from the request.
unfoldable pub delete : ℕ → Exec World (Option Page)
unfolding gone
delete id = do
  page ← Pages.get_by_id request id
  throw_if (Pages.is_deploying page.status) deploying_now
  deleted ← Pages.delete_if_not_deploying request id
  gone deleted

module _ (env : PageEnv) where
  -- What fails is only logged.
  unfoldable pub teardown : Page → Exec World (Unit {0})
  teardown page = ignore (do
    lift (env.registry page.provider)
    config ← resolve_cloud_config page.cloud_account_id
    perform (env.delete page config))
