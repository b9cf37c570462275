-- ===== src/Pages/Service/Update/Reading.antt =====
-- The checks of an update write nothing.
use orkai.Prelude.{ℕ, String, Option, none, some}
use orkai.Exec.{Exec}
use orkai.Exec.Preserves.{preserves_rules, Preserves-bind, Preserves-catch, Preserves-lift}
use orkai.Model.Pages.{Page, PageProvider}
use orkai.World.{World, Context}
use orkai.Store.Reads.{Reads, fetch-Reads, get_project-Reads}
use orkai.Store.Pages as Pages
use orkai.Pages.Env.{PageEnv}
use orkai.Pages.Domains.{wrapping, validate_dns_account, resolve_dns_provider}
use orkai.Pages.Service.{
  Domain, validate_resource, validate_cloud_account, validate_custom_domain, managed_domain,
}
use orkai.Pages.Service.Update.{UpdatePageInput, resolve_org, check_manager, check_domain}

pub wrapping-Reads :
    {A : Type 0} (text : String) (m : Exec World A) → Reads m → Reads (wrapping text m)
unfolding wrapping
wrapping-Reads text m h db = Preserves-bind _ _ (Preserves-catch m (h db)) (λ r. Preserves-lift _)

pub get_resource-Reads : (c : Context) (id : ℕ) → Reads (Pages.get_resource c id)
unfolding Pages.get_resource
get_resource-Reads c id = fetch-Reads c _

ruleset reads_rules = (preserves_rules, wrapping-Reads, get_resource-Reads, get_project-Reads)

pub validate_resource-Reads : (o id : ℕ) (want : String) → Reads (validate_resource o id want)
unfolding validate_resource
validate_resource-Reads o id want db = search reads_rules depth 16

pub validate_cloud_account-Reads : (p : PageProvider) (id : ℕ) → Reads (validate_cloud_account p id)
unfolding validate_cloud_account
validate_cloud_account-Reads p id db = search reads_rules depth 16

pub validate_dns_account-Reads :
    (c : Context) (p : PageProvider) (id : ℕ) → Reads (validate_dns_account c p id)
unfolding validate_dns_account
validate_dns_account-Reads c p id db = search reads_rules depth 16

pub resolve_dns_provider-Reads : (c : Context) (id : ℕ) → Reads (resolve_dns_provider c id)
unfolding resolve_dns_provider
resolve_dns_provider-Reads c id db = search reads_rules depth 16

pub resolve_org-Reads : (p : Page) (known : Option ℕ) → Reads (resolve_org p known)
unfolding resolve_org
resolve_org-Reads p none db = search reads_rules
resolve_org-Reads p (some o) db = search reads_rules

pub check_manager-Reads : (m : Option String) → Reads (check_manager m)
unfolding check_manager
check_manager-Reads none db = search preserves_rules
check_manager-Reads (some p) db = search preserves_rules

module _ (env : PageEnv) where
  managed_domain-Reads :
      (o : ℕ) (p : PageProvider) (name : String) (d : Domain) (id : Option ℕ)
      → Reads (managed_domain env o p name d id)
  unfolding managed_domain
  managed_domain-Reads o p name d none db = search preserves_rules
  managed_domain-Reads o p name d (some id) db =
      search
        (
          reads_rules, validate_resource-Reads, validate_dns_account-Reads,
          resolve_dns_provider-Reads,
        )
        depth 24

  pub validate_custom_domain-Reads :
      (o : ℕ) (p : PageProvider) (d : Domain) → Reads (validate_custom_domain env o p d)
  unfolding validate_custom_domain
  validate_custom_domain-Reads o p d db = search (preserves_rules, managed_domain-Reads) depth 16

  pub check_domain-Reads : (i : UpdatePageInput) (p : Page) (o : ℕ) → Reads (check_domain env i p o)
  unfolding check_domain
  check_domain-Reads i p o db = search (preserves_rules, validate_custom_domain-Reads)
