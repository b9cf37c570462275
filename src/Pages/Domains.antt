-- ===== src/Pages/Domains.antt =====
-- Custom domains: page_domain.go, and `ensureCertificate`, `ensureAliasRecord` and
-- `ensureCloudflarePagesDomain` of page_deploy_service.go.
pub mod Keeping
use orkai.Prelude.{
  ℕ, String, Bool, true, false, Option, none, some, List, [], ◌∷◌, ◌&&◌, ◌||◌, not, str_eq,
  if◌then◌else◌,
}
use orkai.Prelude.Text.{trim_space, trim_prefix, trim_suffix}
use orkai.Result.{Result, ok, err, message, formatted, wrapped}
use orkai.Exec.{Exec, pure, lift, view, catch, throw, throw_if, ◌>>=◌, ◌>>◌}
use orkai.Model.Pages.{Page, PageProvider, PageRuntime, PageValidationRecord, SharedResource}
use orkai.World.{World, Context, job}
use orkai.Store.Pages as Pages
use orkai.Pages.Env.{
  PageEnv, Run, in_world, DnsProvider, route53, cloudflare, DnsRecord, values, alias,
}
use orkai.Pages.Common.{log, call, change_page, save_runtime}

abbrev pub is_empty : String → Bool
is_empty s = str_eq s ""

abbrev wrap : {A : Type 0} → String → Result A → Result A
wrap context (ok a) = ok a
wrap context (err e) = err (wrapped context e)

-- `if err := m; err != nil { return fmt.Errorf("context: %w", err) }`
unfoldable pub wrapping : {S A : Type 0} → String → Exec S A → Exec S A
wrapping context m = do r ← catch m; lift (wrap context r)

unfoldable pub normalize_domain : (String → String) → String → String
normalize_domain to_lower domain = trim_suffix "." (to_lower (trim_space domain))

unfoldable pub host_from_url : String → String
host_from_url url =
    trim_suffix "/" (trim_prefix "http://" (trim_prefix "https://" (trim_space url)))

abbrev pub provider_text : PageProvider → String
provider_text PageProvider.aws_cloudfront = "aws_cloudfront"
provider_text PageProvider.cloudflare_pages = "cloudflare_pages"
provider_text (PageProvider.other p) = p

abbrev unfit_account : PageProvider → String
unfit_account PageProvider.cloudflare_pages =
    "managed DNS for Cloudflare Pages requires a Cloudflare cloud account; the %q provider is not supported"
unfit_account _ =
    "managed DNS for pages requires an AWS (Route53) cloud account; the %q provider is not supported because CloudFront-hosted pages use Route53 alias records"

-- Does the account's provider manage the DNS of a page?
abbrev pub dns_account_fits : PageProvider → String → Bool
dns_account_fits PageProvider.cloudflare_pages p = str_eq p "cloudflare"
dns_account_fits _ p = is_empty p || str_eq p "aws" || str_eq p "route53"

unfoldable pub validate_dns_account : Context → PageProvider → ℕ → Exec World (Unit {0})
validate_dns_account c provider account_id = do
  res ← wrapping "dns account not found" (Pages.get_resource c account_id)
  throw_if (not (dns_account_fits provider res.provider))
      (formatted (unfit_account provider) res.provider)

abbrev pub dns_for : String → Result DnsProvider
dns_for p =
    if is_empty p || str_eq p "aws" || str_eq p "route53"
    then ok route53
    else if str_eq p "cloudflare"
    then ok cloudflare
    else err (formatted "DNS management is not supported for provider %q" p)

abbrev pub cloud_account : String
cloud_account = "cloud_account"

unfoldable pub resolve_dns_provider : Context → ℕ → Exec World (DnsProvider × String)
resolve_dns_provider c account_id = do
  res ← wrapping "dns account not found" (Pages.get_resource c account_id)
  throw_if (not (str_eq res.type cloud_account))
      (formatted "resource %s is not a cloud account" res.name)
  provider ← lift (dns_for res.provider)
  pure (provider, res.config)

-- The account that is to manage the page's DNS, once it is known to fit.
managing : Page → Option ℕ → Exec Run (DnsProvider × String)
managing page none =
    throw (message "dns_account_id and dns_zone_id are required when manage_dns is enabled")
managing page (some account_id) = do
  throw_if (is_empty (trim_space page.dns_zone_id))
      (message "dns_account_id and dns_zone_id are required when manage_dns is enabled")
  in_world (validate_dns_account job page.provider account_id)
  in_world (resolve_dns_provider job account_id)

module _ (env : PageEnv) where
  abbrev issued : PageRuntime → PageRuntime
  issued rt = record rt { cert_status = "ISSUED" }

  -- The certificate's ARN is kept before anything else is asked of ACM.
  requested : Page → String → String → List (String × String) → Exec Run String
  requested page domain config tags =
      if not (is_empty page.runtime.certificate_arn) then pure page.runtime.certificate_arn else (do
        log ("Requesting ACM certificate for " ∷ domain ∷ " (us-east-1)…" ∷ [])
        arn ← call (env.request_certificate config domain tags)
        wrapping "persist certificate ARN" (
            save_runtime job
              (record page.runtime { certificate_arn = arn; cert_status = "PENDING_VALIDATION" }))
        pure arn)

  mark_issued : Exec Run (Unit {0})
  mark_issued = do run ← view (λ run. run.page); save_runtime job (issued run.runtime)

  validated_dns : Page → String → String → PageValidationRecord → Exec Run (Unit {0})
  unfolding managing mark_issued
  validated_dns page config arn r = do
    (provider, dns_config) ← managing page page.dns_account_id
    log ("Creating ACM validation record in Route53…" ∷ [])
    wrapping "create validation DNS record" (
        call (
          env.upsert_record provider dns_config page.dns_zone_id
            (record { name = r.name; type = r.type; target = values r.value })))
    log ("Waiting for ACM certificate to become ISSUED (up to 10 min)…" ∷ [])
    call (env.wait_issued config arn)
    mark_issued

  awaited : String → String → Exec Run (Unit {0})
  unfolding mark_issued
  awaited config arn = do
    done ← call (env.is_issued config arn)
    if done then mark_issued else (do
      log (
          "ACTION REQUIRED: Add the ACM validation CNAME record shown above to your DNS provider, then re-deploy."
          ∷ [])
      throw (
          message
            "ACM certificate is not issued yet — add the validation DNS record and re-deploy"))

  certified : Page → String → List (String × String) → Exec Run (Unit {0})
  unfolding requested validated_dns awaited
  certified page config tags = do
    arn ← requested page (normalize_domain env.lower page.custom_domain) config tags
    r ← call (env.validation_record config arn)
    now ← view (λ run. run.page)
    wrapping "persist validation record"
        (save_runtime job (record now.runtime { validation_record = some r }))
    log ("ACM validation record: " ∷ r.type ∷ " " ∷ r.name ∷ " → " ∷ r.value ∷ [])
    if page.manage_dns then validated_dns page config arn r else awaited config arn

  unfoldable pub ensure_certificate : String → List (String × String) → Exec Run (Unit {0})
  unfolding certified
  ensure_certificate config tags = do
    lift (env.parse_credentials config)
    page ← view (λ run. run.page)
    if not (is_empty page.runtime.certificate_arn) && str_eq page.runtime.cert_status "ISSUED"
        then pure tt
        else certified page config tags

  -- Both of the alias records, in order.
  aliases : Page → String → DnsProvider → String → Exec Run (Unit {0})
  aliases page target provider dns_config = do
    wrapping "create A alias" (
        call (
          env.upsert_record provider dns_config page.dns_zone_id
            (record { name = page.custom_domain; type = "A"; target = alias target })))
    wrapping "create AAAA alias" (
        call (
          env.upsert_record provider dns_config page.dns_zone_id
            (record { name = page.custom_domain; type = "AAAA"; target = alias target })))

  managed : Page → String → Exec Run (Unit {0})
  unfolding managing aliases
  managed page target = do
    (provider, dns_config) ← managing page page.dns_account_id
    aliases page target provider dns_config
    log ("Route53 ALIAS records created for " ∷ page.custom_domain ∷ [])

  unfoldable pub ensure_alias_record : Exec Run (Unit {0})
  unfolding managed
  ensure_alias_record = do
    page ← view (λ run. run.page)
    let target = host_from_url page.runtime.default_url
    if page.manage_dns && str_eq page.runtime.alias_target target then pure tt else (do
      save_runtime job (record page.runtime { alias_target = target })
      if not page.manage_dns
          then log (
              "Create a Route53 ALIAS (or CNAME) record: " ∷ page.custom_domain ∷ " → " ∷ target
              ∷ " (zone Z2FDTNDATAQYW2)" ∷ [])
          else managed page target)

  cname : Page → String → Exec Run (Unit {0})
  unfolding managing
  cname page target = do
    (provider, dns_config) ← managing page page.dns_account_id
    log ("Creating CNAME record in Cloudflare DNS…" ∷ [])
    wrapping "create CNAME record" (
        call (
          env.upsert_record provider dns_config page.dns_zone_id
            (record { name = page.custom_domain; type = "CNAME"; target = values target })))
    log ("Cloudflare DNS CNAME created for " ∷ page.custom_domain ∷ [])

  attach : Page → String → String → Exec Run (Unit {0})
  unfolding cname
  attach page config target = do
    lift (env.registry page.provider)
    throw_if (not (env.attacher page.provider)) (
        formatted "pages provider %q does not support custom domain attachment"
          (provider_text page.provider))
    log ("Attaching custom domain " ∷ page.custom_domain ∷ " to Cloudflare Pages…" ∷ [])
    wrapping "attach Pages custom domain"
        (call (env.attach_domain config page.runtime.cf_project_name page.custom_domain))
    save_runtime job (record page.runtime { alias_target = target })
    if not page.manage_dns
        then log ("Create a CNAME record: " ∷ page.custom_domain ∷ " → " ∷ target ∷ [])
        else cname page target

  unfoldable pub ensure_cloudflare_domain : String → Exec Run (Unit {0})
  unfolding attach
  ensure_cloudflare_domain config = do
    page ← view (λ run. run.page)
    throw_if (is_empty page.runtime.cf_project_name)
        (message "Cloudflare Pages project is not provisioned")
    let target = host_from_url page.runtime.default_url
    throw_if (is_empty target) (message "missing default Pages URL")
    if str_eq page.runtime.alias_target target then pure tt else attach page config target
