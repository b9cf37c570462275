-- ===== src/Pages/Domains/Keeping.antt =====
-- The domain steps keep what a page's run is about.
use orkai.Prelude.{ℕ, String, Option, none, some, List}
use orkai.Exec.Preserves.{Preserves, Preserves-bind, Preserves-throw}
use orkai.Model.Pages.{Page, PageValidationRecord}
use orkai.Pages.Env.{PageEnv, DnsProvider}
use orkai.Pages.Domains.{
  managing, requested, mark_issued, validated_dns, awaited, certified, ensure_certificate, aliases,
  managed, ensure_alias_record, cname, attach, ensure_cloudflare_domain,
}
use orkai.Pages.Keeping.{Holds, holds_rules}

module _ {P D : ℕ} where
  managing-Holds : (page : Page) (id : Option ℕ) → Preserves (Holds P D) (managing page id)
  unfolding managing
  managing-Holds page none = Preserves-throw _
  managing-Holds page (some id) = search holds_rules depth 16

  cname-Holds :
      (env : PageEnv) (page : Page) (target : String)
      → Preserves (Holds P D) (cname env page target)
  unfolding cname
  cname-Holds env page target =
      Preserves-bind _ _ (managing-Holds page _) (λ (provider, config). search holds_rules depth 20)

module _ {P D : ℕ} (env : PageEnv) where
  mark_issued-Holds : Preserves (Holds P D) (mark_issued env)
  unfolding mark_issued
  mark_issued-Holds = search holds_rules depth 16

  requested-Holds :
      (page : Page) (domain config : String) (tags : List (String × String))
      → Preserves (Holds P D) (requested env page domain config tags)
  unfolding requested
  requested-Holds page domain config tags = search holds_rules depth 20

  validated_dns-Holds :
      (page : Page) (config arn : String) (r : PageValidationRecord)
      → Preserves (Holds P D) (validated_dns env page config arn r)
  unfolding validated_dns
  validated_dns-Holds page config arn r =
      Preserves-bind _ _ (managing-Holds page _)
        (λ (provider, dns). search (holds_rules, mark_issued-Holds) depth 20)

  awaited-Holds : (config arn : String) → Preserves (Holds P D) (awaited env config arn)
  unfolding awaited
  awaited-Holds config arn = search (holds_rules, mark_issued-Holds) depth 20

  certified-Holds :
      (page : Page) (config : String) (tags : List (String × String))
      → Preserves (Holds P D) (certified env page config tags)
  unfolding certified
  certified-Holds page config tags =
      search (holds_rules, requested-Holds, validated_dns-Holds, awaited-Holds) depth 20

  pub ensure_certificate-Holds :
      (config : String) (tags : List (String × String))
      → Preserves (Holds P D) (ensure_certificate env config tags)
  unfolding ensure_certificate
  ensure_certificate-Holds config tags = search (holds_rules, certified-Holds) depth 20

  aliases-Holds :
      (page : Page) (target : String) (p : DnsProvider) (config : String)
      → Preserves (Holds P D) (aliases env page target p config)
  unfolding aliases
  aliases-Holds page target p config = search holds_rules depth 20

  managed-Holds : (page : Page) (target : String) → Preserves (Holds P D) (managed env page target)
  unfolding managed
  managed-Holds page target =
      Preserves-bind _ _ (managing-Holds page _)
        (λ (provider, dns). search (holds_rules, aliases-Holds) depth 20)

  pub ensure_alias_record-Holds : Preserves (Holds P D) (ensure_alias_record env)
  unfolding ensure_alias_record
  ensure_alias_record-Holds = search (holds_rules, managed-Holds) depth 20

  attach-Holds :
      (page : Page) (config target : String) → Preserves (Holds P D) (attach env page config target)
  unfolding attach
  attach-Holds page config target = search (holds_rules, cname-Holds) depth 30

  pub ensure_cloudflare_domain-Holds :
      (config : String) → Preserves (Holds P D) (ensure_cloudflare_domain env config)
  unfolding ensure_cloudflare_domain
  ensure_cloudflare_domain-Holds config = search (holds_rules, attach-Holds) depth 20
