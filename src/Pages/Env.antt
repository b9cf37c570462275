-- ===== src/Pages/Env.antt =====
-- What the run of a page's deployment takes from outside: the git clone or the build pod, the tags, the
-- pages provider, ACM and the DNS providers; and the state of a run.
use orkai.Prelude.{String, Bool, List}
use orkai.Result.{Result, Error}
use orkai.Exec.{Exec}
use orkai.Model.Accounts.{Project}
use orkai.Model.Pages.{Page, PageRuntime, PageProvider, PageDeployment, PageValidationRecord}
use orkai.World.{World}
use orkai.Deploy.Env.{Call}

-- The directory of the files, the commit and the folder. The directory is removed when the run ends.
pub record Source : Type 0 where
  pub files_dir : String
  pub commit_sha : String
  pub publish_path : String

-- A call that streams lines to the deploy log.
pub record Streamed (A : Type 0) : Type 0 where
  pub lines : List (List String)
  pub call : Call A

pub record DeployResult : Type 0 where
  pub default_url : String
  pub provider_ref : String

-- `dns.For` gives one of two providers.
pub data DnsProvider : Type 0 where
  route53 cloudflare : DnsProvider

pub data Target : Type 0 where
  values : String → Target
  -- an alias to this name in CloudFront's zone
  alias : String → Target

pub record DnsRecord : Type 0 where
  pub name : String
  pub type : String
  pub target : Target

pub record PageEnv : Type 0 where
  -- `err.Error()`
  pub text : Error → String
  -- `strings.ToLower`
  pub lower : String → String
  -- `PagePublishService.Prepare` and `ResolveGitToken`
  pub prepare : Page → Streamed Source
  pub git_token : Page → Call String
  -- the target's capability to build a site, and `BuildStatic` with a token
  pub builder : Result (Unit {0})
  pub build_static : Page → String → Streamed Source
  -- `registry.Get`
  pub registry : PageProvider → Result (Unit {0})
  -- `ParseAccountTags` and `ResolveTags`
  pub tags : String → Project → Page → List (String × String)
  -- `TestConnection`: what it does, and its first two results. The third is dropped.
  pub test_connection : String → Call (Unit {0})
  pub connection : String → Bool × String
  -- the runtimes that `Provision` saves on its way, and its outcome
  pub provision_saves : Page → String → List (String × String) → List PageRuntime
  pub provision : Page → String → List (String × String) → Call PageRuntime
  pub delete : Page → String → Call (Unit {0})
  pub deploy : Page → String → String → Streamed DeployResult
  -- does the provider attach custom domains, and `AttachCustomDomain`
  pub attacher : PageProvider → Bool
  pub attach_domain : String → String → String → Call (Unit {0})
  -- ACM, with the parsed credentials
  pub parse_credentials : String → Result (Unit {0})
  pub request_certificate : String → String → List (String × String) → Call String
  pub validation_record : String → String → Call PageValidationRecord
  pub wait_issued : String → String → Call (Unit {0})
  pub is_issued : String → String → Call Bool
  -- the names that `ListRecords` gives for a zone
  pub list_records : DnsProvider → String → String → Result (List String)
  -- `UpsertRecord`, with the credentials and the zone
  pub upsert_record : DnsProvider → String → String → DnsRecord → Call (Unit {0})

pub record Run : Type 0 where
  pub world : World
  -- the rows as the run holds them in memory
  pub page : Page
  pub dep : PageDeployment

module _ {A : Type 0} where
  unfoldable pub in_world : Exec World A → Exec Run A
  in_world m run = let (r, w) = m run.world in (r, record run { world = w })
