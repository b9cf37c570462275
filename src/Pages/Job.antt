-- ===== src/Pages/Job.antt =====
-- `RunJob`, `prepareFiles` and `buildFiles` of page_deploy_service.go, with `resolveCloudConfig` and
-- `resolveCloudAccountTags` of page_service.go. The worker's context is not done while the job runs.
pub mod Keeping
pub mod Settles
use orkai.Prelude.{
  ℕ, String, Bool, true, false, Option, none, some, List, [], ◌∷◌, ◌&&◌, not, str_eq, if◌then◌else◌,
}
use orkai.Prelude.Text.{trim_space, first_chars, append}
use orkai.Result.{Result, ok, err, Error, message, formatted, wrapped}
use orkai.Exec.{Exec, pure, lift, view, modify, catch, throw, throw_if, ◌>>=◌, ◌>>◌}
use orkai.Model.Accounts.{Project}
use orkai.Model.Pages.{
  Page, PageProvider, PageRuntime, PageStatus, PageDeployment, PageDeploymentStatus, SharedResource,
}
use orkai.World.{World, Context, background, job, live}
use orkai.Store.Projects as Projects
use orkai.Store.Pages as Pages
use orkai.Pages.Env.{PageEnv, Run, in_world, Source, Streamed, DeployResult}
use orkai.Pages.Common.{
  is_terminal, change_dep, change_page, save_dep, put_status, log, log_all, call, save_runtime,
  succeed, fail,
}
use orkai.Pages.Domains.{
  is_empty, wrapping, cloud_account, ensure_certificate, ensure_alias_record,
  ensure_cloudflare_domain,
}

joined : String → String → String
joined root out =
    if is_empty out then root else if str_eq root "." then out else append root (append "/" out)

-- `buildSyncedPath`
unfoldable pub build_synced_path : Page → String
unfolding joined
build_synced_path page =
    let root = trim_space page.root_directory in
    joined (if is_empty root then "." else root) (trim_space page.output_dir)

-- In characters: a commit's name is hexadecimal.
abbrev pub short_sha : String → String
short_sha sha = if is_empty sha then "unknown" else first_chars 7 sha

module _ {A : Type 0} where
  -- A call that streams to the deploy log.
  streamed : Streamed A → Exec Run A
  streamed s = do log_all s.lines; call s.call

account : Option ℕ → Exec World SharedResource
account none = throw (message "no cloud account configured for this page")
account (some id) = do
  res ← wrapping "cloud account not found" (Pages.get_resource job id)
  throw_if (not (str_eq res.type cloud_account))
      (formatted "resource %s is not a cloud account" res.name)
  pure res

-- `resolveCloudConfig`, and the configuration that `resolveCloudAccountTags` parses.
unfoldable pub resolve_cloud_config : Option ℕ → Exec World String
unfolding account
resolve_cloud_config id = do res ← account id; pure res.config

-- Without a provider a repository is cloned without a token.
abbrev token_of : Result String → Option ℕ → Result String
token_of (ok token) provider = ok token
token_of (err e) none = ok ""
token_of (err e) (some id) = err (wrapped "resolve git token" e)

-- The deployment that the last success of the page left, if it can be read.
abbrev unchanged : String → String → Result PageDeployment → Option String
unchanged sha path (err e) = none
unchanged sha path (ok last) =
    if str_eq last.commit_sha sha && str_eq last.publish_path path
    then some last.provider_ref
    else none

module _ (env : PageEnv) where
  build_files : Page → Exec Run Source
  unfolding streamed build_synced_path
  build_files page = do
    wrapping "static-site builds are not supported by the deploy target" (lift env.builder)
    asked ← catch (call (env.git_token page))
    token ← lift (token_of asked page.git_provider_id)
    log ("Building site in an in-cluster build pod…" ∷ [])
    built ← wrapping "build failed" (streamed (env.build_static page token))
    pure (record built { publish_path = build_synced_path page })

  -- A phase has a deadline of its own.
  start_phase : Exec Run (Unit {0})
  start_phase = modify (λ run. record run { world = record run.world { job_err = live } })

  unfoldable pub prepare_files : Exec Run Source
  unfolding start_phase build_files streamed
  prepare_files = do
    start_phase
    page ← view (λ run. run.page)
    if page.build_enabled
        then build_files page
        else wrapping "clone failed" (streamed (env.prepare page))

  -- The last deploy's reference, where there is nothing new to sync.
  skips : Page → Source → Exec Run (Option String)
  skips page source =
      if not page.build_enabled && not (is_empty source.commit_sha)
      then (do
        last ← catch (in_world (Pages.get_latest_success background page.id))
        pure (unchanged source.commit_sha source.publish_path last))
      else pure none

  saves : List PageRuntime → Exec Run (Unit {0})
  saves [] = pure tt
  saves (rt ∷ rts) = do save_runtime job rt; saves rts

  has_domain : Page → Bool
  has_domain page = not (is_empty (trim_space page.custom_domain))

  is_cloudfront : PageProvider → Bool
  is_cloudfront PageProvider.aws_cloudfront = true
  is_cloudfront _ = false

  certificate_stage : Page → String → List (String × String) → Exec Run (Unit {0})
  unfolding has_domain is_cloudfront
  certificate_stage page config tags =
      if has_domain page && is_cloudfront page.provider
      then (do
        throw_if
            (not (is_empty page.runtime.distribution_id) && is_empty page.runtime.certificate_arn)
            (message
              "this page was first deployed without a custom domain; the existing CloudFront distribution cannot have a domain attached — recreate the page to use a custom domain")
        ensure_certificate env config tags)
      else pure tt

  announce_provision : PageProvider → PageRuntime → Exec Run (Unit {0})
  announce_provision PageProvider.aws_cloudfront rt =
      if is_empty rt.distribution_id
      then log (
          "Provisioning S3 + CloudFront and waiting for the distribution to deploy (first deploy can take ~10–15 min)…"
          ∷ [])
      else pure tt
  announce_provision PageProvider.cloudflare_pages rt =
      if is_empty rt.cf_project_id
      then log ("Provisioning Cloudflare Pages project…" ∷ [])
      else pure tt
  announce_provision (PageProvider.other p) rt = pure tt

  provision_stage : String → List (String × String) → Exec Run (Unit {0})
  unfolding saves announce_provision
  provision_stage config tags = do
    page ← view (λ run. run.page)
    announce_provision page.provider page.runtime
    rt ←
        wrapping "provisioning failed"
          (do saves (env.provision_saves page config tags); call (env.provision page config tags))
    change_page (λ p. record p { runtime = rt })

  domain_by : PageProvider → String → Exec Run (Unit {0})
  domain_by PageProvider.aws_cloudfront config =
      wrapping "alias DNS record failed" (ensure_alias_record env)
  domain_by PageProvider.cloudflare_pages config =
      wrapping "custom domain setup failed" (ensure_cloudflare_domain env config)
  domain_by (PageProvider.other p) config = pure tt

  domain_stage : String → Exec Run (Unit {0})
  unfolding has_domain domain_by
  domain_stage config = do
    page ← view (λ run. run.page)
    if has_domain page && not (is_empty page.runtime.default_url)
        then domain_by page.provider config
        else pure tt

  sync : String → String → Exec Run String
  unfolding streamed
  sync config files = do
    page ← view (λ run. run.page)
    result ← wrapping "deploy failed" (streamed (env.deploy page config files))
    if is_empty result.default_url
        then pure tt
        else log (
            if is_empty page.custom_domain
            then "Live at " ∷ result.default_url ∷ []
            else "Live at https://" ∷ page.custom_domain ∷ [])
    pure result.provider_ref

  cloud_phase : Source → Exec Run String
  unfolding start_phase certificate_stage provision_stage domain_stage sync
  cloud_phase source = do
    start_phase
    page ← view (λ run. run.page)
    lift (env.registry page.provider)
    config ← in_world (resolve_cloud_config page.cloud_account_id)
    project ← wrapping "load project" (in_world (Projects.get_by_id job page.project_id))
    tag_config ← in_world (resolve_cloud_config page.cloud_account_id)
    let tags = env.tags tag_config project page
    tested ← catch (call (env.test_connection config))
    let (valid, text) = env.connection config
    throw_if (not valid) (formatted "cloud credentials invalid: %s" text)
    certificate_stage page config tags
    provision_stage config tags
    domain_stage config
    sync config source.files_dir

  or_cloud : Source → Option String → Exec Run String
  unfolding cloud_phase
  or_cloud source none = cloud_phase source
  or_cloud source (some provider_ref) = do
    log (
        "Commit "
        ∷ short_sha source.commit_sha
        ∷ " and publish folder "
        ∷ source.publish_path
        ∷ " unchanged since last successful deploy — skipping sync."
        ∷ [])
    pure provider_ref

  -- An error of these steps ends the run with `fail`; their value is the reference of the success.
  unfoldable pub work : Exec Run String
  unfolding skips or_cloud
  work = do
    source ← prepare_files
    change_dep
        (λ d. record d { commit_sha = source.commit_sha; publish_path = source.publish_path })
    save_dep
    page ← view (λ run. run.page)
    last ← skips page source
    or_cloud source last

  finish : Result String → Exec Run (Unit {0})
  finish (ok provider_ref) = succeed provider_ref
  finish (err e) = fail env e

  begin : Exec Run (Unit {0})
  begin = do
    now ← view (λ run. run.world.now)
    change_dep (λ d. record d { status = PageDeploymentStatus.deploying; started_at = some now })
    save_dep
    put_status PageStatus.deploying

  unfoldable pub run : Exec Run (Unit {0})
  unfolding begin finish
  run = do begin; outcome ← catch work; finish outcome

  -- The state of the run is made of what was loaded, and is dropped at its end.
  start : PageDeployment → Page → Exec World (Unit {0})
  start dep page w =
      let (r, end) = run (record { world = w; page = page; dep = dep }) in (r, end.world)

  unfoldable pub run_job : ℕ → Exec World (Unit {0})
  unfolding start
  run_job deployment_id = do
    dep ← wrapping "load page deployment" (Pages.get_deployment background deployment_id)
    if is_terminal dep.status then pure tt else (do
      page ← wrapping "load page" (Pages.get_by_id background dep.page_id)
      start dep page)
