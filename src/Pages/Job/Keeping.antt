-- ===== src/Pages/Job/Keeping.antt =====
-- The steps between the start and the end of a page's run keep what it is about.
use orkai.Prelude.{ℕ, String, refl, Option, none, some, List, [], ◌∷◌}
use orkai.Exec.{modify}
use orkai.Exec.Preserves.{Preserves, Preserves-bind, Preserves-throw, Preserves-pure}
use orkai.Model.Pages.{Page, PageRuntime, PageProvider}
use orkai.World.{Context}
use orkai.Store.Projects as Projects
use orkai.Store.Pages as Pages
use orkai.Pages.Env.{PageEnv, Source, Streamed}
use orkai.Pages.Job.{
  streamed, account, resolve_cloud_config, build_files, start_phase, prepare_files, skips, saves,
  certificate_stage, announce_provision, provision_stage, domain_by, domain_stage, sync,
  cloud_phase, or_cloud, work,
}
use orkai.Pages.Keeping.{
  Up, Holds, fetch-Up, select-Up, change_dep-Holds, runtime-Holds, up_rules, holds_rules,
}
use orkai.Pages.Domains.Keeping.{
  ensure_certificate-Holds, ensure_alias_record-Holds, ensure_cloudflare_domain-Holds,
}

account-Up : (id : Option ℕ) → Preserves Up (account id)
unfolding account
account-Up none = Preserves-throw _
account-Up (some id) = search up_rules depth 16

resolve_cloud_config-Up : (id : Option ℕ) → Preserves Up (resolve_cloud_config id)
unfolding resolve_cloud_config
resolve_cloud_config-Up id = search (up_rules, account-Up)

get_project-Up : (c : Context) (id : ℕ) → Preserves Up (Projects.get_by_id c id)
unfolding Projects.get_by_id Projects.attach_team
get_project-Up c id = search (up_rules, select-Up)

get_latest-Up : (c : Context) (id : ℕ) → Preserves Up (Pages.get_latest_success c id)
unfolding Pages.get_latest_success
get_latest-Up c id = fetch-Up c _

module _ {P D : ℕ} where
  streamed-Holds : {A : Type 0} (s : Streamed A) → Preserves (Holds P D) (streamed s)
  unfolding streamed
  streamed-Holds s = search holds_rules

module _ {P D : ℕ} (env : PageEnv) where
  build_files-Holds : (page : Page) → Preserves (Holds P D) (build_files env page)
  unfolding build_files
  build_files-Holds page = search (holds_rules, streamed-Holds) depth 24

  start_phase-Holds : Preserves (Holds P D) (start_phase env)
  unfolding start_phase modify
  start_phase-Holds = record {
    at = λ run h. record {
      up = h.up;
      same_page = h.same_page;
      same_deployment = h.same_deployment;
      deploying = h.deploying;
    };
  }

  prepare_files-Holds : Preserves (Holds P D) (prepare_files env)
  unfolding prepare_files
  prepare_files-Holds =
      search (holds_rules, start_phase-Holds, build_files-Holds, streamed-Holds) depth 24

  skips-Holds : (page : Page) (s : Source) → Preserves (Holds P D) (skips env page s)
  unfolding skips
  skips-Holds page s = search (holds_rules, get_latest-Up) depth 24

  saves-Holds : (rts : List PageRuntime) → Preserves (Holds P D) (saves env rts)
  unfolding saves
  saves-Holds [] = Preserves-pure tt
  saves-Holds (rt ∷ rts) = let ih = saves-Holds rts in search holds_rules

  certificate_stage-Holds :
      (page : Page) (config : String) (tags : List (String × String))
      → Preserves (Holds P D) (certificate_stage env page config tags)
  unfolding certificate_stage
  certificate_stage-Holds page config tags = search (holds_rules, ensure_certificate-Holds) depth 24

  announce_provision-Holds :
      (p : PageProvider) (rt : PageRuntime) → Preserves (Holds P D) (announce_provision env p rt)
  unfolding announce_provision
  announce_provision-Holds PageProvider.aws_cloudfront rt = search holds_rules
  announce_provision-Holds PageProvider.cloudflare_pages rt = search holds_rules
  announce_provision-Holds (PageProvider.other p) rt = Preserves-pure tt

  provision_stage-Holds :
      (config : String) (tags : List (String × String))
      → Preserves (Holds P D) (provision_stage env config tags)
  unfolding provision_stage
  provision_stage-Holds config tags =
      search (holds_rules, announce_provision-Holds, saves-Holds, runtime-Holds) depth 24

  domain_by-Holds :
      (p : PageProvider) (config : String) → Preserves (Holds P D) (domain_by env p config)
  unfolding domain_by
  domain_by-Holds PageProvider.aws_cloudfront config =
      search (holds_rules, ensure_alias_record-Holds)
  domain_by-Holds PageProvider.cloudflare_pages config =
      search (holds_rules, ensure_cloudflare_domain-Holds)
  domain_by-Holds (PageProvider.other p) config = Preserves-pure tt

  domain_stage-Holds : (config : String) → Preserves (Holds P D) (domain_stage env config)
  unfolding domain_stage
  domain_stage-Holds config = search (holds_rules, domain_by-Holds) depth 20

  sync-Holds : (config files : String) → Preserves (Holds P D) (sync env config files)
  unfolding sync
  sync-Holds config files = search (holds_rules, streamed-Holds) depth 24

  cloud_phase-Holds : (s : Source) → Preserves (Holds P D) (cloud_phase env s)
  unfolding cloud_phase
  cloud_phase-Holds s =
      search
        (
          holds_rules, start_phase-Holds, resolve_cloud_config-Up, get_project-Up,
          certificate_stage-Holds, provision_stage-Holds, domain_stage-Holds, sync-Holds,
        )
        depth 40

  or_cloud-Holds : (s : Source) (last : Option String) → Preserves (Holds P D) (or_cloud env s last)
  unfolding or_cloud
  or_cloud-Holds s none = cloud_phase-Holds s
  or_cloud-Holds s (some ref) = search holds_rules

  pub work-Holds : Preserves (Holds P D) (work env)
  unfolding work
  work-Holds = Preserves-bind _ _ prepare_files-Holds (λ s.
      Preserves-bind _ _ (change_dep-Holds _ (λ d. refl))
        (λ _. search (holds_rules, skips-Holds, or_cloud-Holds) depth 24))
