-- ===== src/Tests/Pages.antt =====
-- Page deployments at concrete inputs.
use orkai.Prelude.{find?, String, ◌≡◌, ◌+◌, ◌*◌, refl, none, some, true, false, List, [], ◌∷◌}
use orkai.Result.{ok, err, Error}
use orkai.Exec.Triple.{Both}
use orkai.Model.Accounts.{minute}
use orkai.Model.Pages.{
  PageStatus, PageDeployment, PageDeploymentStatus, PageRuntime, SharedResource,
}
use orkai.World.{World}
use orkai.Deploy.Env.{Call, returns}
use orkai.Pages.Env.{PageEnv}
use orkai.Pages.Requests.{trigger, recover_stale, busy}
use orkai.Pages.Requests.Locking.{queued_as, trigger-once}
use orkai.Pages.Service.{delete}
use orkai.Pages.Service.Update.{UpdatePageInput, update}
use orkai.Pages.Service.Update.Locked.{Refused, retargets, deploying-LeftAlone}
use orkai.Pages.Requests.Reopens.{given_up, recover_stale-reopens}
use orkai.Store.Pages as Pages
use orkai.Pages.Job.{run_job}
use orkai.Pages.Job.Settles.{Released, run_job-releases}
use orkai.Tests.Data.{db, world, page}

abbrev dep : PageDeploymentStatus → PageDeployment
dep status = record {
  id = 82;
  created_at = 900;
  deleted_at = none;
  page_id = 81;
  status = status;
  publish_path = "";
  commit_sha = "";
  deploy_log = [];
  provider_ref = "";
  trigger_type = "manual";
  started_at = some 900;
  finished_at = none;
}

abbrev account : SharedResource
account = record {
  id = 91;
  deleted_at = none;
  org_id = 1;
  type = "cloud_account";
  provider = "aws";
  name = "aws";
  config = "{}";
}

abbrev at : PageStatus → List PageDeployment → World
at status deps =
    world
      (record (db [] [] [] []) {
        pages = page status ∷ [];
        page_deployments = deps;
        resources = account ∷ [];
      })
      []

abbrev nothing : {A : Type 0} → A → Call A
nothing a = returns a (λ db. db)

abbrev provisioned : PageRuntime
provisioned = record (page PageStatus.live).runtime {
  distribution_id = "E1";
  default_url = "https://d1.cloudfront.net";
}

abbrev env : PageEnv
env = record {
  text = λ e. "error";
  lower = λ s. s;
  prepare = λ p. record {
    lines = ("Cloning" ∷ []) ∷ [];
    call = nothing (record { files_dir = "/tmp/site"; commit_sha = "abc"; publish_path = "." });
  };
  git_token = λ p. nothing "";
  builder = ok tt;
  build_static = λ p token. record {
    lines = [];
    call = nothing (record { files_dir = "/tmp/site"; commit_sha = "abc"; publish_path = "" });
  };
  registry = λ p. ok tt;
  tags = λ config project p. [];
  test_connection = λ config. nothing tt;
  connection = λ config. (true, "");
  provision_saves = λ p config tags. provisioned ∷ [];
  provision = λ p config tags. nothing provisioned;
  delete = λ p config. nothing tt;
  deploy = λ p config dir. record {
    lines = [];
    call = nothing (record { default_url = "https://d1.cloudfront.net"; provider_ref = "I1" });
  };
  attacher = λ p. false;
  attach_domain = λ config name domain. nothing tt;
  parse_credentials = λ config. ok tt;
  request_certificate = λ config domain tags. nothing "arn";
  validation_record = λ config arn. nothing (record { name = "_x"; type = "CNAME"; value = "y" });
  wait_issued = λ config arn. nothing tt;
  is_issued = λ config arn. nothing true;
  list_records = λ p config zone. ok [];
  upsert_record = λ p config zone r. nothing tt;
}

abbrev as_text : Error → String
as_text e = "connection refused"

abbrev waiting : World
waiting = at PageStatus.deploying (dep PageDeploymentStatus.queued ∷ [])

run_job-releases_example : Both (λ _ w'. Released 81 82 w'.db) (λ _. ⊥) (run_job env 82 waiting)
run_job-releases_example =
    run_job-releases env waiting (dep PageDeploymentStatus.queued) (page PageStatus.deploying) 82
      refl refl refl refl

abbrev to_frankfurt : UpdatePageInput
to_frankfurt = record {
  description = some "The documentation";
  git_repo = none;
  git_branch = none;
  git_provider_id = none;
  publish_path = none;
  cloud_account_id = none;
  region = some "eu-central-1";
  custom_domain = none;
  manage_dns = none;
  dns_account_id = none;
  dns_zone_id = none;
  build_enabled = none;
  package_manager = none;
  install_command = none;
  build_command = none;
  output_dir = none;
  root_directory = none;
  node_version = none;
  build_env_vars = none;
}

moves : retargets to_frankfurt (page PageStatus.deploying) ≡ true
unfolding retargets
moves = refl

deploying-LeftAlone_example :
    Refused waiting (trigger as_text 81 "manual")
    × (Refused waiting (delete 81) × Refused waiting (update env 81 to_frankfurt))
deploying-LeftAlone_example =
    deploying-LeftAlone env as_text 81 (page PageStatus.deploying) "manual" to_frankfurt waiting
      refl refl moves

abbrev long_running : World
long_running = record (at PageStatus.deploying (dep PageDeploymentStatus.deploying ∷ [])) {
  now = 900 + 40 * minute;
}

recover_stale-reopens_example :
    let after = (recover_stale long_running).1 in
    (find? (Pages.dep_by_id 82) after.db.page_deployments
      ≡ some (
          given_up long_running
            (dep PageDeploymentStatus.deploying)
            (page PageStatus.deploying)
            refl
            refl
            refl
            refl))
    × ((trigger as_text 81 "" after).0 ≡ ok (queued_as 81 "" after))
recover_stale-reopens_example =
    recover_stale-reopens long_running (dep PageDeploymentStatus.deploying)
      (page PageStatus.deploying) refl refl refl refl as_text "" 900 refl refl refl

abbrev ready : World
ready = at PageStatus.live []

trigger-once_example :
    ((trigger as_text 81 "" ready).0 ≡ ok (queued_as 81 "" ready))
    × ((trigger as_text 81 "manual" (trigger as_text 81 "" ready).1).0 ≡ err busy)
trigger-once_example =
    trigger-once as_text ready 81 (page PageStatus.live) refl refl refl "" refl "manual"
