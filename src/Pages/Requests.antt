-- ===== src/Pages/Requests.antt =====
-- `Trigger` and `recoverStale` of page_deploy_service.go.
pub mod Locking
pub mod Reopens
use orkai.Prelude.{
  ℕ, ◌-◌, ◌*◌, String, Bool, true, false, Option, none, some, List, [], ◌∷◌, not, leb, str_eq,
  is_some, if◌then◌else◌,
}
use orkai.Result.{Result, ok, err, Error, message, wrapped}
use orkai.Exec.{Exec, pure, lift, view, catch, ignore, throw_if, ◌>>=◌, ◌>>◌}
use orkai.Model.Accounts.{minute}
use orkai.Model.Jobs.{new_page_deploy_job}
use orkai.Model.Pages.{Page, PageStatus, PageDeployment, PageDeploymentStatus, plain}
use orkai.World.{World, request, background}
use orkai.Store.Pages as Pages
use orkai.Store.Jobs as Queue
use orkai.Pages.Common.{update_deploy, set_page_status, finished}

abbrev pub stale_threshold : ℕ
stale_threshold = 40 * minute

abbrev pub busy : Error
busy = message "page is already deploying, wait for it to finish"

abbrev pub new_deployment : ℕ → String → PageDeployment
new_deployment page_id trigger_type = record {
  id = 0;
  created_at = 0;
  deleted_at = none;
  page_id = page_id;
  status = PageDeploymentStatus.queued;
  publish_path = "";
  commit_sha = "";
  deploy_log = [];
  provider_ref = "";
  trigger_type = if str_eq trigger_type "" then "manual" else trigger_type;
  started_at = none;
  finished_at = none;
}

-- `text` is `err.Error()`. A failed enqueue ends the deployment and gives the page its former status back.
enqueued :
    (Error → String)
    → Result (Unit {0})
    → Page
    → PageStatus
    → PageDeployment
    → Exec World PageDeployment
unfolding update_deploy set_page_status
enqueued text (ok _) page prev dep = pure dep
enqueued text (err e) page prev dep = do
  now ← view (λ w. w.now)
  update_deploy request (record (finished PageDeploymentStatus.failed now dep) {
    deploy_log = plain ("Failed to enqueue deploy job: " ∷ text e ∷ []) ∷ [];
  })
  set_page_status request page prev
  lift (err (wrapped "enqueue page deploy job" e))

created : (Error → String) → Result PageDeployment → Page → PageStatus → Exec World PageDeployment
unfolding enqueued
created text (err e) page prev = do set_page_status request page prev; lift (err e)
created text (ok dep) page prev = do
  sent ← catch (Queue.enqueue request (new_page_deploy_job dep.id))
  enqueued text sent page prev dep

unfoldable pub trigger : (Error → String) → ℕ → String → Exec World PageDeployment
unfolding created
trigger text page_id trigger_type = do
  page ← Pages.get_by_id request page_id
  throw_if (Pages.is_deploying page.status) busy
  throw_if (not (is_some page.cloud_account_id))
      (message "configure a cloud account on this page before deploying")
  won ← Pages.try_mark_deploying request page_id
  throw_if (not won) busy
  dep ← catch (Pages.create_deployment request (new_deployment page_id trigger_type))
  created text dep (record page { status = PageStatus.deploying }) page.status

-- `StartedAt`, where it is set.
abbrev since : PageDeployment → ℕ
since d = or_created d.started_at
  where
    or_created : Option ℕ → ℕ
    or_created none = d.created_at
    or_created (some t) = t

-- `time.Since(ref) < threshold` is skipped.
abbrev pub is_stale : ℕ → PageDeployment → Bool
is_stale now d = leb stale_threshold (now - since d)

release : Result Bool → PageDeployment → Exec World (Unit {0})
release (err e) d = pure tt
release (ok false) d = pure tt
release (ok true) d = ignore (Pages.update_status background d.page_id PageStatus.error)

time_out : PageDeployment → Exec World (Unit {0})
unfolding release
time_out d = do
  now ← view (λ w. w.now)
  marked ← catch (
      Pages.mark_timed_out background d.id now
        ("\n\n--- Deploy timed out (stale for >40min) ---" ∷ []))
  release marked d

recover_each : List PageDeployment → Exec World (Unit {0})
unfolding time_out
recover_each [] = pure tt
recover_each (d ∷ ds) = do
  now ← view (λ w. w.now)
  if is_stale now d then time_out d else pure tt
  recover_each ds

all_of : Result (List PageDeployment) → Exec World (Unit {0})
unfolding recover_each
all_of (err e) = pure tt
all_of (ok ds) = recover_each ds

unfoldable pub recover_stale : Exec World (Unit {0})
unfolding all_of
recover_stale = do
  ds ← catch (Pages.list_by_status background PageDeploymentStatus.deploying 1 1000)
  all_of ds
