-- ===== src/Pages/Common.antt =====
-- The helpers of page_deploy_service.go: log lines, logged updates, the ends of a run.
pub mod Notices
use orkai.Prelude.{ℕ, String, Bool, true, false, some, List, [], ◌∷◌, ◌++◌, if◌then◌else◌}
use orkai.Result.{Result, ok, err, Error}
use orkai.Exec.{Exec, pure, view, modify, catch, ignore, ◌>>=◌, ◌>>◌}
use orkai.Model.Accounts.{Project}
use orkai.Model.Pages.{
  Page, PageStatus, PageRuntime, PageDeployment, PageDeploymentStatus, LogEntry, line,
}
use orkai.World.{World, Context, background, notify}
use orkai.Store.Projects as Projects
use orkai.Store.Pages as Pages
use orkai.Pages.Env.{PageEnv, Run, in_world}
use orkai.Deploy.Env.{Call, perform}

abbrev pub is_terminal : PageDeploymentStatus → Bool
is_terminal PageDeploymentStatus.success = true
is_terminal PageDeploymentStatus.failed = true
is_terminal PageDeploymentStatus.cancelled = true
is_terminal _ = false

abbrev pub same_page_status : PageStatus → PageStatus → Bool
same_page_status PageStatus.idle PageStatus.idle = true
same_page_status PageStatus.deploying PageStatus.deploying = true
same_page_status PageStatus.live PageStatus.live = true
same_page_status PageStatus.error PageStatus.error = true
same_page_status PageStatus.draining PageStatus.draining = true
same_page_status _ _ = false

unfoldable pub update_deploy : Context → PageDeployment → Exec World (Unit {0})
update_deploy c d = ignore (Pages.update_deployment c d)

-- Nothing is written where the page in memory has the status.
unfoldable pub set_page_status : Context → Page → PageStatus → Exec World (Unit {0})
set_page_status c page status =
    if same_page_status page.status status
    then pure tt
    else ignore (Pages.update_status c page.id status)

to_org : Page → String → Result Project → Exec World (Unit {0})
to_org page event (ok project) = notify project.org_id event page.name
to_org page event (err e) = pure tt

unfoldable pub notify_page : Page → String → Exec World (Unit {0})
unfolding to_org
notify_page page event = do
  project ← catch (Projects.get_by_id background page.project_id)
  to_org page event project

-- The same on the state of a run. Bookkeeping has the worker's context, which outlives the phases'.
unfoldable pub change_dep : (PageDeployment → PageDeployment) → Exec Run (Unit {0})
change_dep f = modify (λ run. record run { dep = f run.dep })

unfoldable pub change_page : (Page → Page) → Exec Run (Unit {0})
change_page f = modify (λ run. record run { page = f run.page })

unfoldable pub save_dep : Exec Run (Unit {0})
save_dep = do d ← view (λ run. run.dep); in_world (update_deploy background d)

unfoldable pub put_status : PageStatus → Exec Run (Unit {0})
put_status status = do
  page ← view (λ run. run.page)
  change_page (λ p. record p { status = status })
  in_world (set_page_status background page status)

-- `appendLog`
abbrev pub append_log : ℕ → List String → PageDeployment → PageDeployment
append_log now text d = record d { deploy_log = d.deploy_log ++ line now text ∷ [] }

unfoldable pub log : List String → Exec Run (Unit {0})
log text = do now ← view (λ run. run.world.now); change_dep (append_log now text); save_dep

unfoldable pub log_all : List (List String) → Exec Run (Unit {0})
log_all [] = pure tt
log_all (l ∷ ls) = do log l; log_all ls

unfoldable pub call : {A : Type 0} → Call A → Exec Run A
call c = in_world (perform c)

-- `save`: the page in memory has the runtime, whether or not it could be written.
unfoldable pub save_runtime : Context → PageRuntime → Exec Run (Unit {0})
save_runtime c rt = do
  page ← view (λ run. run.page)
  change_page (λ p. record p { runtime = rt })
  in_world (Pages.update_runtime c page.id rt)

abbrev pub finished : PageDeploymentStatus → ℕ → PageDeployment → PageDeployment
finished status now d = record d { status = status; finished_at = some now }

-- The rows are written before the notification goes out.
unfoldable pub record_end : (ℕ → PageDeployment → PageDeployment) → PageStatus → Exec Run (Unit {0})
record_end end status = do
  now ← view (λ run. run.world.now)
  change_dep (end now)
  save_dep
  put_status status

unfoldable pub announce : String → Exec Run (Unit {0})
announce event = do page ← view (λ run. run.page); in_world (notify_page page event)

abbrev pub succeeded : String → ℕ → PageDeployment → PageDeployment
succeeded provider_ref now d = record (finished PageDeploymentStatus.success now d) {
  provider_ref = provider_ref;
}

abbrev pub failed : List String → ℕ → PageDeployment → PageDeployment
failed text now d = append_log now text (finished PageDeploymentStatus.failed now d)

unfoldable pub succeed : String → Exec Run (Unit {0})
succeed provider_ref = do
  record_end (succeeded provider_ref) PageStatus.live
  announce "deploy_success"

unfoldable pub fail : PageEnv → Error → Exec Run (Unit {0})
fail env e = do
  record_end (failed ("ERROR: " ∷ env.text e ∷ [])) PageStatus.error
  announce "deploy_failed"
