-- ===== src/Access/Guards.antt =====
-- apps/api/internal/api/v1/guards.go. A guard that lets the request pass returns `tt`; the answer
-- with which it aborts is its error.
pub mod Sound
pub mod Complete
use orkai.Prelude.{ℕ, String, Option, none, some, not, List, map}
use orkai.Result.{Result, Error, problem}
use orkai.Exec.{Exec, throw, throw_if, or_else, ◌>>=◌, ◌>>◌}
use orkai.Model.Accounts.{Owned, Domain}
use orkai.Model.Pages.{owned_page}
use orkai.Model.Deploys.{Deployment, Application}
use orkai.World.{Db, World, request}
use orkai.Store.Owned as Rows
use orkai.Store.Deploys as Deploys
use orkai.Access.Authz.{can_access_project}

-- `GetUserID`, `GetUserRole` and `GetOrgID` of the request.
pub record Caller : Type 0 where
  pub user_id : ℕ
  pub role : String
  pub org_id : ℕ

abbrev pub access_denied : Error
access_denied = problem 403 "access denied"

unfoldable pub check_project : Caller → ℕ → Exec World (Unit {0})
check_project caller project_id = do
  allowed ←
      or_else (can_access_project caller.user_id caller.role caller.org_id project_id) access_denied
  throw_if (not allowed) access_denied

-- The guards, one for each kind of resource.
pub data Kind : Type 0 where
  project app database page worker cron_job deployment domain : Kind

guard_app_of : Caller → ℕ → Exec World (Unit {0})
unfolding check_project
guard_app_of caller app_id = do
  a ← or_else (Deploys.get_app request app_id) (problem 404 "application not found")
  check_project caller a.project_id

guard_owned : Caller → (Db → List Owned) → String → ℕ → Exec World (Unit {0})
unfolding check_project
guard_owned caller table missing id = do
  x ← or_else (Rows.get table request id) (problem 404 missing)
  check_project caller x.project_id

guard_id : Kind → Caller → ℕ → Exec World (Unit {0})
unfolding check_project guard_app_of guard_owned
guard_id project caller id = check_project caller id
guard_id app caller id = guard_app_of caller id
guard_id database caller id = guard_owned caller (λ db. db.databases) "database not found" id
guard_id page caller id = guard_owned caller (λ db. map owned_page db.pages) "page not found" id
guard_id worker caller id = guard_owned caller (λ db. db.workers) "worker not found" id
guard_id cron_job caller id = guard_owned caller (λ db. db.cron_jobs) "cronjob not found" id
guard_id deployment caller id = do
  d ← or_else (Deploys.get_by_id request id) (problem 404 "deployment not found")
  guard_app_of caller d.app_id
guard_id domain caller id = do
  d ← or_else (Rows.get_domain request id) (problem 404 "domain not found")
  guard_app_of caller d.app_id

abbrev bad_id : Kind → String
bad_id project = "invalid project ID"
bad_id app = "invalid app ID"
bad_id database = "invalid database ID"
bad_id page = "invalid page ID"
bad_id worker = "invalid worker ID"
bad_id cron_job = "invalid cronjob ID"
bad_id deployment = "invalid deployment ID"
bad_id domain = "invalid domain ID"

-- The parameter is `none` where `uuid.Parse` refuses it.
unfoldable pub guard : Kind → Caller → Option ℕ → Exec World (Unit {0})
unfolding guard_id
guard kind caller none = throw (problem 400 (bad_id kind))
guard kind caller (some id) = guard_id kind caller id
