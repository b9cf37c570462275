-- ===== src/Store/Pages.antt =====
-- apps/api/internal/store/pg/page_store.go, and `GetByID` of shared_resource_store.go. A row holds the
-- decrypted secrets.
use orkai.Prelude.{
  ℕ, suc, ◌-◌, ◌*◌, String, Bool, true, false, Option, none, some, List, [], ◌∷◌, ◌++◌, ◌&&◌, not,
  ◌==◌, str_eq, find?, filter, any, update_where,
}
use orkai.Prelude.Paging.{take, drop, latest_first}
use orkai.Result.{unique_violation}
use orkai.Exec.{Exec, throw_if, pure, view, ◌>>=◌, ◌>>◌}
use orkai.Model.Pages.{
  Page, PageStatus, PageRuntime, PageDeployment, PageDeploymentStatus, plain, SharedResource,
}
use orkai.World.{Db, World, Context, round_trip, on_db}
use orkai.Store.Query.{is_live, fetch, select, exec}

abbrev pub by_id : ℕ → Page → Bool
by_id id p = (p.id == id) && is_live p.deleted_at

unfoldable pub get_by_id : Context → ℕ → Exec World Page
unfolding fetch
get_by_id c id = fetch c (λ db. find? (by_id id) db.pages)

abbrev pub on_pages : (List Page → List Page) → Db → Db
on_pages f db = record db { pages = f db.pages }

abbrev pub put_status : ℕ → PageStatus → Db → Db
put_status id status = on_pages (update_where (by_id id) (λ p. record p { status = status }))

unfoldable pub update_status : Context → ℕ → PageStatus → Exec World (Unit {0})
unfolding exec
update_status c id status = exec c (put_status id status)

unfoldable pub update_runtime : Context → ℕ → PageRuntime → Exec World (Unit {0})
unfolding exec
update_runtime c id rt =
    exec c (on_pages (update_where (by_id id) (λ p. record p { runtime = rt })))

abbrev pub is_deploying : PageStatus → Bool
is_deploying PageStatus.deploying = true
is_deploying _ = false

abbrev pub unlocked : ℕ → Page → Bool
unlocked id p = by_id id p && not (is_deploying p.status)

-- The rows affected are the rows that fit before.
unfoldable pub try_mark_deploying : Context → ℕ → Exec World Bool
unfolding round_trip on_db ◌>>=◌
try_mark_deploying c id = do
  round_trip c
  won ← view (λ w. any (unlocked id) w.db.pages)
  on_db (on_pages (update_where (unlocked id) (λ p. record p { status = PageStatus.deploying })))
  pure won

unfoldable pub delete_if_not_deploying : Context → ℕ → Exec World (Option Page)
unfolding round_trip on_db ◌>>=◌
delete_if_not_deploying c id = do
  round_trip c
  found ← view (λ w. find? (unlocked id) w.db.pages)
  now ← view (λ w. w.now)
  on_db (on_pages (update_where (unlocked id) (λ p. record p { deleted_at = some now })))
  pure found

-- The columns of the settings. The runtime and the status belong to the worker.
abbrev pub with_settings : Page → Page → Page
with_settings p row = record row {
  description = p.description;
  git_repo = p.git_repo;
  git_branch = p.git_branch;
  git_provider_id = p.git_provider_id;
  publish_path = p.publish_path;
  cloud_account_id = p.cloud_account_id;
  region = p.region;
  custom_domain = p.custom_domain;
  manage_dns = p.manage_dns;
  dns_account_id = p.dns_account_id;
  dns_zone_id = p.dns_zone_id;
  build_enabled = p.build_enabled;
  package_manager = p.package_manager;
  install_command = p.install_command;
  build_command = p.build_command;
  output_dir = p.output_dir;
  root_directory = p.root_directory;
  node_version = p.node_version;
  build_env_vars = p.build_env_vars;
}

abbrev refreshed : Page → Option Page → Page
refreshed p none = p
refreshed p (some row) = row

-- The page is read back with the write.
unfoldable pub update_settings : Context → Page → Exec World Page
unfolding round_trip on_db ◌>>=◌
update_settings c p = do
  round_trip c
  on_db (on_pages (update_where (by_id p.id) (with_settings p)))
  row ← view (λ w. find? (by_id p.id) w.db.pages)
  pure (refreshed p row)

abbrev settled : Page → Option Page → Option Page
settled p none = none
settled p (some row) = some (with_settings p row)

-- Nothing is written, and nothing read back, where the row is deploying.
unfoldable pub update_settings_if_not_deploying : Context → Page → Exec World (Option Page)
unfolding round_trip on_db ◌>>=◌
update_settings_if_not_deploying c p = do
  round_trip c
  row ← view (λ w. find? (unlocked p.id) w.db.pages)
  on_db (on_pages (update_where (unlocked p.id) (with_settings p)))
  pure (settled p row)

abbrev pub has_name : ℕ → String → Page → Bool
has_name project_id name p =
    (p.project_id == project_id) && str_eq p.name name && is_live p.deleted_at

unfoldable pub exists_by_name : Context → ℕ → String → Exec World Bool
unfolding select
exists_by_name c project_id name = select c (λ db. any (has_name project_id name) db.pages)

abbrev pub insert_page : Page → Db → Db
insert_page p db = record db {
  pages = db.pages ++ record p { id = db.next_id } ∷ [];
  next_id = suc db.next_id;
}

-- An index keeps the names of the live pages of a project apart.
unfoldable pub create : Context → Page → Exec World Page
unfolding round_trip on_db ◌>>=◌
create c p = do
  round_trip c
  taken ← view (λ w. any (has_name p.project_id p.name) w.db.pages)
  throw_if taken unique_violation
  id ← view (λ w. w.db.next_id)
  on_db (insert_page p)
  pure (record p { id = id })

-- Deployments.
abbrev pub dep_by_id : ℕ → PageDeployment → Bool
dep_by_id id d = (d.id == id) && is_live d.deleted_at

unfoldable pub get_deployment : Context → ℕ → Exec World PageDeployment
unfolding fetch
get_deployment c id = fetch c (λ db. find? (dep_by_id id) db.page_deployments)

abbrev pub on_deployments : (List PageDeployment → List PageDeployment) → Db → Db
on_deployments f db = record db { page_deployments = f db.page_deployments }

abbrev pub insert_deployment : PageDeployment → ℕ → Db → Db
insert_deployment d now db = record db {
  page_deployments = db.page_deployments ++ record d { id = db.next_id; created_at = now } ∷ [];
  next_id = suc db.next_id;
}

unfoldable pub create_deployment : Context → PageDeployment → Exec World PageDeployment
unfolding round_trip on_db ◌>>=◌
create_deployment c d = do
  round_trip c
  id ← view (λ w. w.db.next_id)
  now ← view (λ w. w.now)
  on_db (insert_deployment d now)
  pure (record d { id = id; created_at = now })

abbrev pub save_deployment : PageDeployment → Db → Db
save_deployment d = on_deployments (update_where (dep_by_id d.id) (λ _. d))

unfoldable pub update_deployment : Context → PageDeployment → Exec World (Unit {0})
unfolding exec
update_deployment c d = exec c (save_deployment d)

abbrev pub same_status : PageDeploymentStatus → PageDeploymentStatus → Bool
same_status PageDeploymentStatus.queued PageDeploymentStatus.queued = true
same_status PageDeploymentStatus.deploying PageDeploymentStatus.deploying = true
same_status PageDeploymentStatus.success PageDeploymentStatus.success = true
same_status PageDeploymentStatus.failed PageDeploymentStatus.failed = true
same_status PageDeploymentStatus.cancelled PageDeploymentStatus.cancelled = true
same_status _ _ = false

abbrev pub has_status : PageDeploymentStatus → PageDeployment → Bool
has_status s d = same_status d.status s && is_live d.deleted_at

abbrev pub of_page_with : ℕ → PageDeploymentStatus → PageDeployment → Bool
of_page_with page_id s d = (d.page_id == page_id) && has_status s d

abbrev first : {A : Type 0} → List A → Option A
first [] = none
first (x ∷ xs) = some x

unfoldable pub get_latest_success : Context → ℕ → Exec World PageDeployment
unfolding fetch latest_first
get_latest_success c page_id = fetch c (λ db. first (
    latest_first (λ (d : PageDeployment). d.created_at)
      (filter (of_page_with page_id PageDeploymentStatus.success) db.page_deployments)))

abbrev pub still_deploying : ℕ → PageDeployment → Bool
still_deploying id d = dep_by_id id d && same_status d.status PageDeploymentStatus.deploying

abbrev pub timed_out : ℕ → List String → PageDeployment → PageDeployment
timed_out now suffix d = record d {
  status = PageDeploymentStatus.failed;
  finished_at = some now;
  deploy_log = d.deploy_log ++ plain suffix ∷ [];
}

unfoldable pub mark_timed_out : Context → ℕ → ℕ → List String → Exec World Bool
unfolding round_trip on_db ◌>>=◌
mark_timed_out c id finished_at suffix = do
  round_trip c
  marked ← view (λ w. any (still_deploying id) w.db.page_deployments)
  on_db (on_deployments (update_where (still_deploying id) (timed_out finished_at suffix)))
  pure marked

-- The count and the rows of one page of the list, in one query.
unfoldable pub list_by_status :
    Context → PageDeploymentStatus → ℕ → ℕ → Exec World (List PageDeployment)
unfolding select latest_first take drop
list_by_status c s page per_page = select c (λ db. take per_page (
    drop ((page - 1) * per_page) (
      latest_first (λ (d : PageDeployment). d.created_at)
        (filter (has_status s) db.page_deployments))))

abbrev pub resource_by_id : ℕ → SharedResource → Bool
resource_by_id id r = (r.id == id) && is_live r.deleted_at

unfoldable pub get_resource : Context → ℕ → Exec World SharedResource
unfolding fetch
get_resource c id = fetch c (λ db. find? (resource_by_id id) db.resources)
