-- ===== src/Deploy/Requests/Outcomes.antt =====
-- What `Trigger` and `Cancel` leave in the database, on each way out.
use orkai.Prelude.{
  suc, find?-sound, find?-update_where, update_where, arith, subst, sym, List, String, ◌++◌, ℕ, ◌≡◌,
  ◌⊎◌, inl, inr, refl, true, false, none, some, [], ◌∷◌, find?,
}
use orkai.Result.{Error, ok, err, query_failed, wrapped, formatted}
use orkai.Exec.{◌>>=◌}
use orkai.Model.Deploys.{
  Deployment, Application, DeployStatus, AppStatus, app_status_text, deploy_status_text,
}
use orkai.Model.Jobs.{JobType}
use orkai.World.{World}
use orkai.Store.Deploys as Deploys
use orkai.Store.Deploys.{app_by_id, by_id, save, put_status, insert_deployment}
use orkai.Store.Deploys.Rows.{find?-save, find?-insert}
use orkai.Store.Jobs as Queue
use orkai.Deploy.Env.{Env}
use orkai.Deploy.Requests.{TriggerInput, is_busy, new_deployment, trigger, in_progress, cancel}

-- The row that `Trigger` creates in `w`.
abbrev pub created : World → Application → TriggerInput → Deployment
created w app input = record {
  id = w.db.next_id;
  created_at = w.now;
  deleted_at = none;
  app_id = app.id;
  status = DeployStatus.queued;
  cancel_requested = false;
  commit_sha = "";
  image = "";
  build_log = [];
  started_at = none;
  finished_at = none;
  trigger_type = input.trigger_type;
  triggered_by = input.triggered_by;
  app_name = app.name;
  project_id = app.project_id;
}

app_id-found :
    (id : ℕ) (xs : List Application) (a : Application)
    → find? (app_by_id id) xs ≡ some a
    → a.id ≡ id
app_id-found id xs a e = let h = find?-sound (app_by_id id) xs a e in ground arith

status_put :
    (id : ℕ) (s : AppStatus) (xs : List Application) (a : Application)
    → find? (app_by_id id) xs ≡ some a
    → find? (app_by_id id) (update_where (app_by_id a.id) (λ x. record x { status = s }) xs)
      ≡ some (record a { status = s })
status_put id s xs a e =
    subst
      (λ (n : ℕ).
        find? (app_by_id id) (update_where (app_by_id n) (λ x. record x { status = s }) xs)
        ≡ some (record a { status = s }))
      (sym (app_id-found id xs a e))
      (find?-update_where (app_by_id id) (λ x. record x { status = s }) xs a e
        (find?-sound (app_by_id id) xs a e))

module _ (text : Error → String) (w : World) (input : TriggerInput) (app : Application)
    (found : find? (app_by_id input.app_id) w.db.applications ≡ some app) where
  -- A busy application refuses the request, and nothing is written.
  trigger_busy :
      w.faults ≡ []
      → is_busy app.status ≡ true
      → trigger text input w ≡ (
        err (
            formatted "app is currently %s, wait for it to finish first"
              (app_status_text app.status)),
        w,
      )
  unfolding trigger Deploys.get_app ◌>>=◌
  trigger_busy h busy = rw (h, found, busy) refl

  -- With the database up and an application that is not busy, `Trigger` returns a queued deployment of
  -- the application that has the next id. It is the one row that is added to the deployments; one
  -- message is added to the queue, unread, with the job of that deployment; and the application's status
  -- is `building`.
  pub trigger_queues :
      w.faults ≡ []
      → is_busy app.status ≡ false
      → let (r, w') = trigger text input w in
        (r ≡ ok (created w app input))
        × (w'.db.deployments ≡ w.db.deployments ++ created w app input ∷ [])
        × (w'.db.queue
            ≡ w.db.queue
              ++ record {
                msg_id = suc w.db.next_id;
                read_ct = 0;
                job = record {
                  type = JobType.deploy;
                  deploy_id = some w.db.next_id;
                  backup_id = none;
                  database_backup_id = none;
                  force_build = input.force_build;
                  page_deployment_id = none;
                  worker_deployment_id = none;
                };
              }
                ∷ [])
        × (find? (app_by_id input.app_id) w'.db.applications
            ≡ some (record app { status = AppStatus.building }))
  unfolding trigger Deploys.get_app Deploys.create Queue.enqueue Deploys.update_app_status ◌>>=◌
  trigger_queues h idle =
      rw (h, found, idle)
        (refl, refl, refl, status_put input.app_id AppStatus.building w.db.applications app found)

  -- When only the enqueue fails, for an application that is not busy and an id that no deployment
  -- has, the request fails, no application changes its status, nothing is queued, and the row that
  -- was created is finalized as failed.
  pub trigger_unqueued :
      w.faults ≡ false ∷ false ∷ true ∷ []
      → is_busy app.status ≡ false
      → find? (by_id w.db.next_id) w.db.deployments ≡ none
      → let (r, w') = trigger text input w in
        (r ≡ err (wrapped "enqueue deploy job" query_failed))
        × (w'.db.applications ≡ w.db.applications)
        × (w'.db.queue ≡ w.db.queue)
        × (find? (by_id w.db.next_id) w'.db.deployments
            ≡ some (record (created w app input) {
              status = DeployStatus.failed;
              finished_at = some w.now;
              build_log = "Failed to enqueue deploy job: " ∷ text query_failed ∷ [];
            }))
  unfolding trigger Deploys.get_app Deploys.create Queue.enqueue Deploys.update ◌>>=◌
  trigger_unqueued h idle fresh =
      rw (h, found, idle)
        (
          refl,
          refl,
          refl,
          find?-save
              (record (created w app input) {
                status = DeployStatus.failed;
                finished_at = some w.now;
                build_log = "Failed to enqueue deploy job: " ∷ text query_failed ∷ [];
              })
              refl (insert_deployment (new_deployment app input) w.now w.db) (created w app input)
              (find?-insert (created w app input) refl w.db.deployments fresh),
        )

module _ (env : Env) (w : World) (deploy_id : ℕ) (d : Deployment)
    (found : find? (by_id deploy_id) w.db.deployments ≡ some d) where
  -- A deployment that has ended refuses to be cancelled, and nothing is written.
  cancel_ended :
      w.faults ≡ []
      → in_progress d.status ≡ false
      → cancel env deploy_id w ≡ (
        err (formatted "deployment is not in progress (status: %s)" (deploy_status_text d.status)),
        w,
      )
  unfolding cancel Deploys.get_by_id ◌>>=◌
  cancel_ended h ended = rw (h, found, ended) refl

  -- A running deployment view its flag, and nothing else changes: the job has to see it.
  cancel_running :
      w.faults ≡ []
      → (d.status ≡ DeployStatus.building) ⊎ (d.status ≡ DeployStatus.deploying)
      → cancel env deploy_id w
        ≡ (ok tt, record w { db = save (record d { cancel_requested = true }) w.db })
  unfolding cancel Deploys.get_by_id Deploys.update Deploys.get_app ◌>>=◌
  cancel_running h (inl e) = rw (h, found, e) refl
  cancel_running h (inr e) = rw (h, found, e) refl
