-- ===== src/Deploy/Requests/Cancelling.antt =====
-- A queued deployment that is cancelled never runs.
use orkai.Prelude.{
  ℕ, ◌≡◌, refl, ap, sym, ◌∙◌, Bool, true, some, List, [], find?, find?-sound, find?-update_where,
  update_where, arith, subst,
}
use orkai.Result.{ok}
use orkai.Exec.{◌>>=◌}
use orkai.Exec.Preserves.{state-then_pure}
use orkai.Model.Deploys.{Deployment, Application, DeployStatus}
use orkai.World.{World, request}
use orkai.Store.Deploys as Deploys
use orkai.Store.Deploys.{by_id, app_by_id, save}
use orkai.Deploy.Env.{Env}
use orkai.Deploy.Common.{finalize_cancelled}
use orkai.Deploy.Common.Cancelling.{Rows, Undisturbed, cancelled_at, finalize_cancelled-Rows}
use orkai.Deploy.Requests.{cancel}
use orkai.Deploy.Execute.{run_deploy_job}
use orkai.Deploy.Execute.Outcomes.{run_deploy_job-terminal}

row_id : (id : ℕ) (d : Deployment) → by_id id d ≡ true → d.id ≡ id
row_id id d h = ground arith

row_self : (id : ℕ) (d : Deployment) → by_id id d ≡ true → by_id d.id d ≡ true
row_self id d h = ground arith

self_row :
    (ds : List Deployment) (id : ℕ) (d : Deployment)
    → find? (by_id id) ds ≡ some d
    → find? (by_id d.id) ds ≡ some d
self_row ds id d e = simp (row_id id d (find?-sound (by_id id) ds d e)) e

module _ (env : Env) (quiet : Undisturbed env) (id : ℕ) (d : Deployment) (app : Application)
    (w : World) (up : w.faults ≡ []) (found : find? (by_id id) w.db.deployments ≡ some d)
    (queued : d.status ≡ DeployStatus.queued)
    (app_found : find? (app_by_id d.app_id) w.db.applications ≡ some app) where
  cancel-Rows :
      Rows
        (update_where
          (by_id d.id)
          (λ _. cancelled_at (record d { cancel_requested = true }) w.now)
          (update_where (by_id d.id) (λ _. record d { cancel_requested = true }) w.db.deployments))
        (cancel env id w).1
  unfolding cancel Deploys.get_by_id Deploys.update Deploys.get_app ◌>>=◌
  cancel-Rows =
      let d1 = record d { status = DeployStatus.queued; cancel_requested = true } in
      let w1 = record w { db = save d1 w.db; faults = [] } in
      rw (up, found, queued, app_found)
        (subst (Rows _) (sym (state-then_pure tt (finalize_cancelled env request d1 (some app)) w1))
          (finalize_cancelled-Rows env quiet d1 (some app) w1 refl))

  cancelled_row :
      find? (by_id id) (cancel env id w).1.db.deployments
      ≡ some (cancelled_at (record d { cancel_requested = true }) w.now)
  cancelled_row =
      let fits = find?-sound (by_id id) w.db.deployments d found in
      subst
        (λ x.
          find? (by_id x) (cancel env id w).1.db.deployments
          ≡ some (cancelled_at (record d { cancel_requested = true }) w.now))
        (row_id id d fits)
        (ap (find? (by_id d.id)) cancel-Rows.rows
          ∙ find?-update_where (by_id d.id)
              (λ _. cancelled_at (record d { cancel_requested = true }) w.now)
              (update_where (by_id d.id) (λ _. record d { cancel_requested = true })
                w.db.deployments)
              (record d { cancel_requested = true })
              (find?-update_where (by_id d.id) (λ _. record d { cancel_requested = true })
                w.db.deployments d (self_row w.db.deployments id d found) (row_self id d fits))
              (row_self id d fits))

  -- With the database up, the cancellation of a queued deployment whose application is found finalizes
  -- it as cancelled, whatever the target reports, if that touches no deployment; and the job that is
  -- already in the queue then does nothing, in whichever environment it runs.
  pub cancel-run_deploy_job :
      (later : Env) (force : Bool)
      → let w' = (cancel env id w).1 in
        (find? (by_id id) w'.db.deployments
          ≡ some (cancelled_at (record d { cancel_requested = true }) w.now))
        × (run_deploy_job later id force w' ≡ (ok tt, w'))
  cancel-run_deploy_job later force =
      let w' = (cancel env id w).1 in
      (
        cancelled_row,
        run_deploy_job-terminal later id force w'
            (cancelled_at (record d { cancel_requested = true }) w.now) cancel-Rows.up cancelled_row
            refl,
      )
