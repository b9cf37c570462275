-- ===== src/Pages/Requests/Reopens.antt =====
-- The recovery of stale deployments gives the lock of their pages back.
use orkai.Prelude.{
  ℕ, ◌+◌, ◌*◌, ◌∙◌, ◌++◌, leb, false, inl, inr, Bool-cases, if◌then◌else◌, update_where,
  find?-update_where-both, String, ◌≡◌, refl, true, some, [], ◌∷◌, any, find?, find?-sound,
  find?-update_where, filter, filter-head, is_some, ==_refl, arith,
}
use orkai.Prelude.Paging.{take, drop, latest_first}
use orkai.Result.{ok, err, Error}
use orkai.Model.Accounts.{minute}
use orkai.Exec.{◌>>=◌}
use orkai.Model.Pages.{Page, PageStatus, PageDeployment, PageDeploymentStatus, plain}
use orkai.World.{World, round_trip, on_db}
use orkai.Store.Query.{select, exec}
use orkai.Store.Pages as Pages
use orkai.Pages.Requests.{
  recover_stale, all_of, recover_each, time_out, release, is_stale, trigger, busy,
}
use orkai.Pages.Requests.Locking.{queued_as, trigger-succeeds, trigger-refused}

still_deploying_self :
    (d : PageDeployment)
    → Pages.has_status PageDeploymentStatus.deploying d ≡ true
    → Pages.still_deploying d.id d ≡ true
still_deploying_self d h = let same = ==_refl d.id in ground arith

module _ (w : World) (d : PageDeployment) (page : Page) (up : w.faults ≡ [])
    (only : filter (Pages.has_status PageDeploymentStatus.deploying) w.db.page_deployments ≡ d ∷ [])
    (row : find? (Pages.dep_by_id d.id) w.db.page_deployments ≡ some d)
    (found : find? (Pages.by_id d.page_id) w.db.pages ≡ some page) where
  fits : Pages.has_status PageDeploymentStatus.deploying d ≡ true
  fits =
      (filter-head (Pages.has_status PageDeploymentStatus.deploying) (λ _. true)
        w.db.page_deployments [] d only refl).0

  marked : any (Pages.still_deploying d.id) w.db.page_deployments ≡ true
  marked =
      (filter-head (Pages.has_status PageDeploymentStatus.deploying) (Pages.still_deploying d.id)
        w.db.page_deployments [] d only (still_deploying_self d fits)).1

  abbrev errored : Page → Page
  errored p = record p { status = PageStatus.error }

  -- The deployment, once it is taken for dead.
  abbrev pub given_up : PageDeployment
  given_up = record d {
    status = PageDeploymentStatus.failed;
    finished_at = some w.now;
    deploy_log =
        d.deploy_log ++ plain ("\n\n--- Deploy timed out (stale for >40min) ---" ∷ []) ∷ [];
  }

  is_running : Pages.same_status d.status PageDeploymentStatus.deploying ≡ true
  is_running = let h = fits in ground arith

  given_up_row :
      find? (Pages.dep_by_id d.id) (
        update_where
          (Pages.still_deploying d.id)
          (λ x. record x {
            status = PageDeploymentStatus.failed;
            finished_at = some w.now;
            deploy_log =
                x.deploy_log ++ plain ("\n\n--- Deploy timed out (stale for >40min) ---" ∷ []) ∷ [];
          })
          w.db.page_deployments)
      ≡ some given_up
  given_up_row =
      find?-update_where-both (Pages.dep_by_id d.id)
        (λ x. Pages.same_status x.status PageDeploymentStatus.deploying)
        (λ x. record x {
          status = PageDeploymentStatus.failed;
          finished_at = some w.now;
          deploy_log =
              x.deploy_log ++ plain ("\n\n--- Deploy timed out (stale for >40min) ---" ∷ []) ∷ [];
        })
        w.db.page_deployments d row is_running
        (find?-sound (Pages.dep_by_id d.id) w.db.page_deployments d row)

  recovered :
      is_stale w.now d ≡ true
      → ((recover_stale w).1.faults ≡ [])
        × (find? (Pages.by_id d.page_id) (recover_stale w).1.db.pages ≡ some (errored page))
        × (find? (Pages.dep_by_id d.id) (recover_stale w).1.db.page_deployments ≡ some given_up)
  unfolding recover_stale all_of recover_each time_out release Pages.list_by_status
      Pages.mark_timed_out Pages.update_status select exec round_trip on_db latest_first take drop
      ◌>>=◌
  recovered stale =
      rw (up, only, stale, marked)
        (
          refl,
          find?-update_where (Pages.by_id d.page_id) errored w.db.pages page found
              (find?-sound (Pages.by_id d.page_id) w.db.pages page found),
          given_up_row,
        )

  spared :
      is_stale w.now d ≡ false
      → ((recover_stale w).1.faults ≡ [])
        × (find? (Pages.by_id d.page_id) (recover_stale w).1.db.pages ≡ some page)
        × (find? (Pages.dep_by_id d.id) (recover_stale w).1.db.page_deployments ≡ some d)
  unfolding recover_stale all_of recover_each time_out release Pages.list_by_status
      Pages.mark_timed_out Pages.update_status select exec round_trip on_db latest_first take drop
      ◌>>=◌
  spared fresh = rw (up, only, fresh) (refl, found, row)

  stale_from : (s : ℕ) → d.started_at ≡ some s → is_stale w.now d ≡ leb (s + 40 * minute) w.now
  stale_from s started = rw started (ground arith)

  -- With the database up, where one deployment of all is under way, and its page is found, deploying and
  -- has a cloud account: a recovery of stale deployments that comes 40 minutes after the deployment's
  -- start or later writes its row as failed, with the time as its end, and the next `Trigger` starts
  -- another deployment of the page, although nothing has ended the run of the first. A recovery that comes
  -- earlier leaves the row as it is, and the `Trigger` is refused.
  pub recover_stale-reopens :
      (text : Error → String) (kind : String) (s : ℕ)
      → d.started_at ≡ some s
      → Pages.is_deploying page.status ≡ true
      → is_some page.cloud_account_id ≡ true
      → let after = (recover_stale w).1 in
        let due = leb (s + 40 * minute) w.now in
        (find? (Pages.dep_by_id d.id) after.db.page_deployments
          ≡ some (if due then given_up else d))
        × ((trigger text d.page_id kind after).0
            ≡ (if due then ok (queued_as d.page_id kind after) else err busy))
  recover_stale-reopens text kind s started locked account =
      elim (Bool-cases (leb (s + 40 * minute) w.now)) [
        | inl due ↦
            let r = recovered (stale_from s started ∙ due) in
            rw due (
              r.2,
              trigger-succeeds text (recover_stale w).1 d.page_id (errored page) r.0 r.1 refl kind
                  account,
            )
        | inr early ↦
            let r = spared (stale_from s started ∙ early) in
            rw early
              (r.2, trigger-refused text (recover_stale w).1 d.page_id page r.0 r.1 locked kind)
      ]
