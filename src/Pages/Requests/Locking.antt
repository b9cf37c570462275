-- ===== src/Pages/Requests/Locking.antt =====
-- `Trigger` takes the lock that a page's status is.
use orkai.Prelude.{
  ℕ, String, ◌≡◌, refl, true, false, none, some, [], str_eq, if◌then◌else◌, any, find?,
  any-found-both, find?-update_where-both, find?-sound, update_where, not, is_some,
}
use orkai.Result.{ok, err, Error}
use orkai.Exec.{◌>>=◌}
use orkai.Model.Pages.{Page, PageStatus, PageDeployment, PageDeploymentStatus}
use orkai.World.{World, round_trip, on_db}
use orkai.Store.Query.{fetch, exec}
use orkai.Store.Pages as Pages
use orkai.Store.Jobs as Queue
use orkai.Pages.Requests.{trigger, created, enqueued, busy}

abbrev pub queued_as : ℕ → String → World → PageDeployment
queued_as id kind w = record {
  id = w.db.next_id;
  created_at = w.now;
  deleted_at = none;
  page_id = id;
  status = PageDeploymentStatus.queued;
  publish_path = "";
  commit_sha = "";
  deploy_log = [];
  provider_ref = "";
  trigger_type = if str_eq kind "" then "manual" else kind;
  started_at = none;
  finished_at = none;
}

abbrev marked : Page → Page
marked p = record p { status = PageStatus.deploying }

module _ (text : Error → String) (w : World) (id : ℕ) (page : Page) (up : w.faults ≡ [])
    (found : find? (Pages.by_id id) w.db.pages ≡ some page)
    (idle : Pages.is_deploying page.status ≡ false) where
  free : not (Pages.is_deploying page.status) ≡ true
  free = rw idle refl

  unlocked-any : any (Pages.unlocked id) w.db.pages ≡ true
  unlocked-any =
      any-found-both (Pages.by_id id) (λ p. not (Pages.is_deploying p.status)) w.db.pages page found
        free

  module _ (kind : String) (account : is_some page.cloud_account_id ≡ true) where
    pub trigger-succeeds : (trigger text id kind w).0 ≡ ok (queued_as id kind w)
    unfolding trigger created enqueued Pages.get_by_id fetch Pages.try_mark_deploying
        Pages.create_deployment Queue.enqueue exec round_trip on_db ◌>>=◌
    trigger-succeeds = rw (up, found, idle, account, unlocked-any) refl

    still_found :
        find? (Pages.by_id id) (update_where (Pages.unlocked id) marked w.db.pages)
        ≡ some (marked page)
    still_found =
        find?-update_where-both (Pages.by_id id) (λ p. not (Pages.is_deploying p.status)) marked
          w.db.pages page found free (find?-sound (Pages.by_id id) w.db.pages page found)

    -- With the database up, a page that is found, has a cloud account and is not deploying: `Trigger`
    -- returns a new queued deployment of the page, and the next `Trigger` of the page, of whatever
    -- kind, is refused with the error that it is already deploying.
    pub trigger-once :
        (again : String)
        → ((trigger text id kind w).0 ≡ ok (queued_as id kind w))
          × ((trigger text id again (trigger text id kind w).1).0 ≡ err busy)
    unfolding trigger created enqueued Pages.get_by_id fetch Pages.try_mark_deploying
        Pages.create_deployment Queue.enqueue exec round_trip on_db ◌>>=◌
    trigger-once again =
        (trigger-succeeds, rw (up, found, idle, account, unlocked-any) (rw still_found refl))

module _ (text : Error → String) (w : World) (id : ℕ) (page : Page) (up : w.faults ≡ [])
    (found : find? (Pages.by_id id) w.db.pages ≡ some page)
    (locked : Pages.is_deploying page.status ≡ true) where
  pub trigger-refused : (kind : String) → (trigger text id kind w).0 ≡ err busy
  unfolding trigger Pages.get_by_id fetch round_trip ◌>>=◌
  trigger-refused kind = rw (up, found, locked) refl
