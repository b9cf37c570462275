-- ===== src/Pages/Job/Settles.antt =====
-- How a page's run leaves the rows of the page and of the deployment.
use orkai.Prelude.{
  ℕ, String, ◌≡◌, ◌∙◌, refl, Bool, true, false, some, List, [], any, find?, find?-sound, ◌⊎◌, inl,
  inr, update_where, any-update_where-none, Bool-cases, ◌&&◌, not, arith,
}
use orkai.Model.Pages.{Page, PageStatus, PageDeployment, PageDeploymentStatus}
use orkai.Result.{Result, ok, err}
use orkai.World.{World, Db, round_trip, on_db}
use orkai.Exec.{◌>>=◌}
use orkai.Exec.Triple.{Both, Triple, Triple-bind, Triple-weaken}
use orkai.Store.Query.{exec, fetch}
use orkai.Store.Pages as Pages
use orkai.Pages.Env.{PageEnv, Run, in_world}
use orkai.Pages.Common.{
  is_terminal, same_page_status, record_end, change_dep, save_dep, put_status, change_page, succeed,
  fail, succeeded, failed, update_deploy, set_page_status,
}
use orkai.Pages.Job.{begin, finish, run, start, run_job}
use orkai.Pages.Common.Notices.{Triple-catch, announce-keeps}
use orkai.Pages.Domains.{wrapping}
use orkai.Pages.Job.Keeping.{work-Holds}
use orkai.Pages.Keeping.{Holds}

abbrev pub page_is_not : ℕ → PageStatus → Page → Bool
page_is_not id s p = Pages.by_id id p && not (same_page_status p.status s)

abbrev pub deployment_is_not : ℕ → PageDeploymentStatus → PageDeployment → Bool
deployment_is_not id s d = Pages.dep_by_id id d && not (Pages.same_status d.status s)

-- Every row of the page and every row of the deployment has its status.
pub record Recorded (page_id deployment_id : ℕ) (s : PageStatus) (t : PageDeploymentStatus)
    (db : Db) : Type 0 where
  pub page : any (page_is_not page_id s) db.pages ≡ false
  pub deployment : any (deployment_is_not deployment_id t) db.page_deployments ≡ false

-- The page is live and the deployment succeeded, or the page has an error and the deployment failed.
abbrev pub Released : ℕ → ℕ → Db → Type 0
Released page_id deployment_id db =
    Recorded page_id deployment_id PageStatus.live PageDeploymentStatus.success db
    ⊎ Recorded page_id deployment_id PageStatus.error PageDeploymentStatus.failed db

record Fresh (page_id deployment_id : ℕ) (run : Run) : Type 0 where
  up : run.world.faults ≡ []
  same_page : run.page.id ≡ page_id
  same_deployment : run.dep.id ≡ deployment_id

module _ (id : ℕ) where
  page_status-put :
      (status : PageStatus) (pages : List Page)
      → same_page_status status status ≡ true
      → any
          (page_is_not id status)
          (update_where (Pages.by_id id) (λ p. record p { status = status }) pages)
        ≡ false
  page_status-put status pages h =
      any-update_where-none (Pages.by_id id) (page_is_not id status)
        (λ p. record p { status = status }) (λ p e. rw h (ground arith)) (λ p e. rw e refl) pages

  deployment-saved :
      (t : PageDeploymentStatus) (d : PageDeployment) (ds : List PageDeployment)
      → Pages.same_status d.status t ≡ true
      → any (deployment_is_not id t) (update_where (Pages.dep_by_id id) (λ _. d) ds) ≡ false
  deployment-saved t d ds h =
      any-update_where-none (Pages.dep_by_id id) (deployment_is_not id t) (λ _. d)
        (λ x e. rw h (ground arith)) (λ x e. rw e refl) ds

differs :
    (status : PageStatus)
    → Pages.is_deploying status ≡ false
    → same_page_status PageStatus.deploying status ≡ false
differs PageStatus.idle h = refl
differs PageStatus.deploying h = cc
differs PageStatus.live h = refl
differs PageStatus.error h = refl
differs PageStatus.draining h = refl

module _ (end : ℕ → PageDeployment → PageDeployment) (status : PageStatus)
    (t : PageDeploymentStatus) (keeps_id : (now : ℕ) (d : PageDeployment) → (end now d).id ≡ d.id)
    (ends : (now : ℕ) (d : PageDeployment) → Pages.same_status (end now d).status t ≡ true)
    (known : same_page_status status status ≡ true)
    (other : Pages.is_deploying status ≡ false) where
  written-Recorded :
      (run : Run) (p d : ℕ)
      → run.page.id ≡ p
      → (end run.world.now run.dep).id ≡ d
      → Recorded p d status t (
          Pages.put_status run.page.id status
            (Pages.save_deployment (end run.world.now run.dep) run.world.db))
  written-Recorded run p d hp hd =
      rw⁻¹ (hp, hd)
        (record {
          page = page_status-put run.page.id status run.world.db.pages known;
          deployment =
              deployment-saved _ t (end run.world.now run.dep) run.world.db.page_deployments
                (ends _ _);
        })

  pub record_end-Recorded :
      {P D : ℕ}
      → Triple
          (Holds P D)
          (record_end end status)
          (λ _ run. Recorded P D status t run.world.db)
          (λ _. ⊥)
  unfolding record_end change_dep save_dep put_status change_page update_deploy set_page_status
      in_world Pages.update_deployment Pages.update_status exec round_trip on_db ◌>>=◌
  record_end-Recorded {P} {D} = record {
    at = λ run h.
        rw (h.up, h.deploying, differs status other)
          (written-Recorded run P D h.same_page (keeps_id _ _ ∙ h.same_deployment));
  }

module _ {P D : ℕ} (env : PageEnv) where
  finish-Released :
      (r : Result String)
      → Triple (Holds P D) (finish env r) (λ _ run. Released P D run.world.db) (λ _. ⊥)
  unfolding finish succeed fail
  finish-Released (ok ref) =
      Triple-weaken _ (λ r h. h) (λ _ r h. inl h) (λ r h. h)
        (Triple-bind _ _
          (record_end-Recorded (succeeded ref) PageStatus.live PageDeploymentStatus.success
            (λ n d. refl) (λ n d. refl) refl refl)
          (λ _. announce-keeps (Recorded P D PageStatus.live PageDeploymentStatus.success) _))
  finish-Released (err e) =
      Triple-weaken _ (λ r h. h) (λ _ r h. inr h) (λ r h. h)
        (Triple-bind _ _
          (record_end-Recorded (failed _) PageStatus.error PageDeploymentStatus.failed (λ n d. refl)
            (λ n d. refl) refl refl)
          (λ _. announce-keeps (Recorded P D PageStatus.error PageDeploymentStatus.failed) _))

  begin-Holds : Triple (Fresh P D) (begin env) (λ _. Holds P D) (λ _. ⊥)
  unfolding begin change_dep save_dep put_status change_page update_deploy set_page_status in_world
      Pages.update_deployment Pages.update_status exec round_trip on_db ◌>>=◌
  begin-Holds = record {
    at = λ r h. elim (Bool-cases (same_page_status r.page.status PageStatus.deploying)) [
      | inl e ↦
          rw (h.up, e)
            (record {
              up = refl;
              same_page = h.same_page;
              same_deployment = h.same_deployment;
              deploying = refl;
            })
      | inr e ↦
          rw (h.up, e)
            (record {
              up = refl;
              same_page = h.same_page;
              same_deployment = h.same_deployment;
              deploying = refl;
            })
    ];
  }

  run-Released : Triple (Fresh P D) (run env) (λ _ r. Released P D r.world.db) (λ _. ⊥)
  unfolding run
  run-Released =
      Triple-bind _ _ begin-Holds (λ _.
        Triple-bind _ _ (Triple-catch _ (work-Holds env)) (λ outcome. finish-Released outcome))

start-Released :
    {P D : ℕ} (env : PageEnv) (dep : PageDeployment) (page : Page) (w : World)
    → w.faults ≡ []
    → page.id ≡ P
    → dep.id ≡ D
    → Both (λ _ w'. Released P D w'.db) (λ _. ⊥) (start env dep page w)
unfolding start
start-Released {P} {D} env dep page w up hp hd =
    outcome (run env r).0 (run env r).1
      ((run-Released env).at r (record { up = up; same_page = hp; same_deployment = hd }))
  where
    r : Run
    r = record { world = w; page = page; dep = dep }

    outcome :
        (x : Result (Unit {0})) (r : Run)
        → Both (λ _ r. Released P D r.world.db) (λ _. ⊥) (x, r)
        → Both (λ _ w'. Released P D w'.db) (λ _. ⊥) (x, r.world)
    outcome (ok _) r h = h
    outcome (err e) r h = h

page_id-found :
    (id : ℕ) (ps : List Page) (p : Page) → find? (Pages.by_id id) ps ≡ some p → p.id ≡ id
page_id-found id ps p e = let h = find?-sound (Pages.by_id id) ps p e in ground arith

dep_id-found :
    (id : ℕ) (ds : List PageDeployment) (d : PageDeployment)
    → find? (Pages.dep_by_id id) ds ≡ some d
    → d.id ≡ id
dep_id-found id ds d e = let h = find?-sound (Pages.dep_by_id id) ds d e in ground arith

-- With the database up, whatever the build, the providers and other processes do: the run of a queued
-- or deploying page deployment, whose page is found, returns without an error. Then either every row of
-- the page is live and every row of the deployment succeeded, or every row of the page has the status of
-- an error and every row of the deployment failed. In particular the page can be deployed again.
pub run_job-releases :
    (env : PageEnv) (w : World) (dep : PageDeployment) (page : Page) (id : ℕ)
    → w.faults ≡ []
    → find? (Pages.dep_by_id id) w.db.page_deployments ≡ some dep
    → is_terminal dep.status ≡ false
    → find? (Pages.by_id dep.page_id) w.db.pages ≡ some page
    → Both (λ _ w'. Released dep.page_id id w'.db) (λ _. ⊥) (run_job env id w)
unfolding run_job wrapping Pages.get_deployment Pages.get_by_id fetch round_trip ◌>>=◌
run_job-releases env w dep page id up found going found_page =
    rw (up, found, going, found_page)
      (start-Released env dep page (record w { faults = [] }) refl
        (page_id-found dep.page_id w.db.pages page found_page)
        (dep_id-found id w.db.page_deployments dep found))
