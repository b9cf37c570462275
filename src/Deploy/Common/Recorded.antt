-- ===== src/Deploy/Common/Recorded.antt =====
-- What the rows of a deployment are once the helpers of deploy_service.go have ended it.
use orkai.Prelude.{
  ℕ, String, ◌≡◌, ◌≢◌, refl, ◌⊎◌, inl, inr, Bool, true, false, Option, none, some, List, [], ◌&&◌,
  not, any, any-update_where-none, Bool-cases, is_some, arith,
}
use orkai.Result.{Result, ok, err}
use orkai.Exec.{Exec, ignore, ◌>>=◌}
use orkai.Exec.Preserves.{
  Preserves, Preserves-bind, Preserves-ignore, Preserves-view, Preserves-catch, Preserves-pure,
  preserves_rules,
}
use orkai.Exec.Yields.{Yields, Yields-view}
use orkai.Exec.Triple.{
  Triple, Triple-ignore, Triple-bind, Triple-pure, Triple-weaken, Triple-from_Yields,
}
use orkai.Model.Accounts.{Project}
use orkai.Model.Deploys.{Deployment, Application, AppStatus}
use orkai.World.{
  Db, World, Context, request, background, job, CtxErr, live, canceled, deadline_exceeded, refuses,
  round_trip, on_db, notify,
}
use orkai.Store.Query.{fetch, select, exec}
use orkai.Store.Projects as Projects
use orkai.Store.Deploys as Deploys
use orkai.Deploy.Env.{Env, Call, later, perform}
use orkai.Deploy.Common.{
  to_org, notify_deploy, update_deploy, set_app_status, live_phase, still_running,
  finalize_cancelled, fail_build, fail_deploy, is_terminal, if_done, cancel_requested,
  finalize_cancelled_from_context,
}
use orkai.Deploy.Common.Yielding.{set_app_status-Quiet, notify_deploy-Quiet, still_running-Quiet}

abbrev pub Up : World → Type 0
Up w = w.faults ≡ []

-- A live row of the deployment that is not as it should be.
abbrev pub misses : (Deployment → Bool) → ℕ → Deployment → Bool
misses good id d = Deploys.by_id id d && not (good d)

-- Every row of the deployment is as it should be, unless the job's context is done.
abbrev pub Rows : (Deployment → Bool) → ℕ → List Deployment → CtxErr → Type 0
Rows good id ds e = (any (misses good id) ds ≡ false) ⊎ (refuses job e ≡ true)

abbrev pub Recorded : (Deployment → Bool) → ℕ → World → Type 0
Recorded good id w = Up w × Rows good id w.db.deployments w.job_err

-- What other processes do during a call spoils no row of the deployment.
abbrev pub Respects : {A : Type 0} → (Deployment → Bool) → ℕ → Call A → Type 0
Respects good id call =
    (db : Db)
    → any (misses good id) db.deployments ≡ false
    → any (misses good id) (call.meanwhile db).deployments ≡ false

refuses-job : (c : Context) (e : CtxErr) → refuses c e ≡ true → refuses job e ≡ true
refuses-job request e h = cc
refuses-job background e h = cc
refuses-job job e h = h

refuses-later : (e f : CtxErr) → refuses job e ≡ true → refuses job (later e f) ≡ true
refuses-later live f h = cc
refuses-later canceled f h = refl
refuses-later deadline_exceeded f h = refl

module _ (P : List Deployment → CtxErr → Type 0) where
  abbrev pub Keeping : World → Type 0
  Keeping w = Up w × P w.db.deployments w.job_err

  round_trip-keeps : (c : Context) → Preserves Keeping (round_trip c)
  unfolding round_trip
  round_trip-keeps c = record {
    at = λ w h. elim (Bool-cases (refuses c w.job_err)) [
      | inl e ↦ rw e h
      | inr e ↦ rw (e, h.0) (refl, h.1)
    ];
  }

  pub fetch-keeps : {A : Type 0} (c : Context) (f : Db → Option A) → Preserves Keeping (fetch c f)
  unfolding fetch
  fetch-keeps c f = search (preserves_rules, round_trip-keeps)

  pub select-keeps : {A : Type 0} (c : Context) (f : Db → A) → Preserves Keeping (select c f)
  unfolding select
  select-keeps c f = search (preserves_rules, round_trip-keeps)

  pub get_project-keeps : (c : Context) (id : ℕ) → Preserves Keeping (Projects.get_by_id c id)
  unfolding Projects.get_by_id Projects.attach_team
  get_project-keeps c id = search (preserves_rules, fetch-keeps, select-keeps)

  on_db-keeps :
      (f : Db → Db)
      → ((w : World) → Keeping w → Keeping (record w { db = f w.db }))
      → Preserves Keeping (on_db f)
  unfolding on_db
  on_db-keeps f k = record { at = k }

  pub exec-keeps :
      (c : Context) (f : Db → Db)
      → ((w : World) → Keeping w → Keeping (record w { db = f w.db }))
      → Preserves Keeping (exec c f)
  unfolding exec
  exec-keeps c f k = Preserves-bind _ _ (round_trip-keeps c) (λ _. on_db-keeps f k)

  pub set_app_status-keeps :
      (c : Context) (id : ℕ) (s : AppStatus) → Preserves Keeping (set_app_status c id s)
  unfolding set_app_status Deploys.update_app_status
  set_app_status-keeps c id s =
      Preserves-ignore _ (exec-keeps c (Deploys.put_status id s) (λ w h. h))

  pub update_app-keeps :
      (c : Context) (a : Application) → Preserves Keeping (ignore (Deploys.update_app c a))
  unfolding Deploys.update_app
  update_app-keeps c a = Preserves-ignore _ (exec-keeps c (Deploys.save_app a) (λ w h. h))

  to_org-keeps :
      (app : Application) (event : String) (p : Result Project)
      → Preserves Keeping (to_org app event p)
  unfolding to_org notify
  to_org-keeps app event (ok p) = record { at = λ w h. h }
  to_org-keeps app event (err e) = search preserves_rules

  pub notify_deploy-keeps :
      (app : Application) (event : String) → Preserves Keeping (notify_deploy app event)
  unfolding notify_deploy
  notify_deploy-keeps app event = search (preserves_rules, get_project-keeps, to_org-keeps)

module _ (good : Deployment → Bool) (id : ℕ) where
  pub perform-keeps :
      {A : Type 0} (call : Call A)
      → Respects good id call
      → Preserves (Recorded good id) (perform call)
  unfolding perform
  perform-keeps call k = record { at = λ w h. (h.0, rows w h.1) }
    where
      rows :
          (w : World)
          → Rows good id w.db.deployments w.job_err
          → Rows good id (call.meanwhile w.db).deployments (later w.job_err call.ctx_after)
      rows w (inl r) = inl (k w.db r)
      rows w (inr e) = inr (refuses-later w.job_err call.ctx_after e)

-- The database can be reached.
abbrev pub Calm : World → Type 0
Calm = Keeping (λ ds e. Unit {0})

abbrev pub Broken : World → Type 0
Broken w = ⊥

pub perform-Calm : {A : Type 0} (call : Call A) → Preserves Calm (perform call)
unfolding perform
perform-Calm call = record { at = λ w h. (h.0, tt) }

pub update-Calm : (c : Context) (d : Deployment) → Preserves Calm (Deploys.update c d)
unfolding Deploys.update
update-Calm c d = exec-keeps _ c (Deploys.save d) (λ w h. (h.0, tt))

pub update_deploy-Calm : (c : Context) (d : Deployment) → Preserves Calm (update_deploy c d)
unfolding update_deploy
update_deploy-Calm c d = Preserves-ignore _ (update-Calm c d)

get_by_id-Calm : (c : Context) (id : ℕ) → Preserves Calm (Deploys.get_by_id c id)
unfolding Deploys.get_by_id
get_by_id-Calm c id = fetch-keeps _ c _

pub cancel_requested-Calm : (id : ℕ) → Preserves Calm (cancel_requested id)
unfolding cancel_requested
cancel_requested-Calm id =
    Preserves-bind _ _ (Preserves-catch _ (get_by_id-Calm background id)) (λ d. Preserves-pure _)

-- A deployment that has ended, with the time at which it did.
abbrev pub ended : Deployment → Bool
ended d = is_terminal d.status && is_some d.finished_at

-- Only a context that is done stops a statement.
round_trip-open :
    (c : Context) (id : ℕ) → Triple Calm (round_trip c) (λ _. Calm) (Recorded ended id)
unfolding round_trip
round_trip-open c id = record {
  at = λ w h. elim (Bool-cases (refuses c w.job_err)) [
    | inl e ↦ rw e (h.0, inr (refuses-job c w.job_err e))
    | inr e ↦ rw (e, h.0) (refl, tt)
  ];
}

save-Recorded :
    (d : Deployment) (E : World → Type 0)
    → ended d ≡ true
    → Triple Calm (on_db (Deploys.save d)) (λ _. Recorded ended d.id) E
unfolding on_db
save-Recorded d E h = record {
  at = λ w up. (
    up.0,
    inl (
        any-update_where-none (Deploys.by_id d.id) (misses ended d.id) (λ _. d) hit miss
          w.db.deployments),
  );
}
  where
    hit : (x : Deployment) → Deploys.by_id d.id x ≡ true → misses ended d.id d ≡ false
    hit x e = ground arith

    miss : (x : Deployment) → Deploys.by_id d.id x ≡ false → misses ended d.id x ≡ false
    miss x e = rw e refl

pub update_deploy-Recorded :
    (c : Context) (d : Deployment)
    → ended d ≡ true
    → Triple Calm (update_deploy c d) (λ _. Recorded ended d.id) Broken
unfolding update_deploy Deploys.update exec
update_deploy-Recorded c d h =
    Triple-ignore _ (Triple-bind _ _ (round_trip-open c d.id) (λ _. save-Recorded d _ h))

module _ {A : Type 0} {P : World → Type 0} {R : A → Type 0} where
  -- An action that never fails and keeps `P`.
  pub Triple-keeping : (m : Exec World A) → Yields R m → Preserves P m → Triple P m (λ _. P) Broken
  Triple-keeping m y k =
      Triple-weaken m (λ s h. h) (λ a s h. h.0) (λ s h. h) (Triple-from_Yields m y k)

module _ (env : Env) where
  -- What other processes do while a job winds up spoils no ended row.
  pub record Leaves (id : ℕ) : Type 0 where
    pub phase : Respects ended id env.phase
    pub hpa : Respects ended id env.configure_hpa

  module _ (id : ℕ) (k : Leaves id) where
    live_phase-keeps : (r : Result (Unit {0})) → Preserves (Recorded ended id) (live_phase env r)
    unfolding live_phase
    live_phase-keeps (ok _) =
        Preserves-bind _ _ (Preserves-catch _ (perform-keeps ended id env.phase k.phase))
          (λ r. Preserves-pure _)
    live_phase-keeps (err e) = search preserves_rules

    pub still_running-keeps :
        (app : Option Application) → Preserves (Recorded ended id) (still_running env app)
    unfolding still_running
    still_running-keeps none = search preserves_rules
    still_running-keeps (some app) =
        Preserves-bind _ _ (notify_deploy-keeps (Rows ended id) app _)
          (λ _. live_phase-keeps env.target)

  pub finalize_cancelled-Recorded :
      (c : Context) (d : Deployment) (app : Option Application)
      → Leaves d.id
      → Triple Calm (finalize_cancelled env c d app) (λ _. Recorded ended d.id) Broken
  unfolding finalize_cancelled
  finalize_cancelled-Recorded c d app k =
      Triple-bind _ _ (Triple-keeping _ (Yields-view _) (Preserves-view _)) (λ now.
        Triple-bind _ _ (update_deploy-Recorded c _ refl) (λ _.
          Triple-bind _ _
            (Triple-keeping _ (still_running-Quiet env app) (still_running-keeps d.id k app))
            (λ running.
              Triple-bind _ _
                (Triple-keeping _ (set_app_status-Quiet c _ _)
                  (set_app_status-keeps (Rows ended d.id) c _ _))
                (λ _. Triple-pure _ (λ s h. h)))))

  finalize_if-Recorded :
      (e : CtxErr) (d : Deployment) (app : Application)
      → Leaves d.id
      → e ≢ live
      → Triple Calm (if_done env e d app) (λ _. Recorded ended d.id) Broken
  unfolding if_done
  finalize_if-Recorded live d app k h = absurd (h refl)
  finalize_if-Recorded canceled d app k h = finalize_cancelled-Recorded background d (some app) k
  finalize_if-Recorded deadline_exceeded d app k h =
      finalize_cancelled-Recorded background d (some app) k

  -- Where the job's context is done, the deployment is finalized.
  pub finalize_from_done-Recorded :
      (d : Deployment) (app : Application)
      → Leaves d.id
      → Triple
          (λ w. Calm w × (w.job_err ≢ live))
          (finalize_cancelled_from_context env d app)
          (λ _. Recorded ended d.id)
          Broken
  unfolding finalize_cancelled_from_context ◌>>=◌
  finalize_from_done-Recorded d app k = record {
    at = λ w h. (finalize_if-Recorded w.job_err d app k h.1).at w h.0;
  }

module _ (d : Deployment) (entry : List String) where
  pub fail_build-Recorded :
      (app : Application) (event : String)
      → Triple Calm (fail_build app d entry event) (λ _. Recorded ended d.id) Broken
  unfolding fail_build
  fail_build-Recorded app event =
      Triple-bind _ _ (Triple-keeping _ (Yields-view _) (Preserves-view _)) (λ now.
        Triple-bind _ _ (Triple-keeping _ (notify_deploy-Quiet app _) (notify_deploy-keeps _ app _))
          (λ _. Triple-bind _ _ (update_deploy-Recorded background _ refl) (λ _.
            Triple-bind _ _
              (Triple-keeping _ (set_app_status-Quiet background _ _)
                (set_app_status-keeps (Rows ended d.id) background _ _))
              (λ _. Triple-pure _ (λ s h. h)))))

  pub fail_deploy-Recorded :
      (c : Context) (app : Application) (event : String)
      → Triple Calm (fail_deploy c app d entry event) (λ _. Recorded ended d.id) Broken
  unfolding fail_deploy
  fail_deploy-Recorded c app event =
      Triple-bind _ _ (Triple-keeping _ (Yields-view _) (Preserves-view _)) (λ now.
        Triple-bind _ _ (update_deploy-Recorded c _ refl) (λ _.
          Triple-bind _ _
            (Triple-keeping _ (set_app_status-Quiet c _ _)
              (set_app_status-keeps (Rows ended d.id) c _ _))
            (λ _.
              Triple-bind _ _
                (Triple-keeping _ (notify_deploy-Quiet app _)
                  (notify_deploy-keeps (Rows ended d.id) app _))
                (λ _. Triple-pure _ (λ s h. h)))))
