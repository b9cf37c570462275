-- ===== src/Deploy/Build/Recorded.antt =====
-- What the rows of a deployment are once the build stage has ended it.
use orkai.Prelude.{ℕ, String, ◌≡◌, refl, Bool, true, false, Option, none, some, List, [], ◌∷◌}
use orkai.Result.{Result, ok, err, Error}
use orkai.Exec.{Exec, pure, ◌>>=◌}
use orkai.Exec.Preserves.{
  Preserves, Preserves-bind, Preserves-catch, Preserves-pure, Preserves-ignore, Preserves-if,
}
use orkai.Exec.Triple.{
  Both, Triple, Triple-bind, Triple-pure, Triple-fact, Triple-from_Yields, Triple-if,
}
use orkai.Exec.Yields.{Yields-catch}
use orkai.Model.Deploys.{Deployment, Application}
use orkai.World.{World, background, job, CtxErr, live, canceled, deadline_exceeded}
use orkai.Store.Deploys as Deploys
use orkai.Deploy.Env.{Env, BuildResult}
use orkai.Deploy.Common.Yielding.{update_deploy-Quiet, cancel_requested-Quiet}
use orkai.Deploy.Common.Recorded.{
  Recorded, Calm, Broken, ended, Leaves, perform-Calm, update-Calm, update_deploy-Calm, fetch-keeps,
  finalize_cancelled-Recorded, finalize_from_done-Recorded, fail_build-Recorded,
  fail_deploy-Recorded, Triple-keeping, exec-keeps, cancel_requested-Calm,
}
use orkai.Deploy.Build.Yielding.{build-Same, reusable_image-Quiet}
use orkai.Deploy.Build.{
  Stage, done, proceed, save_logs, Built, keep_image, after_build, run_builder, build,
  reusable_image, build_failed, flag_if_live, reloaded, build_succeeded, end_build, build_or_reuse,
  build_stage,
}

-- The stage ended the deployment on its rows, or hands it on.
abbrev pub StagedAt : ℕ → Stage → World → Type 0
StagedAt id (done d) w = Recorded ended id w
StagedAt id (proceed app d) w = Calm w × (d.id ≡ id)

save_logs-Calm :
    (redact : String → String) (ls : List String) (d : Deployment)
    → Preserves Calm (save_logs redact ls d)
unfolding save_logs
save_logs-Calm redact [] d = Preserves-pure _
save_logs-Calm redact (l ∷ ls) d =
    Preserves-bind _ _ (Preserves-ignore _ (update-Calm job _)) (λ _. save_logs-Calm redact ls _)

keep_image-Calm :
    (app : Application) (d : Deployment) (r : BuildResult) (s : Result (Unit {0}))
    → Preserves Calm (keep_image app d r s)
unfolding keep_image
keep_image-Calm app d r (err e) = Preserves-pure _
keep_image-Calm app d r (ok _) =
    Preserves-bind _ _ (Preserves-ignore _ (update-Calm job _)) (λ _. Preserves-pure _)

put_app-Calm : (app : Application) → Preserves Calm (Deploys.update_app job app)
unfolding Deploys.update_app
put_app-Calm app = exec-keeps _ job (Deploys.save_app app) (λ w h. h)

after_build-Calm :
    (env : Env) (app : Application) (d : Deployment) (r : Result BuildResult)
    → Preserves Calm (after_build env app d r)
unfolding after_build
after_build-Calm env app d (err e) =
    Preserves-bind _ _ (Preserves-ignore _ (update-Calm job _)) (λ _. Preserves-pure _)
after_build-Calm env app d (ok r) =
    Preserves-bind _ _ (Preserves-catch _ (put_app-Calm _)) (λ s. keep_image-Calm _ d r s)

run_builder-Calm :
    (env : Env) (r : Result (Unit {0})) (app : Application) (d : Deployment)
    → Preserves Calm (run_builder env r app d)
unfolding run_builder
run_builder-Calm env (err e) app d = Preserves-pure _
run_builder-Calm env (ok _) app d =
    Preserves-bind _ _ (save_logs-Calm env.redact env.on_log d) (λ d'.
      Preserves-bind _ _ (Preserves-catch _ (perform-Calm env.build))
        (λ r. after_build-Calm env app d' r))

build-Calm : (env : Env) (app : Application) (d : Deployment) → Preserves Calm (build env app d)
unfolding build
build-Calm env app d = run_builder-Calm env env.builder app d

get_app-Calm : (id : ℕ) → Preserves Calm (Deploys.get_app job id)
unfolding Deploys.get_app
get_app-Calm id = fetch-keeps _ job _

get_latest-Calm : (id : ℕ) → Preserves Calm (Deploys.get_latest_by_app job id)
unfolding Deploys.get_latest_by_app
get_latest-Calm id = fetch-keeps _ job _

reusable_image-Calm :
    (force : Bool) (app : Application) (d : Deployment)
    → Preserves Calm (reusable_image force app d)
unfolding reusable_image
reusable_image-Calm force app d =
    Preserves-if _ _ _
      (Preserves-bind _ _ (Preserves-catch _ (get_latest-Calm app.id)) (λ last. Preserves-pure _))
      (Preserves-pure _)

module _ (env : Env) where
  finish :
      {P : World → Type 0} (id : ℕ) (m : Exec World Deployment)
      → Triple P m (λ _. Recorded ended id) Broken
      → Triple P (m >>= λ d'. pure (done d')) (StagedAt id) Broken
  finish id m h = Triple-bind m _ h (λ d'. Triple-pure _ (λ s r. r))

  failed_live :
      (app : Application) (d : Deployment) (flag : Bool)
      → Leaves env d.id
      → Triple Calm (build_failed env live flag app d) (λ _. Recorded ended d.id) Broken
  unfolding build_failed
  failed_live app d true k = finalize_cancelled-Recorded env background d (some app) k
  failed_live app d false k = fail_build-Recorded d [] app _

  failed_at :
      (e : CtxErr) (app : Application) (d : Deployment) (w : World)
      → Leaves env d.id
      → w.job_err ≡ e
      → Calm w
      → Both (StagedAt d.id) Broken (
          (flag_if_live env e d.id >>= λ flag.
          build_failed env e flag app d >>= λ d'. pure (done d'))
            w)
  unfolding flag_if_live build_failed ◌>>=◌
  failed_at live app d w k h up =
      (Triple-bind _ _ (Triple-keeping _ (cancel_requested-Quiet d.id) (cancel_requested-Calm d.id))
          (λ flag. finish d.id _ (failed_live app d flag k))).at
        w up
  failed_at canceled app d w k h up =
      (finish d.id _ (finalize_from_done-Recorded env d app k)).at w (up, λ e. cc)
  failed_at deadline_exceeded app d w k h up =
      (finish d.id _ (fail_build-Recorded d _ app _)).at w up

  reloaded-Recorded :
      (r : Result Application) (app : Application) (d : Deployment)
      → Triple Calm (reloaded env r app d) (StagedAt d.id) Broken
  unfolding reloaded
  reloaded-Recorded (ok app') app d = Triple-pure _ (λ s h. (h, refl))
  reloaded-Recorded (err e) app d = finish d.id _ (fail_deploy-Recorded d _ background app _)

  succeeded_at :
      (e : CtxErr) (app : Application) (d : Deployment) (w : World)
      → Leaves env d.id
      → w.job_err ≡ e
      → Calm w
      → Both (StagedAt d.id) Broken (build_succeeded env e app d w)
  unfolding build_succeeded
  succeeded_at live app d w k h up =
      (Triple-bind _ _ (Triple-keeping _ (Yields-catch _) (Preserves-catch _ (get_app-Calm app.id)))
          (λ r. reloaded-Recorded r app d)).at
        w up
  succeeded_at canceled app d w k h up =
      (finish d.id _ (finalize_from_done-Recorded env d app k)).at w (up, λ e. cc)
  succeeded_at deadline_exceeded app d w k h up =
      (finish d.id _ (finalize_from_done-Recorded env d app k)).at w (up, λ e. cc)

  end_build-Recorded :
      (id : ℕ) (o : Option Error) (b : Built)
      → Leaves env id
      → b.deploy.id ≡ id
      → Triple Calm (end_build env o b) (StagedAt id) Broken
  unfolding end_build ◌>>=◌
  end_build-Recorded id (some e) b k same = record {
    at = λ w up. rw⁻¹ same (failed_at w.job_err b.app b.deploy w (rw same k) refl up);
  }
  end_build-Recorded id none b k same = record {
    at = λ w up. rw⁻¹ same (succeeded_at w.job_err b.app b.deploy w (rw same k) refl up);
  }

  proceeds :
      {id : ℕ} (app : Application) (d : Deployment)
      → d.id ≡ id
      → Triple Calm (pure (proceed app d)) (StagedAt id) Broken
  proceeds app d same = Triple-pure (proceed app d) (λ s h. (h, same))

  build_or_reuse-Recorded :
      (image : Option String) (app : Application) (d : Deployment)
      → Leaves env d.id
      → Triple Calm (build_or_reuse env image app d) (StagedAt d.id) Broken
  unfolding build_or_reuse
  build_or_reuse-Recorded (some image) app d k =
      Triple-bind _ _ (Triple-keeping _ (update_deploy-Quiet job _) (update_deploy-Calm job _))
        (λ _. proceeds _ _ refl)
  build_or_reuse-Recorded none app d k =
      Triple-bind _ _ (Triple-keeping _ (update_deploy-Quiet job _) (update_deploy-Calm job _))
        (λ _.
          Triple-bind _ _ (Triple-from_Yields _ (build-Same env app _) (build-Calm env app _))
            (λ b. Triple-fact _ (λ h. end_build-Recorded d.id b.error b k h.same_id)))

  -- With the database up, the build stage ends the deployment on its rows, or hands it on.
  pub build_stage-Recorded :
      (force : Bool) (app : Application) (d : Deployment)
      → Leaves env d.id
      → Triple Calm (build_stage env force app d) (StagedAt d.id) Broken
  unfolding build_stage
  build_stage-Recorded force app d k =
      Triple-if _ _ _
        (λ _.
          Triple-bind _ _
            (Triple-keeping _ (reusable_image-Quiet force app d) (reusable_image-Calm force app d))
            (λ image. build_or_reuse-Recorded image app d k))
        (λ _. proceeds app d refl)
