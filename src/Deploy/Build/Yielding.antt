-- ===== src/Deploy/Build/Yielding.antt =====
-- What the actions of the build stage return: `Build` keeps the row, with its id and its cancel flag.
use orkai.Prelude.{ℕ, String, ◌≡◌, ◌∙◌, refl, Bool, List, [], ◌∷◌}
use orkai.Result.{Result, ok, err}
use orkai.Exec.{catch, ◌>>=◌}
use orkai.Exec.Yields.{
  Yields, Yields-pure, Yields-catch, Yields-ignore, Yields-if, Yields-bind, Yields-then,
  Yields-weaken,
}
use orkai.Model.Deploys.{Deployment, Application}
use orkai.Deploy.Env.{Env, BuildResult, perform}
use orkai.Deploy.Common.Yielding.{Quiet}
use orkai.Deploy.Build.{
  save_logs, Built, keep_image, after_build, run_builder, build, reusable_image,
}

-- The same row, with the cancel flag as it was loaded.
pub record SameRow (id : ℕ) (flag : Bool) (d : Deployment) : Type 0 where
  pub same_id : d.id ≡ id
  pub same_flag : d.cancel_requested ≡ flag

abbrev pub SameAs : Deployment → Deployment → Type 0
SameAs d0 d = SameRow d0.id d0.cancel_requested d

SameAs-refl : (d : Deployment) → SameAs d d
SameAs-refl d = record { same_id = refl; same_flag = refl }

abbrev Same : Deployment → Built → Type 0
Same d0 b = SameAs d0 b.deploy

SameAs-trans : (a b c : Deployment) → SameAs a b → SameAs b c → SameAs a c
SameAs-trans a b c r h = record {
  same_id = h.same_id ∙ r.same_id;
  same_flag = h.same_flag ∙ r.same_flag;
}

save_logs-SameAs :
    (redact : String → String) (ls : List String) (d : Deployment)
    → Yields (SameAs d) (save_logs redact ls d)
unfolding save_logs
save_logs-SameAs redact [] d = Yields-pure _ (SameAs-refl d)
save_logs-SameAs redact (l ∷ ls) d =
    Yields-then _ _ (Yields-ignore _) (λ _. save_logs-SameAs redact ls _)

module _ (env : Env) (app : Application) where
  keep_image-Same :
      (d : Deployment) (r : BuildResult) (s : Result (Unit {0}))
      → Yields (Same d) (keep_image app d r s)
  unfolding keep_image
  keep_image-Same d r (err e) = Yields-pure _ (SameAs-refl d)
  keep_image-Same d r (ok _) =
      Yields-then _ _ (Yields-ignore _) (λ _. Yields-pure _ (SameAs-refl _))

pub reusable_image-Quiet :
    (force : Bool) (app : Application) (d : Deployment) → Quiet (reusable_image force app d)
unfolding reusable_image
reusable_image-Quiet force app d =
    Yields-if _ _ _ (Yields-then _ _ (Yields-catch _) (λ last. Yields-pure _ tt)) (Yields-pure _ tt)

module _ (env : Env) where
  after_build-Same :
      (app : Application) (d : Deployment) (r : Result BuildResult)
      → Yields (Same d) (after_build env app d r)
  unfolding after_build
  after_build-Same app d (err e) =
      Yields-then _ _ (Yields-ignore _) (λ _. Yields-pure _ (SameAs-refl _))
  after_build-Same app d (ok r) =
      Yields-then _ _ (Yields-catch _) (λ saved. keep_image-Same env _ d r saved)

  after_logs :
      (app : Application) (d d' : Deployment)
      → SameAs d d'
      → Yields (Same d) (catch (perform env.build) >>= λ r. after_build env app d' r)
  after_logs app d d' h =
      Yields-then _ _ (Yields-catch _)
        (λ r. Yields-weaken _ (λ b hb. SameAs-trans d d' b.deploy h hb) (after_build-Same app d' r))

  run_builder-Same :
      (r : Result (Unit {0})) (app : Application) (d : Deployment)
      → Yields (Same d) (run_builder env r app d)
  unfolding run_builder
  run_builder-Same (err e) app d = Yields-pure _ (SameAs-refl d)
  run_builder-Same (ok _) app d =
      Yields-bind _ _ (save_logs-SameAs env.redact env.on_log d) (λ d' h. after_logs app d d' h)

  pub build-Same : (app : Application) (d : Deployment) → Yields (Same d) (build env app d)
  unfolding build
  build-Same app d = run_builder-Same env.builder app d
