-- ===== src/Deploy/Common/Yielding.antt =====
-- What the helpers of deploy_service.go return: they never fail.
use orkai.Prelude.{ℕ, String, Option, none, some}
use orkai.Result.{Result, ok, err}
use orkai.Exec.{Exec, pure}
use orkai.Exec.Yields.{
  Yields, Yields-pure, Yields-catch, Yields-view, Yields-bind, Yields-then, yields_rules,
}
use orkai.Model.Accounts.{Project}
use orkai.Model.Deploys.{Deployment, Application, AppStatus}
use orkai.World.{World, Context, notify}
use orkai.Deploy.Env.{Env}
use orkai.Deploy.Common.{
  update_deploy, set_app_status, to_org, notify_deploy, cancel_requested, live_phase, still_running,
}

abbrev pub Quiet : {A : Type 0} → Exec World A → Type 0
Quiet m = Yields (λ _. Unit {0}) m

pub update_deploy-Quiet : (c : Context) (d : Deployment) → Quiet (update_deploy c d)
unfolding update_deploy
update_deploy-Quiet c d = search yields_rules

pub set_app_status-Quiet : (c : Context) (id : ℕ) (s : AppStatus) → Quiet (set_app_status c id s)
unfolding set_app_status
set_app_status-Quiet c id s = search yields_rules

to_org-Quiet :
    (app : Application) (event : String) (p : Result Project) → Quiet (to_org app event p)
unfolding to_org notify pure
to_org-Quiet app event (ok p) = record { at = λ s. tt }
to_org-Quiet app event (err e) = record { at = λ s. tt }

pub notify_deploy-Quiet : (app : Application) (event : String) → Quiet (notify_deploy app event)
unfolding notify_deploy
notify_deploy-Quiet app event = Yields-then _ _ (Yields-catch _) (to_org-Quiet app event)

pub cancel_requested-Quiet : (id : ℕ) → Quiet (cancel_requested id)
unfolding cancel_requested
cancel_requested-Quiet id = Yields-then _ _ (Yields-catch _) (λ d. Yields-pure _ tt)

pub ruleset quiet_rules = (
  yields_rules, update_deploy-Quiet, set_app_status-Quiet, notify_deploy-Quiet,
  cancel_requested-Quiet,
)

module _ (env : Env) where
  live_phase-Quiet : (r : Result (Unit {0})) → Quiet (live_phase env r)
  unfolding live_phase
  live_phase-Quiet (ok _) = Yields-then _ _ (Yields-catch _) (λ r. Yields-pure _ tt)
  live_phase-Quiet (err e) = Yields-pure _ tt

  pub still_running-Quiet : (app : Option Application) → Quiet (still_running env app)
  unfolding still_running
  still_running-Quiet none = Yields-pure _ tt
  still_running-Quiet (some app) =
      Yields-then _ _ (notify_deploy-Quiet app _) (λ _. live_phase-Quiet env.target)
