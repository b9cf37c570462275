-- ===== src/Pages/Keeping.antt =====
-- What the steps of a page's run leave as it is.
use orkai.Prelude.{ℕ, String, ◌≡◌, refl, Option, List, [], ◌∷◌, arith}
use orkai.Exec.{Exec, modify}
use orkai.Exec.Preserves.{
  Preserves, Preserves-bind, Preserves-ignore, Preserves-catch, Preserves-view, Preserves-lift,
  Preserves-if, Preserves-throw_if, Preserves-throw, Preserves-pure, preserves_rules,
}
use orkai.Model.Pages.{PageStatus, PageRuntime, PageDeployment, PageProvider}
use orkai.World.{World, Db, Context, round_trip, on_db}
use orkai.Store.Query.{fetch, select, exec}
use orkai.Store.Pages as Pages
use orkai.Deploy.Env.{Call, perform}
use orkai.Pages.Env.{Run, in_world}
use orkai.Pages.Common.{
  change_dep, change_page, save_dep, log, log_all, call, save_runtime, update_deploy,
}
use orkai.Pages.Domains.{wrapping, validate_dns_account, resolve_dns_provider}

-- The database is up.
abbrev pub Up : World → Type 0
Up w = w.faults ≡ []

-- The run is about the page and the deployment with these ids, and holds the page as deploying.
pub record Holds (page_id deployment_id : ℕ) (run : Run) : Type 0 where
  pub up : run.world.faults ≡ []
  pub same_page : run.page.id ≡ page_id
  pub same_deployment : run.dep.id ≡ deployment_id
  pub deploying : run.page.status ≡ PageStatus.deploying

pub round_trip-Up : (c : Context) → Preserves Up (round_trip c)
unfolding round_trip
round_trip-Up c = record { at = λ w h. ground arith }

on_db-Up : (f : Db → Db) → Preserves Up (on_db f)
unfolding on_db
on_db-Up f = record { at = λ w h. h }

pub perform-Up : {A : Type 0} (c : Call A) → Preserves Up (perform c)
unfolding perform
perform-Up c = record { at = λ w h. h }

pub exec-Up : (c : Context) (f : Db → Db) → Preserves Up (exec c f)
unfolding exec
exec-Up c f = search (preserves_rules, round_trip-Up, on_db-Up)

pub fetch-Up : {A : Type 0} (c : Context) (f : Db → Option A) → Preserves Up (fetch c f)
unfolding fetch
fetch-Up c f = search (preserves_rules, round_trip-Up)

pub select-Up : {A : Type 0} (c : Context) (f : Db → A) → Preserves Up (select c f)
unfolding select
select-Up c f = search (preserves_rules, round_trip-Up)

pub wrapping-keeps :
    {S A : Type 0} {P : S → Type 0} (text : String) (m : Exec S A)
    → Preserves P m
    → Preserves P (wrapping text m)
unfolding wrapping
wrapping-keeps text m h = Preserves-bind _ _ (Preserves-catch m h) (λ r. Preserves-lift _)

pub get_resource-Up : (c : Context) (id : ℕ) → Preserves Up (Pages.get_resource c id)
unfolding Pages.get_resource
get_resource-Up c id = fetch-Up c _

pub ruleset up_rules =
    (preserves_rules, exec-Up, fetch-Up, perform-Up, wrapping-keeps, get_resource-Up)

pub validate_dns_account-Up :
    (c : Context) (p : PageProvider) (id : ℕ) → Preserves Up (validate_dns_account c p id)
unfolding validate_dns_account
validate_dns_account-Up c p id = search up_rules depth 12

pub resolve_dns_provider-Up : (c : Context) (id : ℕ) → Preserves Up (resolve_dns_provider c id)
unfolding resolve_dns_provider
resolve_dns_provider-Up c id = search up_rules depth 16

pub update_deploy-Up : (c : Context) (d : PageDeployment) → Preserves Up (update_deploy c d)
unfolding update_deploy Pages.update_deployment
update_deploy-Up c d = Preserves-ignore _ (exec-Up c _)

update_runtime-Up :
    (c : Context) (id : ℕ) (rt : PageRuntime) → Preserves Up (Pages.update_runtime c id rt)
unfolding Pages.update_runtime
update_runtime-Up c id rt = exec-Up c _

module _ {P D : ℕ} where
  pub in_world-Holds :
      {A : Type 0} (m : Exec World A) → Preserves Up m → Preserves (Holds P D) (in_world m)
  unfolding in_world
  in_world-Holds m k = record {
    at = λ run h.
        let up' = k.at run.world h.up in
        record {
          up = up';
          same_page = h.same_page;
          same_deployment = h.same_deployment;
          deploying = h.deploying;
        };
  }

  pub change_dep-Holds :
      (f : PageDeployment → PageDeployment)
      → ((d : PageDeployment) → (f d).id ≡ d.id)
      → Preserves (Holds P D) (change_dep f)
  unfolding change_dep modify
  change_dep-Holds f k = record {
    at = λ run h. record {
      up = h.up;
      same_page = h.same_page;
      same_deployment = rw (k run.dep) h.same_deployment;
      deploying = h.deploying;
    };
  }

  pub runtime-Holds :
      (rt : PageRuntime) → Preserves (Holds P D) (change_page (λ p. record p { runtime = rt }))
  unfolding change_page modify
  runtime-Holds rt = record {
    at = λ run h. record {
      up = h.up;
      same_page = h.same_page;
      same_deployment = h.same_deployment;
      deploying = h.deploying;
    };
  }

  pub save_dep-Holds : Preserves (Holds P D) save_dep
  unfolding save_dep
  save_dep-Holds =
      Preserves-bind _ _ (Preserves-view _) (λ d. in_world-Holds _ (update_deploy-Up _ d))

  pub log-Holds : (text : List String) → Preserves (Holds P D) (log text)
  unfolding log
  log-Holds text =
      Preserves-bind _ _ (Preserves-view _)
        (λ now. Preserves-bind _ _ (change_dep-Holds _ (λ d. refl)) (λ _. save_dep-Holds))

  pub log_all-Holds : (ls : List (List String)) → Preserves (Holds P D) (log_all ls)
  unfolding log_all
  log_all-Holds [] = Preserves-pure tt
  log_all-Holds (l ∷ ls) = Preserves-bind _ _ (log-Holds l) (λ _. log_all-Holds ls)

  pub call-Holds : {A : Type 0} (c : Call A) → Preserves (Holds P D) (call c)
  unfolding call
  call-Holds c = in_world-Holds _ (perform-Up c)

  pub save_runtime-Holds :
      (c : Context) (rt : PageRuntime) → Preserves (Holds P D) (save_runtime c rt)
  unfolding save_runtime
  save_runtime-Holds c rt = Preserves-bind _ _ (Preserves-view _) (λ p.
      Preserves-bind _ _ (runtime-Holds rt) (λ _. in_world-Holds _ (update_runtime-Up c _ rt)))

  pub ruleset holds_rules = (
    preserves_rules, wrapping-keeps, in_world-Holds, save_dep-Holds, log-Holds, log_all-Holds,
    call-Holds, save_runtime-Holds, validate_dns_account-Up, resolve_dns_provider-Up,
  )
