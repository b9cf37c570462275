-- ===== src/Access/Guards/Complete.antt =====
-- Who is entitled passes.
use orkai.Prelude.{
  ℕ, ◌≡◌, refl, true, false, some, [], ◌==◌, ==_refl, any, Bool-cases, ◌⊎◌, inl, inr,
}
use orkai.Result.{ok}
use orkai.Exec.{◌>>=◌}
use orkai.World.{World}
use orkai.Store.Projects as Projects
use orkai.Store.Accounts.Teams as Teams
use orkai.Store.Deploys as Deploys
use orkai.Store.Owned as Rows
use orkai.Access.Authz.{is_privileged, can_access_project}
use orkai.Access.Guards.{Caller, Kind, check_project, guard_app_of, guard_owned, guard_id, guard}
use orkai.Access.Guards.Sound.{
  MayReach, Owner, of_project, of_app, of_database, of_page, of_worker, of_cron_job, of_deployment,
  of_domain,
}

module _ (caller : Caller) (p : ℕ) (w : World) (up : w.faults ≡ []) (reach : MayReach w.db caller p)
    (team : any (Teams.by_id reach.project.team_id) w.db.teams ≡ true) where
  passes :
      (is_privileged caller.role ≡ true) ⊎ (is_privileged caller.role ≡ false)
      → ((reach.project.team_id == 0) ≡ true) ⊎ ((reach.project.team_id == 0) ≡ false)
      → check_project caller p w ≡ (ok tt, w)
  unfolding check_project can_access_project Projects.get_by_id Projects.attach_team
      Teams.list_team_ids_by_user ◌>>=◌
  passes (inl h) (inl k) = rw (up, reach.found, k, reach.of_org, ==_refl caller.org_id, h) refl
  passes (inl h) (inr k) =
      rw (up, reach.found, k, team, reach.of_org, ==_refl caller.org_id, h) refl
  passes (inr h) (inl k) =
      rw (up, reach.found, k, reach.of_org, ==_refl caller.org_id, h, rw h at reach.entitled) refl
  passes (inr h) (inr k) =
      rw (up, reach.found, k, team, reach.of_org, ==_refl caller.org_id, h, rw h at reach.entitled)
        refl

  check_project-passes : check_project caller p w ≡ (ok tt, w)
  check_project-passes =
      passes (Bool-cases (is_privileged caller.role)) (Bool-cases (reach.project.team_id == 0))

  -- With the database up, a caller who may reach the project of a resource, whose team is there,
  -- passes the guard of the resource, and nothing changes.
  pub guard-passes :
      (kind : Kind) (id : ℕ) → Owner w.db kind id p → guard kind caller (some id) w ≡ (ok tt, w)
  unfolding guard guard_id guard_app_of guard_owned Deploys.get_by_id Deploys.get_app Rows.get
      Rows.get_domain ◌>>=◌
  guard-passes kind id (of_project _) = check_project-passes
  guard-passes kind id (of_app _ a found) = rw (up, found) (rw up at check_project-passes)
  guard-passes kind id (of_database _ x found) = rw (up, found) (rw up at check_project-passes)
  guard-passes kind id (of_page _ x found) = rw (up, found) (rw up at check_project-passes)
  guard-passes kind id (of_worker _ x found) = rw (up, found) (rw up at check_project-passes)
  guard-passes kind id (of_cron_job _ x found) = rw (up, found) (rw up at check_project-passes)
  guard-passes kind id (of_deployment _ d _ found (of_app _ a afound)) =
      rw (up, found, afound) (rw up at check_project-passes)
  guard-passes kind id (of_domain _ d _ found (of_app _ a afound)) =
      rw (up, found, afound) (rw up at check_project-passes)
