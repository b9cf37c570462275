-- ===== src/Access/Guards/Sound.antt =====
-- What a request that passes a guard has shown.
use orkai.Prelude.{
  map, ℕ, String, ◌≡◌, refl, ap, sym, ◌∙◌, Bool, true, false, Option, none, some, List, arith, not,
  ◌||◌, ◌==◌, mem_nat, find?, any,
}
use orkai.Exec.{throw}
use orkai.Exec.Triple.{
  Both, Triple, Triple-pure, Triple-throw_if, Triple-bind, Triple-weaken, Triple-or_else,
  Triple-fact, Triple-if,
}
use orkai.Model.Accounts.{Project, Owned, Domain}
use orkai.Model.Pages.{owned_page}
use orkai.Model.Deploys.{Deployment, Application}
use orkai.World.{Db, World, request}
use orkai.World.Atomic.{On}
use orkai.Store.Atomic.{Same, fetch-Same, select-Same}
use orkai.Store.Projects as Projects
use orkai.Store.Accounts.Teams as Teams
use orkai.Store.Deploys as Deploys
use orkai.Store.Owned as Rows
use orkai.Access.Authz.{is_privileged, can_access_project}
use orkai.Access.Guards.{Caller, Kind, check_project, guard_app_of, guard_owned, guard_id, guard}

-- The rule: a live project of the caller's organization, and an administrator, or a member of the
-- project's team.
pub record MayReach (db : Db) (caller : Caller) (project_id : ℕ) : Type 0 where
  pub project : Project
  pub found : find? (Projects.by_id project_id) db.projects ≡ some project
  pub of_org : project.org_id ≡ caller.org_id
  pub entitled :
      (is_privileged caller.role
        || mem_nat project.team_id (Teams.team_ids_of caller.user_id db.team_members))
      ≡ true

-- The project that a live resource belongs to.
pub data Owner (db : Db) : Kind → ℕ → ℕ → Type 0 where
  of_project : (id : ℕ) → Owner db Kind.project id id
  of_app :
      (id : ℕ) (a : Application)
      → find? (Deploys.app_by_id id) db.applications ≡ some a
      → Owner db Kind.app id a.project_id
  of_database :
      (id : ℕ) (x : Owned)
      → find? (Rows.by_id id) db.databases ≡ some x
      → Owner db Kind.database id x.project_id
  of_page :
      (id : ℕ) (x : Owned)
      → find? (Rows.by_id id) (map owned_page db.pages) ≡ some x
      → Owner db Kind.page id x.project_id
  of_worker :
      (id : ℕ) (x : Owned)
      → find? (Rows.by_id id) db.workers ≡ some x
      → Owner db Kind.worker id x.project_id
  of_cron_job :
      (id : ℕ) (x : Owned)
      → find? (Rows.by_id id) db.cron_jobs ≡ some x
      → Owner db Kind.cron_job id x.project_id
  of_deployment :
      (id : ℕ) (d : Deployment) (p : ℕ)
      → find? (Deploys.by_id id) db.deployments ≡ some d
      → Owner db Kind.app d.app_id p
      → Owner db Kind.deployment id p
  of_domain :
      (id : ℕ) (d : Domain) (p : ℕ)
      → find? (Rows.domain_by_id id) db.domains ≡ some d
      → Owner db Kind.app d.app_id p
      → Owner db Kind.domain id p

-- A request for the resource `id` that passed.
pub record Passed (db : Db) (kind : Kind) (caller : Caller) (param : Option ℕ) : Type 0 where
  pub id : ℕ
  pub parsed : param ≡ some id
  pub project_id : ℕ
  pub owner : Owner db kind id project_id
  pub reach : MayReach db caller project_id

module _ (db0 : Db) where
  attach-Same :
      (p : Project)
      → Triple
          (On (Same db0))
          (Projects.attach_team request p)
          (λ q w. On (Same db0) w × (q ≡ p))
          (On (Same db0))
  unfolding Projects.attach_team
  attach-Same p =
      Triple-if (p.team_id == 0) _ _ (λ _. Triple-pure p (λ w h. (h, refl)))
        (λ _.
          Triple-bind _ _ (select-Same db0 request (λ db. any (Teams.by_id p.team_id) db.teams))
            (λ b. Triple-fact _ (λ _e.
              Triple-if b _ _ (λ _. Triple-pure p (λ w h. (h, refl)))
                (λ _. record { at = λ w h. h }))))

  get_project-Same :
      (id : ℕ)
      → Triple
          (On (Same db0))
          (Projects.get_by_id request id)
          (λ p w. On (Same db0) w × (find? (Projects.by_id id) db0.projects ≡ some p))
          (On (Same db0))
  unfolding Projects.get_by_id
  get_project-Same id =
      Triple-bind _ _ (fetch-Same db0 request (λ db. find? (Projects.by_id id) db.projects)) (λ p.
        Triple-fact _ (λ found.
          Triple-weaken _ (λ w h. h) (λ q w h. (h.0, found ∙ ap some (sym h.1))) (λ w h. h)
            (attach-Same p)))

allowed : (b : Bool) → not b ≡ false → b ≡ true
allowed b h = ground arith

module _ (db0 : Db) (caller : Caller) where
  can_access-On :
      (project_id : ℕ)
      → Triple
          (On (Same db0))
          (can_access_project caller.user_id caller.role caller.org_id project_id)
          (λ b w. On (Same db0) w × (b ≡ true → MayReach db0 caller project_id))
          (On (Same db0))
  unfolding can_access_project Teams.list_team_ids_by_user
  can_access-On project_id = Triple-bind _ _ (get_project-Same db0 project_id) (λ p.
      Triple-fact _ (λ found.
        Triple-if (not (p.org_id == caller.org_id)) _ _
          (λ _. Triple-pure false (λ w h. (h, λ e. absurd cc)))
          (λ same.
            Triple-if (is_privileged caller.role) _ _
              (λ admin. Triple-pure true (λ w h. (
                h,
                λ _. record {
                  project = p;
                  found = found;
                  of_org = ground arith;
                  entitled = ground arith;
                },
              )))
              (λ member.
                Triple-bind _ _
                  (select-Same db0 request (λ db. Teams.team_ids_of caller.user_id db.team_members))
                  (λ ids. Triple-fact _ (λ teams. Triple-pure (mem_nat p.team_id ids) (λ w h. (
                    h,
                    λ e. record {
                      project = p;
                      found = found;
                      of_org = ground arith;
                      entitled = rw member (ap (mem_nat p.team_id) (sym teams) ∙ e);
                    },
                  ))))))))

  -- A resource is found, or the guard aborts with its answer.
  check_project-On :
      (project_id : ℕ)
      → Triple
          (On (Same db0))
          (check_project caller project_id)
          (λ _. On (λ _. MayReach db0 caller project_id))
          (On (Same db0))
  unfolding check_project
  check_project-On project_id =
      Triple-bind _ _ (Triple-or_else _ _ (can_access-On project_id)) (λ b. Triple-fact _ (λ reach.
        Triple-weaken _ (λ w h. h) (λ a w h. reach (allowed b h.1)) (λ w h. h)
          (Triple-throw_if (not b) _ (λ w h. h))))

  guard_app_of-On :
      (app_id : ℕ)
      → Triple
          (On (Same db0))
          (guard_app_of caller app_id)
          (λ _. On (λ _. (p : ℕ) × Owner db0 Kind.app app_id p × MayReach db0 caller p))
          (On (Same db0))
  unfolding guard_app_of Deploys.get_app
  guard_app_of-On app_id =
      Triple-bind _ _
        (Triple-or_else _ _
          (fetch-Same db0 request (λ db. find? (Deploys.app_by_id app_id) db.applications)))
        (λ a. Triple-fact _ (λ found.
          Triple-weaken _ (λ w h. h) (λ _ w h. (a.project_id, of_app app_id a found, h)) (λ w h. h)
            (check_project-On a.project_id)))

  guard_owned-On :
      (kind : Kind) (table : Db → List Owned) (missing : String) (id : ℕ)
      → ((x : Owned) → find? (Rows.by_id id) (table db0) ≡ some x → Owner db0 kind id x.project_id)
      → Triple
          (On (Same db0))
          (guard_owned caller table missing id)
          (λ _. On (λ _. (p : ℕ) × Owner db0 kind id p × MayReach db0 caller p))
          (On (Same db0))
  unfolding guard_owned Rows.get
  guard_owned-On kind table missing id owner =
      Triple-bind _ _
        (Triple-or_else _ _ (fetch-Same db0 request (λ db. find? (Rows.by_id id) (table db))))
        (λ x. Triple-fact _ (λ found.
          Triple-weaken _ (λ w h. h) (λ _ w h. (x.project_id, owner x found, h)) (λ w h. h)
            (check_project-On x.project_id)))

  guard_id-On :
      (kind : Kind) (id : ℕ)
      → Triple
          (On (Same db0))
          (guard_id kind caller id)
          (λ _. On (λ _. (p : ℕ) × Owner db0 kind id p × MayReach db0 caller p))
          (On (Same db0))
  unfolding guard_id Deploys.get_by_id Rows.get_domain
  guard_id-On Kind.project id =
      Triple-weaken _ (λ w h. h) (λ _ w h. (id, of_project id, h)) (λ w h. h) (check_project-On id)
  guard_id-On Kind.app id = guard_app_of-On id
  guard_id-On Kind.database id =
      guard_owned-On Kind.database (λ db. db.databases) _ id (of_database id)
  guard_id-On Kind.page id =
      guard_owned-On Kind.page (λ db. map owned_page db.pages) _ id (of_page id)
  guard_id-On Kind.worker id = guard_owned-On Kind.worker (λ db. db.workers) _ id (of_worker id)
  guard_id-On Kind.cron_job id =
      guard_owned-On Kind.cron_job (λ db. db.cron_jobs) _ id (of_cron_job id)
  guard_id-On Kind.deployment id =
      Triple-bind _ _
        (Triple-or_else _ _
          (fetch-Same db0 request (λ db. find? (Deploys.by_id id) db.deployments)))
        (λ d. Triple-fact _ (λ found.
          Triple-weaken _ (λ w h. h) (λ _ w h. (h.0, of_deployment id d h.0 found h.1, h.2))
            (λ w h. h) (guard_app_of-On d.app_id)))
  guard_id-On Kind.domain id =
      Triple-bind _ _
        (Triple-or_else _ _
          (fetch-Same db0 request (λ db. find? (Rows.domain_by_id id) db.domains)))
        (λ d. Triple-fact _ (λ found.
          Triple-weaken _ (λ w h. h) (λ _ w h. (h.0, of_domain id d h.0 found h.1, h.2)) (λ w h. h)
            (guard_app_of-On d.app_id)))

-- Every guard fails closed: whichever queries fail, a request that passes named a live resource of
-- a live project of the caller's organization, and the caller is an administrator or a member of
-- that project's team. A request that does not pass changes nothing.
pub guard-Passed :
    (kind : Kind) (caller : Caller) (param : Option ℕ) (w : World)
    → Both (λ _ _. Passed w.db kind caller param) (λ w'. w'.db ≡ w.db) (guard kind caller param w)
unfolding guard throw
guard-Passed kind caller none w = refl
guard-Passed kind caller (some id) w =
    (Triple-weaken _ (λ w h. h)
        (λ _ _ h. record { id = id; parsed = refl; project_id = h.0; owner = h.1; reach = h.2 })
        (λ w h. h) (guard_id-On w.db caller kind id)).at
      w refl
