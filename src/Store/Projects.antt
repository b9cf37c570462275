-- ===== src/Store/Projects.antt =====
-- apps/api/internal/store/pg/project_store.go
use orkai.Prelude.{
  ℕ, Bool, true, false, List, [], ◌∷◌, map, ◌&&◌, ◌==◌, find?, filter, any, mem_nat, if◌then◌else◌,
}
use orkai.Result.{message}
use orkai.Exec.{Exec, pure, throw, ◌>>=◌}
use orkai.Model.Accounts.{Project}
use orkai.World.{World, Context}
use orkai.Store.Query.{is_live, fetch, select}
use orkai.Store.Accounts.Teams as Teams

abbrev pub by_id : ℕ → Project → Bool
by_id id p = (p.id == id) && is_live p.deleted_at

-- `attachTeams` for one project: its team must be there, unless the id is `uuid.Nil`.
unfoldable pub attach_team : Context → Project → Exec World Project
unfolding select
attach_team c p = if p.team_id == 0 then pure p else do
  found ← select c (λ db. any (Teams.by_id p.team_id) db.teams)
  if found then pure p else throw (message "team not found for project")

unfoldable pub get_by_id : Context → ℕ → Exec World Project
unfolding fetch attach_team
get_by_id c id = do p ← fetch c (λ db. find? (by_id id) db.projects); attach_team c p

abbrev pub in_teams : ℕ → List ℕ → Project → Bool
in_teams org_id team_ids p =
    (p.org_id == org_id) && mem_nat p.team_id team_ids && is_live p.deleted_at

abbrev is_empty : List ℕ → Bool
is_empty [] = true
is_empty (x ∷ xs) = false

unfoldable pub list_ids_by_teams : Context → ℕ → List ℕ → Exec World (List ℕ)
unfolding select
list_ids_by_teams c org_id team_ids =
    if is_empty team_ids
    then pure []
    else select c
        (λ db. map (λ (p : Project). p.id) (filter (in_teams org_id team_ids) db.projects))
