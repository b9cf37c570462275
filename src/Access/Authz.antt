-- ===== src/Access/Authz.antt =====
-- apps/api/internal/service/authz_service.go
pub mod Agreement
use orkai.Prelude.{
  ℕ, String, Bool, true, false, List, [], ◌∷◌, not, ◌==◌, mem_nat, str_eq, if◌then◌else◌,
}
use orkai.Exec.{Exec, pure, ◌>>=◌}
use orkai.Model.Accounts.{Project, role_admin}
use orkai.World.{World, request}
use orkai.Store.Projects as Projects
use orkai.Store.Accounts.Teams as Teams

abbrev pub is_privileged : String → Bool
is_privileged role = str_eq role role_admin

-- What `AccessibleProjectIDs` returns: `isAll`, or the ids.
pub data Scope : Type 0 where
  all : Scope
  only : List ℕ → Scope

is_empty : List ℕ → Bool
is_empty [] = true
is_empty (x ∷ xs) = false

unfoldable pub accessible_project_ids : ℕ → String → ℕ → Exec World Scope
unfolding is_empty
accessible_project_ids user_id role org_id = if is_privileged role then pure all else do
  team_ids ← Teams.list_team_ids_by_user request user_id
  if is_empty team_ids
      then pure (only [])
      else do ids ← Projects.list_ids_by_teams request org_id team_ids; pure (only ids)

unfoldable pub can_access_project : ℕ → String → ℕ → ℕ → Exec World Bool
can_access_project user_id role org_id project_id = do
  project ← Projects.get_by_id request project_id
  if not (project.org_id == org_id)
      then pure false
      else if is_privileged role
      then pure true
      else do
        team_ids ← Teams.list_team_ids_by_user request user_id
        pure (mem_nat project.team_id team_ids)
