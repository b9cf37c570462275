-- ===== src/Team/Groups.antt =====
-- The teams of team_service.go, and who belongs to them.
pub mod Scoped
use orkai.Prelude.{
  ℕ, String, Bool, true, false, Option, none, some, not, ◌==◌, ltb, str_eq, if◌then◌else◌,
}
use orkai.Prelude.Text.{trim_space}
use orkai.Result.{Result, ok, err, message}
use orkai.Exec.{Exec, pure, catch, throw_if, or_else, ◌>>=◌, ◌>>◌}
use orkai.Model.Accounts.{User, Team}
use orkai.World.{World, request, notify}
use orkai.Store.Users as Users
use orkai.Store.Accounts.Teams as Teams

unfoldable pub create_team : ℕ → String → String → Exec World Team
unfolding trim_space
create_team org_id name description = do
  throw_if (str_eq (trim_space name) "") (message "team name is required")
  Teams.create request (record {
    id = 0;
    deleted_at = none;
    org_id = org_id;
    name = trim_space name;
    description = trim_space description;
  })

unfoldable pub get_team : ℕ → ℕ → Exec World Team
get_team org_id team_id = do
  team ← or_else (Teams.get_by_id request team_id) (message "team not found")
  throw_if (not (team.org_id == org_id)) (message "team not found")
  pure team

unfoldable pub delete_team : ℕ → ℕ → Exec World (Unit {0})
unfolding get_team notify
delete_team org_id team_id = do
  team ← get_team org_id team_id
  n ← Teams.count_projects request team.id
  throw_if (ltb 0 n)
      (message "cannot delete a team that still has projects; reassign or delete them first")
  Teams.delete request team.id
  notify org_id "team_deleted" team.name

unfoldable pub add_team_member : ℕ → ℕ → ℕ → Exec World (Unit {0})
unfolding get_team
add_team_member org_id team_id user_id = do
  get_team org_id team_id
  user ← or_else (Users.get_by_id request user_id) (message "user not found")
  throw_if (not (user.org_id == org_id)) (message "user is not a member of this organization")
  Teams.add_member request team_id user_id

-- The address where the user can be read, else the id.
abbrev label_of : String → Result User → String
label_of id_text (ok user) = user.email
label_of id_text (err e) = id_text

-- `id_text` is the printed id of the user.
unfoldable pub remove_team_member : ℕ → ℕ → ℕ → String → Exec World (Unit {0})
unfolding get_team notify
remove_team_member org_id team_id user_id id_text = do
  get_team org_id team_id
  Teams.remove_member request team_id user_id
  user ← catch (Users.get_by_id request user_id)
  notify org_id "team_member_removed" (label_of id_text user)
