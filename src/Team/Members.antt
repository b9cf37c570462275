-- ===== src/Team/Members.antt =====
-- `UpdateMemberRole` and `RemoveMember` of team_service.go.
pub mod Counts
pub mod Outcomes
pub mod Removal
pub mod LastAdmin
use orkai.Prelude.{
  ℕ, String, Bool, true, false, List, [], ◌∷◌, ◌&&◌, ◌||◌, not, ◌==◌, leb, str_eq, if◌then◌else◌,
}
use orkai.Result.{Result, ok, err, message}
use orkai.Exec.{Exec, pure, throw_if, ignore, or_else, ◌>>=◌, ◌>>◌}
use orkai.Model.Accounts.{User, TeamMember, role_admin, role_member}
use orkai.World.{World, request, tx, notify}
use orkai.Store.Users as Users
use orkai.Store.Accounts.Teams as Teams
use orkai.Store.Accounts.ApiKeys as ApiKeys

abbrev pub is_known : String → Bool
is_known role = str_eq role role_admin || str_eq role role_member

-- Only an administrator's change needs another administrator.
unfoldable pub keep_admin : Bool → ℕ → String → Exec World (Unit {0})
keep_admin true org_id text = do
  admins ← Users.count_by_role request org_id role_admin
  throw_if (leb admins 1) (message text)
keep_admin false org_id text = pure tt

write_role : ℕ → String → Exec World (Unit {0})
write_role user_id role = do
  Users.update_role request user_id role
  ApiKeys.revoke_all_for_user request user_id

unfoldable pub update_member_role : ℕ → ℕ → String → Exec World (Unit {0})
unfolding keep_admin write_role
update_member_role org_id user_id role = do
  throw_if (not (is_known role)) (message "role must be 'admin' or 'member'")
  user ← or_else (Users.get_by_id request user_id) (message "user not found")
  throw_if (not (user.org_id == org_id)) (message "user is not a member of this organization")
  keep_admin (str_eq user.role role_admin && str_eq role role_member) org_id
      "organization must have at least one admin"
  tx (write_role user_id role)

-- A membership that cannot be removed is logged, and the loop goes on.
remove_memberships : ℕ → List TeamMember → Exec World (Unit {0})
remove_memberships user_id [] = pure tt
remove_memberships user_id (m ∷ ms) = do
  ignore (Teams.remove_member request m.team_id user_id)
  remove_memberships user_id ms

delete_user : ℕ → Exec World (Unit {0})
delete_user user_id = do
  Users.remove_from_org request user_id
  ApiKeys.revoke_all_for_user request user_id

unfoldable pub remove_member : ℕ → ℕ → Exec World (Unit {0})
unfolding keep_admin remove_memberships delete_user
remove_member org_id user_id = do
  user ← or_else (Users.get_by_id request user_id) (message "user not found")
  throw_if (not (user.org_id == org_id)) (message "user is not a member of this organization")
  keep_admin (str_eq user.role role_admin) org_id "cannot remove the last admin"
  memberships ← Teams.list_by_user request user_id
  remove_memberships user_id memberships
  tx (delete_user user_id)
  notify org_id "member_removed" user.email
