-- ===== src/Tests/Teams.antt =====
-- Members, invitations and teams at concrete inputs.
use orkai.Prelude.{◌≡◌, refl, [], ◌∷◌, count, arith}
use orkai.Result.{ok, err, message}
use orkai.Exec.Triple.{Both}
use orkai.Model.Accounts.{role_admin, role_member}
use orkai.World.{World}
use orkai.Store.Users as Users
use orkai.Team.Members.{update_member_role, remove_member}
use orkai.Team.Members.Outcomes.{RoleSet}
use orkai.Team.Members.Removal.{SameAccounts, Removed}
use orkai.Team.Members.LastAdmin.{
  HasAdmin, update_member_role-HasAdmin, remove_member-HasAdmin, update_member_role-atomic,
  remove_member-atomic,
}
use orkai.Team.Groups.{delete_team, add_team_member}
use orkai.Team.Groups.Scoped.{TeamDeleted, MemberAdded, delete_team-Both, add_team_member-Both}
use orkai.Team.Invites.{accept_invitation, invite_by_mail}
use orkai.Team.Invites.Accepting.{
  MayAccept, Accepted, accept_invitation-Accepted, accept_invitation-demotes,
}
use orkai.Team.Invites.Inviting.{already_pending, invite_by_mail-twice}
use orkai.Tests.Data.{world, db, ada, cyd, invitation, members}

update_member_role-HasAdmin_example : HasAdmin 1 (update_member_role 1 12 role_member members).1.db
update_member_role-HasAdmin_example =
    update_member_role-HasAdmin 1 12 1 members (omega arith) (omega arith) role_member

remove_member-HasAdmin_example : HasAdmin 1 (remove_member 1 12 members).1.db
remove_member-HasAdmin_example = remove_member-HasAdmin 1 12 1 members (omega arith) (omega arith)

update_member_role-atomic_example :
    Both
      (λ _ w'. RoleSet members.db 12 role_member w'.db)
      (λ w'. w'.db ≡ members.db)
      (update_member_role 1 12 role_member members)
update_member_role-atomic_example = update_member_role-atomic 1 12 role_member members

remove_member-atomic_example :
    Both
      (λ _ w'. Removed members.db 12 w'.db)
      (λ w'. SameAccounts members.db w'.db)
      (remove_member 1 12 members)
remove_member-atomic_example = remove_member-atomic 1 12 members

delete_team-Both_example :
    Both
      (λ _ w'. TeamDeleted members.db 1 22 w'.db)
      (λ w'. w'.db ≡ members.db)
      (delete_team 1 22 members)
delete_team-Both_example = delete_team-Both 1 22 members

add_team_member-Both_example :
    Both
      (λ _ w'. MemberAdded members.db 1 22 12 w'.db)
      (λ w'. w'.db ≡ members.db)
      (add_team_member 1 22 12 members)
add_team_member-Both_example = add_team_member-Both 1 22 members 12

-- One administrator, invited again as a member.
abbrev alone : World
alone = world (db (ada ∷ cyd ∷ []) (invitation "ada@orkai.dev" role_member ∷ []) [] []) []

accept_invitation-Accepted_example :
    Both (λ _ w'. Accepted alone.db "t1" 11 w'.db) (λ _. Unit {0}) (accept_invitation "t1" 11 alone)
accept_invitation-Accepted_example = accept_invitation-Accepted "t1" 11 alone

abbrev may : MayAccept alone.db "t1" 11 1000 (invitation "ada@orkai.dev" role_member) ada
may = record { found = refl; in_time = refl; unused = refl; account = refl; addressed = refl }

accept_invitation-demotes_example :
    count (Users.by_role 1 role_admin) (accept_invitation "t1" 11 alone).1.db.users ≡ 0
accept_invitation-demotes_example =
    accept_invitation-demotes "t1" 11 alone (invitation "ada@orkai.dev" role_member) ada refl may 1
      refl refl refl

invite_by_mail-twice_example :
    let w' = (invite_by_mail (λ s. s) (ok "t8") 1 11 "eve@orkai.dev" role_member members).1 in
    invite_by_mail (λ s. s) (ok "t9") 1 11 "eve@orkai.dev" role_member w'
    ≡ (err (message already_pending), w')
invite_by_mail-twice_example =
    invite_by_mail-twice (λ s. s) members refl "t8" "t9" 1 11 "eve@orkai.dev" role_member refl
