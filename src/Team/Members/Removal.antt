-- ===== src/Team/Members/Removal.antt =====
-- What the removal of a member leaves behind.
use orkai.Prelude.{
  ◌+◌, ℕ, ◌≡◌, ◌≤◌, ap, true, some, List, [], ◌∷◌, not, ◌==◌, filter, str_eq, find?, count,
  update_where,
}
use orkai.Exec.Triple.{
  Triple, Triple-pure, Triple-view, Triple-throw_if, Triple-bind, Triple-weaken, Triple-or_else,
  Triple-fact, Triple-ignore,
}
use orkai.Model.Accounts.{User, TeamMember, role_admin}
use orkai.World.{Db, request, notify}
use orkai.World.Atomic.{On, tx-On}
use orkai.Store.Atomic.{exec-On, select-On}
use orkai.Store.Users as Users
use orkai.Store.Accounts.Teams as Teams
use orkai.Team.Members.{remove_memberships, delete_user, remove_member}
use orkai.Team.Members.Outcomes.{NoKeys, revoke-On, keep_admin-On, get_user-On, same_number}

-- The accounts are as they were in `db0`: its users and their keys.
pub record SameAccounts (db0 db : Db) : Type 0 where
  pub users : db.users ≡ db0.users
  pub keys : db.api_keys ≡ db0.api_keys

-- The user who is removed, and the administrators that the guard counted.
pub record Removable (db : Db) (org_id user_id : ℕ) : Type 0 where
  pub user : User
  pub found : find? (Users.by_id user_id) db.users ≡ some user
  pub of_org : user.org_id ≡ org_id
  pub others :
      str_eq user.role role_admin ≡ true → 2 ≤ count (Users.by_role org_id role_admin) db.users

-- What a successful removal leaves.
pub record Removed (before : Db) (user_id : ℕ) (db : Db) : Type 0 where
  pub time : ℕ
  pub users :
      db.users
      ≡ update_where
          (Users.by_id user_id)
          (λ u. record u { token_version = u.token_version + 1; deleted_at = some time })
          before.users
  pub keys : NoKeys user_id db

module _ (db0 : Db) (org_id user_id : ℕ) where
  remove_memberships-On :
      (ms : List TeamMember)
      → Triple
          (On (SameAccounts db0))
          (remove_memberships user_id ms)
          (λ _. On (SameAccounts db0))
          (On (SameAccounts db0))
  unfolding remove_memberships Teams.remove_member
  remove_memberships-On [] = Triple-pure _ (λ w h. h)
  remove_memberships-On (m ∷ ms) =
      Triple-bind _ _
        (Triple-ignore _ (
          exec-On (SameAccounts db0) request (SameAccounts db0)
            (λ db. record db {
              team_members =
                  filter (λ x. not (Teams.is_member m.team_id user_id x)) db.team_members;
            })
            (λ db h. record { users = h.users; keys = h.keys })))
        (λ _. remove_memberships-On ms)

  memberships-On :
      Triple
        (On (SameAccounts db0))
        (Teams.list_by_user request user_id)
        (λ _. On (SameAccounts db0))
        (On (SameAccounts db0))
  unfolding Teams.list_by_user
  memberships-On =
      Triple-weaken _ (λ w h. h) (λ ms w h. h.0) (λ w h. h)
        (select-On (SameAccounts db0) request
          (λ db. filter (λ m. m.user_id == user_id) db.team_members))

  delete_user-On :
      Triple
        (On (SameAccounts db0))
        (delete_user user_id)
        (λ _. On (Removed db0 user_id))
        (λ _. Unit {0})
  unfolding delete_user Users.remove_from_org
  delete_user-On =
      let gone : ℕ → List User → List User =
        λ t us. update_where (Users.by_id user_id) (Users.soft_delete t) us in
      let Gone : List User → Type 0 = λ us. (t : ℕ) × (us ≡ gone t db0.users) in
      Triple-bind _ _
        (Triple-bind _ _ (Triple-view (λ w. w.now)) (λ t.
          Triple-weaken _ (λ w h. h.0) (λ a w h. h) (λ w e. tt)
            (exec-On (SameAccounts db0) request (λ db. Gone db.users) (Users.on_users (gone t))
              (λ db h. (t, ap (gone t) h.users)))))
        (λ _.
          Triple-weaken _ (λ w h. h) (λ a w h. record { time = h.0.0; users = h.0.1; keys = h.1 })
            (λ w e. e) (revoke-On Gone user_id))

  pub remove_member-On :
      Triple
        (On (SameAccounts db0))
        (remove_member org_id user_id)
        (λ _ w. On (Removed db0 user_id) w × Removable db0 org_id user_id)
        (On (SameAccounts db0))
  unfolding remove_member notify
  remove_member-On =
      let P = SameAccounts db0 in
      let same : (db : Db) → P db → db.users ≡ db0.users = λ db h. h.users in
      Triple-bind _ _ (Triple-or_else _ _ (get_user-On P db0.users same org_id user_id)) (λ user.
        Triple-fact _ (λ found.
          Triple-bind _ _ (Triple-throw_if (not (user.org_id == org_id)) _ (λ w h. h)) (λ _.
            Triple-fact _ (λ of_org.
              Triple-bind _ _ (keep_admin-On P db0.users same org_id _ _) (λ _.
                Triple-fact _ (λ others. Triple-bind _ _ memberships-On (λ ms.
                  Triple-bind _ _ (remove_memberships-On ms) (λ _.
                    Triple-bind _ _ (tx-On P (λ _. Removed db0 user_id) _ delete_user-On) (λ _.
                      record {
                        at = λ w h. (
                          h,
                          record {
                            user = user;
                            found = found;
                            of_org = same_number _ _ of_org;
                            others = others;
                          },
                        );
                      })))))))))
