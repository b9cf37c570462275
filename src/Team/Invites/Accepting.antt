-- ===== src/Team/Invites/Accepting.antt =====
-- Who can accept an invitation, and what it does to the account.
use orkai.Prelude.{
  ℕ, String, ◌≡◌, refl, ap, Bool, true, false, some, List, [], arith, not, ◌==◌, ltb, str_eq, find?,
  filter, count, update_where, is_some, find?-sound, ==_refl, ◌∷◌, ◌++◌,
}
use orkai.Result.{ok}
use orkai.Exec.{◌>>=◌}
use orkai.Exec.Triple.{
  Both, Triple, Triple-view, Triple-throw_if, Triple-bind, Triple-weaken, Triple-or_else,
  Triple-fact,
}
use orkai.Model.Accounts.{User, Invitation, role_admin}
use orkai.World.{Db, World, request, notify}
use orkai.World.Atomic.{On}
use orkai.Store.Atomic.{Same, exec-On, fetch-Same, get_user-Same}
use orkai.Store.Users as Users
use orkai.Store.Accounts.Invitations as Invitations
use orkai.Team.Members.Counts.{count-update_where-loses}
use orkai.Team.Invites.{accept_invitation, cancel_invitation}

-- `user` may accept `inv`, which `token` names, at time `now`.
pub record MayAccept (db : Db) (token : String) (user_id now : ℕ) (inv : Invitation) (user : User)
    : Type 0 where
  pub found : find? (λ i. str_eq i.token token) db.invitations ≡ some inv
  pub in_time : ltb inv.expires_at now ≡ false
  pub unused : is_some inv.accepted_at ≡ false
  pub account : find? (Users.by_id user_id) db.users ≡ some user
  pub addressed : str_eq user.email inv.email ≡ true

-- What an accepted invitation leaves.
pub record Accepted (before : Db) (token : String) (user_id : ℕ) (db : Db) : Type 0 where
  pub time : ℕ
  pub inv : Invitation
  pub user : User
  pub may : MayAccept before token user_id time inv user
  pub users :
      db.users
      ≡ update_where
          (Users.by_id user.id)
          (λ _. record user { org_id = inv.org_id; role = inv.role })
          before.users
  pub invitations :
      db.invitations
      ≡ update_where
          (λ i. i.id == inv.id)
          (λ _. record inv { accepted_at = some time })
          before.invitations

not-false : (b : Bool) → not b ≡ false → b ≡ true
not-false b h = ground arith

module _ (db0 : Db) (token : String) (user_id : ℕ) where
  accept_invitation-On :
      Triple
        (On (Same db0))
        (accept_invitation token user_id)
        (λ _. On (Accepted db0 token user_id))
        (λ _. Unit {0})
  unfolding accept_invitation Invitations.get_by_token Users.update Invitations.update
  accept_invitation-On =
      Triple-bind _ _
        (Triple-or_else _ _ (
          Triple-weaken _ (λ w h. h) (λ a w h. h) (λ w h. tt)
            (fetch-Same db0 request (λ db. find? (λ inv. str_eq inv.token token) db.invitations))))
        (λ inv. Triple-fact _ (λ found.
          Triple-bind _ _
            (Triple-weaken _ (λ w h. h) (λ t w h. h.0) (λ w h. h) (Triple-view (λ w. w.now)))
            (λ t. Triple-bind _ _ (Triple-throw_if (ltb inv.expires_at t) _ (λ w h. tt)) (λ _.
              Triple-fact _ (λ in_time.
                Triple-bind _ _ (Triple-throw_if (is_some inv.accepted_at) _ (λ w h. tt)) (λ _.
                  Triple-fact _ (λ unused.
                    Triple-bind _ _
                      (Triple-or_else _ _ (
                        Triple-weaken _ (λ w h. h) (λ a w h. h) (λ w h. tt)
                          (get_user-Same db0 request user_id)))
                      (λ user. Triple-fact _ (λ account.
                        Triple-bind _ _
                          (Triple-throw_if (not (str_eq user.email inv.email)) _ (λ w h. tt))
                          (λ _. Triple-fact _ (λ addressed.
                            let moved = record user { org_id = inv.org_id; role = inv.role } in
                            let used = record inv { accepted_at = some t } in
                            let Moved : Db → Type 0 = λ db.
                              (db.users ≡ update_where (Users.by_id user.id) (λ _. moved) db0.users)
                              × (db.invitations ≡ db0.invitations) in
                            Triple-bind _ _
                              (Triple-weaken _ (λ w h. h) (λ a w h. h) (λ w h. tt)
                                (exec-On (Same db0) request Moved
                                  (Users.on_users (update_where (Users.by_id user.id) (λ _. moved)))
                                  (λ db h. (
                                    ap
                                        (λ (d : Db).
                                          update_where (Users.by_id user.id) (λ _. moved) d.users)
                                        h,
                                    ap (λ (d : Db). d.invitations) h,
                                  ))))
                              (λ _.
                                Triple-weaken _ (λ w h. h) (λ a w h. h) (λ w h. tt)
                                  (exec-On Moved request (Accepted db0 token user_id)
                                    (λ db. record db {
                                      invitations =
                                          update_where (λ i. i.id == inv.id) (λ _. used)
                                            db.invitations;
                                    })
                                    (λ db h. record {
                                      time = t;
                                      inv = inv;
                                      user = user;
                                      may = record {
                                        found = found;
                                        in_time = in_time;
                                        unused = unused;
                                        account = account;
                                        addressed = not-false _ addressed;
                                      };
                                      users = h.0;
                                      invitations =
                                          ap (update_where (λ i. i.id == inv.id) (λ _. used)) h.1;
                                    }))))))))))))))

-- An invitation that is accepted was found by its token, had not expired, was unused, and was sent
-- to the address of the account; the account's row then has its organization and its role, and the
-- invitation is used up. Nothing is said of a request that fails.
pub accept_invitation-Accepted :
    (token : String) (user_id : ℕ) (w : World)
    → Both
        (λ _ w'. Accepted w.db token user_id w'.db)
        (λ _. Unit {0})
        (accept_invitation token user_id w)
accept_invitation-Accepted token user_id w = (accept_invitation-On w.db token user_id).at w refl

not_admin :
    (org_id : ℕ) (u : User) (role : String)
    → str_eq role role_admin ≡ false
    → Users.by_role org_id role_admin (record u { role = role }) ≡ false
not_admin org_id u role h = ground arith

self_id : (us : List User) (id : ℕ) (u : User) → find? (Users.by_id id) us ≡ some u → u.id ≡ id
self_id us id u e = let h = find?-sound (Users.by_id id) us u e in ground arith

self_found :
    (us : List User) (id : ℕ) (u : User)
    → find? (Users.by_id id) us ≡ some u
    → find? (Users.by_id u.id) us ≡ some u
self_found us id u e = simp (self_id us id u e) e

module _ (token : String) (user_id : ℕ) (w : World) (inv : Invitation) (user : User)
    (up : w.faults ≡ []) (may : MayAccept w.db token user_id w.now inv user) where
  users-accept_invitation :
      (accept_invitation token user_id w).1.db.users
      ≡ update_where
          (Users.by_id user.id)
          (λ _. record user { org_id = inv.org_id; role = inv.role })
          w.db.users
  unfolding accept_invitation Invitations.get_by_token Users.get_by_id Users.update
      Invitations.update ◌>>=◌
  users-accept_invitation =
      rw (up, may.found, may.in_time, may.unused, may.account, may.addressed) refl

  -- With the database up, the only administrator of an organization who may accept an invitation
  -- with another role, and does, leaves the organization without an administrator: the guard of
  -- `UpdateMemberRole` and `RemoveMember` is not there.
  pub accept_invitation-demotes :
      (org_id : ℕ)
      → Users.by_role org_id role_admin user ≡ true
      → str_eq inv.role role_admin ≡ false
      → count (Users.by_role org_id role_admin) w.db.users ≡ 1
      → count (Users.by_role org_id role_admin) (accept_invitation token user_id w).1.db.users ≡ 0
  accept_invitation-demotes org_id admin other last = rw users-accept_invitation (
      omega (
        arith,
        last,
        count-update_where-loses (Users.by_role org_id role_admin) (Users.by_id user.id)
            (λ _. record user { org_id = inv.org_id; role = inv.role })
            (λ _. not_admin org_id (record user { org_id = inv.org_id }) inv.role other) w.db.users
            user (self_found w.db.users user_id user may.account) admin,
      ))

module _ (w : World) (org_id inv_id : ℕ) (up : w.faults ≡ []) where
  -- An invitation of the organization is deleted, and the organization is told.
  cancel_invitation-own :
      (inv : Invitation)
      → find? (λ i. i.id == inv_id) w.db.invitations ≡ some inv
      → inv.org_id ≡ org_id
      → cancel_invitation org_id inv_id w ≡ (
        ok tt,
        record w {
          db = record w.db { invitations = filter (λ i. not (i.id == inv_id)) w.db.invitations };
          sent =
              w.sent
              ++ record { org_id = org_id; event = "invitation_cancelled"; subject = inv.email }
                ∷ [];
        },
      )
  unfolding cancel_invitation Invitations.get_by_id Invitations.delete notify ◌>>=◌
  cancel_invitation-own inv found of_org = rw (up, found, of_org, ==_refl org_id) refl
