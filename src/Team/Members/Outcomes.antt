-- ===== src/Team/Members/Outcomes.antt =====
-- What a change of role and a removal leave behind.
use orkai.Prelude.{
  ◌+◌, ℕ, String, ◌≡◌, ◌≤◌, refl, sym, ap, ◌∙◌, Bool, true, false, some, List, [], ◌∷◌, arith, ◌&&◌,
  not, ◌==◌, leb, str_eq, find?, count, update_where, Bool-cases, inl, inr,
}
use orkai.Exec.Triple.{
  Triple, Triple-pure, Triple-view, Triple-throw_if, Triple-bind, Triple-weaken, Triple-or_else,
  Triple-fact,
}
use orkai.Model.Accounts.{User, ApiKey, role_admin, role_member}
use orkai.World.{Db, request}
use orkai.World.Atomic.{On, tx-On}
use orkai.Store.Atomic.{Same, exec-On, fetch-On, select-On}
use orkai.Store.Users as Users
use orkai.Store.Accounts.ApiKeys as ApiKeys
use orkai.Store.Accounts.ApiKeys.{of_user, revoke}
use orkai.Team.Members.{is_known, keep_admin, write_role, update_member_role}

-- The user whose role changes, and the administrators that the guard counted.
pub record Allowed (db : Db) (org_id user_id : ℕ) (role : String) : Type 0 where
  pub user : User
  pub found : find? (Users.by_id user_id) db.users ≡ some user
  pub of_org : user.org_id ≡ org_id
  pub known : is_known role ≡ true
  pub others :
      (str_eq user.role role_admin && str_eq role role_member) ≡ true
      → 2 ≤ count (Users.by_role org_id role_admin) db.users

-- No live key of the user is left.
abbrev pub NoKeys : ℕ → Db → Type 0
NoKeys user_id db = count (of_user user_id) db.api_keys ≡ 0

revoke-dead : (user_id now : ℕ) (k : ApiKey) → of_user user_id (revoke now k) ≡ false
revoke-dead user_id now k = ground arith

revoked-none :
    (user_id now : ℕ) (ks : List ApiKey)
    → count (of_user user_id) (update_where (of_user user_id) (revoke now) ks) ≡ 0
revoked-none user_id now [] = refl
revoked-none user_id now (k ∷ ks) =
    let ih = revoked-none user_id now ks in
    elim (Bool-cases (of_user user_id k)) [
      | inl h ↦ rw (h, revoke-dead user_id now k) (omega (arith, ih))
      | inr h ↦ rw (h, h) (omega (arith, ih))
    ]

-- What a successful change of role leaves of `db`.
pub record RoleSet (before : Db) (user_id : ℕ) (role : String) (db : Db) : Type 0 where
  pub users :
      db.users
      ≡ update_where
          (Users.by_id user_id)
          (λ u. record u { role = role; token_version = u.token_version + 1 })
          before.users
  pub keys : NoKeys user_id db

two_admins : (n m : ℕ) → n ≡ m → leb n 1 ≡ false → 2 ≤ m
two_admins n m e h = ground arith

pub same_number : (m n : ℕ) → not (m == n) ≡ false → m ≡ n
same_number m n h = ground arith

pub not-false : (b : Bool) → not b ≡ false → b ≡ true
not-false b h = ground arith

pub revoke-On :
    (Q : List User → Type 0) (user_id : ℕ)
    → Triple
        (On (λ db. Q db.users))
        (ApiKeys.revoke_all_for_user request user_id)
        (λ _. On (λ db. Q db.users × NoKeys user_id db))
        (λ _. Unit {0})
unfolding ApiKeys.revoke_all_for_user
revoke-On Q user_id = Triple-bind _ _ (Triple-view (λ w. w.now)) (λ now.
    Triple-weaken _ (λ w h. h.0) (λ a w h. h) (λ w e. tt)
      (exec-On (λ db. Q db.users) request (λ db. Q db.users × NoKeys user_id db)
        (ApiKeys.on_keys (update_where (of_user user_id) (revoke now)))
        (λ db h. (h, revoked-none user_id now db.api_keys))))

-- The guard counts the administrators among the users that its caller knows.
module _ (P : Db → Type 0) (us : List User) (same : (db : Db) → P db → db.users ≡ us)
    (org_id : ℕ) where
  pub keep_admin-On :
      (b : Bool) (text : String)
      → Triple
          (On P)
          (keep_admin b org_id text)
          (λ _ w. On P w × (b ≡ true → 2 ≤ count (Users.by_role org_id role_admin) us))
          (On P)
  unfolding keep_admin Users.count_by_role
  keep_admin-On true text =
      Triple-bind _ _
        (Triple-weaken _ (λ w h. h)
          (λ n w h. (h.0, h.1 ∙ ap (count (Users.by_role org_id role_admin)) (same w.db h.0)))
          (λ w h. h) (select-On P request (λ db. count (Users.by_role org_id role_admin) db.users)))
        (λ n. Triple-fact _ (λ counted.
          Triple-weaken _ (λ w h. h) (λ a w h. (h.0, λ _. two_admins n _ counted h.1)) (λ w h. h)
            (Triple-throw_if (leb n 1) _ (λ w h. h))))
  keep_admin-On false text = Triple-pure _ (λ w h. (h, λ e. absurd cc))

  pub get_user-On :
      (user_id : ℕ)
      → Triple
          (On P)
          (Users.get_by_id request user_id)
          (λ u w. On P w × (find? (Users.by_id user_id) us ≡ some u))
          (On P)
  unfolding Users.get_by_id
  get_user-On user_id =
      Triple-weaken _ (λ w h. h)
        (λ u w h. (h.0, sym (ap (find? (Users.by_id user_id)) (same w.db h.0)) ∙ h.1)) (λ w h. h)
        (fetch-On P request (λ db. find? (Users.by_id user_id) db.users))

module _ (db0 : Db) (org_id user_id : ℕ) (role : String) where
  write_role-On :
      Triple
        (On (Same db0))
        (write_role user_id role)
        (λ _. On (RoleSet db0 user_id role))
        (λ _. Unit {0})
  unfolding write_role Users.update_role
  write_role-On =
      let Q : List User → Type 0 =
        λ us. us ≡ update_where (Users.by_id user_id) (Users.set_role role) db0.users in
      Triple-bind _ _
        (Triple-weaken _ (λ w h. h) (λ a w h. h) (λ w e. tt)
          (exec-On (Same db0) request (λ db. Q db.users)
            (Users.on_users (update_where (Users.by_id user_id) (Users.set_role role)))
            (λ db h.
              ap (λ (d : Db). update_where (Users.by_id user_id) (Users.set_role role) d.users) h)))
        (λ _.
          Triple-weaken _ (λ w h. h) (λ a w h. record { users = h.0; keys = h.1 }) (λ w e. e)
            (revoke-On Q user_id))

  -- A change of role either happens whole, with the keys revoked and the token version raised, to a
  -- user of the organization who may lose the role, or leaves the database as it was.
  pub update_member_role-On :
      Triple
        (On (Same db0))
        (update_member_role org_id user_id role)
        (λ _ w. On (RoleSet db0 user_id role) w × Allowed db0 org_id user_id role)
        (On (Same db0))
  unfolding update_member_role
  update_member_role-On = Triple-bind _ _ (Triple-throw_if (not (is_known role)) _ (λ w h. h)) (λ _.
      Triple-fact _ (λ known.
        Triple-bind _ _
          (Triple-or_else _ _
            (get_user-On (Same db0) db0.users (λ db h. ap (λ (d : Db). d.users) h) org_id user_id))
          (λ user. Triple-fact _ (λ found.
            Triple-bind _ _ (Triple-throw_if (not (user.org_id == org_id)) _ (λ w h. h)) (λ _.
              Triple-fact _ (λ of_org.
                Triple-bind _ _
                  (keep_admin-On (Same db0) db0.users (λ db h. ap (λ (d : Db). d.users) h) org_id _
                    _)
                  (λ _. Triple-fact _ (λ others.
                    Triple-weaken _ (λ w h. h)
                      (λ a w h. (
                        h,
                        record {
                          user = user;
                          found = found;
                          of_org = same_number _ _ of_org;
                          known = not-false _ known;
                          others = others;
                        },
                      ))
                      (λ w h. h)
                      (tx-On (Same db0) (λ _. RoleSet db0 user_id role) _ write_role-On)))))))))
