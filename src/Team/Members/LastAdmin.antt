-- ===== src/Team/Members/LastAdmin.antt =====
-- An organization keeps an administrator through changes of role and removals.
use orkai.Prelude.{
  ℕ, String, ◌≡◌, ◌≤◌, refl, sym, ◌∙◌, true, false, some, ◌&&◌, str_eq, arith, find?, count,
  update_where, inl, inr, Bool-cases,
}
use orkai.Result.{Result, ok, err}
use orkai.Exec.Triple.{Both, Triple-weaken}
use orkai.Model.Accounts.{User, role_admin, role_member}
use orkai.World.{Db, World}
use orkai.Store.Users as Users
use orkai.Team.Members.{is_known, update_member_role, remove_member}
use orkai.Team.Members.Counts.{
  count-update_where, count-update_where-stays, count-update_where-unfit,
}
use orkai.Team.Members.Outcomes.{Allowed, RoleSet, update_member_role-On}
use orkai.Team.Members.Removal.{SameAccounts, Removable, Removed, remove_member-On}

-- The organization has an administrator.
abbrev pub HasAdmin : ℕ → Db → Type 0
HasAdmin org_id db = 1 ≤ count (Users.by_role org_id role_admin) db.users

-- `id` is the primary key of the table of users.
abbrev pub OneRow : ℕ → Db → Type 0
OneRow user_id db = count (Users.by_id user_id) db.users ≤ 1

admin_of :
    (org_id : ℕ) (u : User)
    → Users.by_role org_id role_admin u ≡ true
    → (u.org_id ≡ org_id) × (str_eq u.role role_admin ≡ true)
admin_of org_id u h = ground arith

stays_admin :
    (org_id : ℕ) (role : String) (u : User)
    → str_eq role role_admin ≡ true
    → Users.by_role org_id role_admin u ≡ true
    → Users.by_role org_id role_admin (Users.set_role role u) ≡ true
stays_admin org_id role u r h = ground arith

is_demotion :
    (old role : String)
    → str_eq old role_admin ≡ true
    → is_known role ≡ true
    → str_eq role role_admin ≡ false
    → (str_eq old role_admin && str_eq role role_member) ≡ true
is_demotion old role h k r = ground arith

module _ (before : Db) (user_id : ℕ) (one : OneRow user_id before) (o : ℕ) (f : User → User) where
  -- Two administrators are enough for one to lose the role.
  spare :
      2 ≤ count (Users.by_role o role_admin) before.users
      → 1 ≤ count (Users.by_role o role_admin) (update_where (Users.by_id user_id) f before.users)
  spare two = omega (
    arith,
    one,
    two,
    count-update_where (Users.by_role o role_admin) (Users.by_id user_id) f before.users,
  )

  -- The change of a user who is not an administrator of the organization is harmless.
  other :
      (u : User)
      → find? (Users.by_id user_id) before.users ≡ some u
      → Users.by_role o role_admin u ≡ false
      → HasAdmin o before
      → 1 ≤ count (Users.by_role o role_admin) (update_where (Users.by_id user_id) f before.users)
  other u found not_admin has = omega (
    arith,
    has,
    count-update_where-unfit (Users.by_role o role_admin) (Users.by_id user_id) f before.users u
        found one not_admin,
  )

module _ (before : Db) (org_id user_id o : ℕ) (one : OneRow user_id before)
    (has : HasAdmin o before) where
  role_change-has :
      (role : String)
      → Allowed before org_id user_id role
      → 1
        ≤ count
            (Users.by_role o role_admin)
            (update_where (Users.by_id user_id) (Users.set_role role) before.users)
  role_change-has role a = elim (Bool-cases (Users.by_role o role_admin a.user)) [
    | inr h ↦ other before user_id one o _ a.user a.found h has
    | inl h ↦ elim (Bool-cases (str_eq role role_admin)) [
      | inl r ↦ omega (
        arith,
        has,
        count-update_where-stays (Users.by_role o role_admin) (Users.by_id user_id)
            (Users.set_role role) before.users (λ u _ k. stays_admin o role u r k),
      )
      | inr r ↦ spare before user_id one o _ (
          rw (sym (admin_of o a.user h).0 ∙ a.of_org)
            (a.others (is_demotion _ role (admin_of o a.user h).1 a.known r)))
    ]
  ]

  removal-has :
      (t : ℕ)
      → Removable before org_id user_id
      → 1
        ≤ count
            (Users.by_role o role_admin)
            (update_where (Users.by_id user_id) (Users.soft_delete t) before.users)
  removal-has t a = elim (Bool-cases (Users.by_role o role_admin a.user)) [
    | inr h ↦ other before user_id one o _ a.user a.found h has
    | inl h ↦
        spare before user_id one o _
          (rw (sym (admin_of o a.user h).0 ∙ a.of_org) (a.others (admin_of o a.user h).1))
  ]

  role_change-Both :
      (role : String) (r : Result (Unit {0})) (w : World)
      → Both
          (λ _ w. RoleSet before user_id role w.db × Allowed before org_id user_id role)
          (λ w. w.db ≡ before)
          (r, w)
      → HasAdmin o w.db
  role_change-Both role (ok _) w h = rw h.0.users (role_change-has role h.1)
  role_change-Both role (err e) w h = rw h has

  removal-Both :
      (r : Result (Unit {0})) (w : World)
      → Both
          (λ _ w. Removed before user_id w.db × Removable before org_id user_id)
          (λ w. SameAccounts before w.db)
          (r, w)
      → HasAdmin o w.db
  removal-Both (ok _) w h = rw h.0.users (removal-has h.0.time h.1)
  removal-Both (err e) w h = rw h.users has

module _ (org_id user_id o : ℕ) (w : World) (one : OneRow user_id w.db)
    (has : HasAdmin o w.db) where
  -- Whichever round trips fail, an organization that has an administrator has one after a request
  -- to change a role, if the changed id is the key of at most one user. The request may come from
  -- any organization.
  pub update_member_role-HasAdmin :
      (role : String) → HasAdmin o (update_member_role org_id user_id role w).1.db
  update_member_role-HasAdmin role =
      let (r, w') = update_member_role org_id user_id role w in
      role_change-Both w.db org_id user_id o one has role r w'
        ((update_member_role-On w.db org_id user_id role).at w refl)

  -- Whichever round trips fail, an organization that has an administrator has one after a request
  -- to remove a member, if the removed id is the key of at most one user. The request may come from
  -- any organization.
  pub remove_member-HasAdmin : HasAdmin o (remove_member org_id user_id w).1.db
  remove_member-HasAdmin =
      let (r, w') = remove_member org_id user_id w in
      removal-Both w.db org_id user_id o one has r w'
        ((remove_member-On w.db org_id user_id).at w (record { users = refl; keys = refl }))

-- A change of role that succeeds gives the user the role, raises the user's token version and
-- leaves the user no live API key; one that fails leaves the database as it was.
pub update_member_role-atomic :
    (org_id user_id : ℕ) (role : String) (w : World)
    → Both
        (λ _ w'. RoleSet w.db user_id role w'.db)
        (λ w'. w'.db ≡ w.db)
        (update_member_role org_id user_id role w)
update_member_role-atomic org_id user_id role w =
    (Triple-weaken _ (λ w h. h) (λ a w h. h.0) (λ w h. h)
        (update_member_role-On w.db org_id user_id role)).at
      w refl

-- A removal that succeeds soft-deletes the user, raises the token version and leaves the user no
-- live API key; one that fails leaves the users and the keys as they were.
pub remove_member-atomic :
    (org_id user_id : ℕ) (w : World)
    → Both
        (λ _ w'. Removed w.db user_id w'.db)
        (λ w'. SameAccounts w.db w'.db)
        (remove_member org_id user_id w)
remove_member-atomic org_id user_id w =
    (Triple-weaken _ (λ w h. h) (λ a w h. h.0) (λ w h. h) (remove_member-On w.db org_id user_id)).at
      w (record { users = refl; keys = refl })
