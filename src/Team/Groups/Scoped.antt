-- ===== src/Team/Groups/Scoped.antt =====
-- Teams stay within their organization: what each operation needs, and what an error leaves.
use orkai.Prelude.{
  ℕ, zero, suc, ◌≤◌, List, [], ◌∷◌, ◌++◌, Bool, true, any, Bool-cases, inl, inr, count-append,
  ==_refl, ◌≡◌, refl, ap, ◌∙◌, false, some, arith, not, ◌&&◌, ◌==◌, ltb, find?, filter, count,
  update_where,
}
use orkai.Exec.Triple.{
  Both, Triple, Triple-pure, Triple-view, Triple-throw_if, Triple-bind, Triple-weaken,
  Triple-or_else, Triple-fact,
}
use orkai.Model.Accounts.{User, Team, TeamMember}
use orkai.World.{Db, World, request, notify}
use orkai.World.Atomic.{On}
use orkai.Store.Query.{is_live}
use orkai.Store.Atomic.{Same, exec-On, select-Same, get_user-Same, get_team-Same}
use orkai.Store.Users as Users
use orkai.Store.Accounts.Teams as Teams
use orkai.Team.Groups.{get_team, delete_team, add_team_member}

same_number : (m n : ℕ) → not (m == n) ≡ false → m ≡ n
same_number m n h = ground arith

none_left : (n m : ℕ) → n ≡ m → ltb 0 n ≡ false → m ≡ 0
none_left n m e h = ground arith

-- A live team of the organization.
pub record OwnTeam (db : Db) (org_id team_id : ℕ) (team : Team) : Type 0 where
  pub found : find? (Teams.by_id team_id) db.teams ≡ some team
  pub of_org : team.org_id ≡ org_id

abbrev pub projects_of : ℕ → Db → ℕ
projects_of team_id db = count (λ p. (p.team_id == team_id) && is_live p.deleted_at) db.projects

-- What a deletion leaves: the team is gone, and it had no project.
pub record TeamDeleted (before : Db) (org_id team_id : ℕ) (db : Db) : Type 0 where
  pub team : Team
  pub own : OwnTeam before org_id team_id team
  pub empty : projects_of team.id db ≡ 0
  pub time : ℕ
  pub teams :
      db.teams
      ≡ update_where (Teams.by_id team.id) (λ t. record t { deleted_at = some time }) before.teams

abbrev pub at_least_one : ℕ → ℕ
at_least_one zero = 1
at_least_one (suc n) = suc n

-- The memberships other than that of the user in the team.
abbrev pub others_of : ℕ → ℕ → Db → List TeamMember
others_of team_id user_id db = filter (λ m. not (Teams.is_member team_id user_id m)) db.team_members

-- The user is in the team, once if not more often before, and no other membership changes.
pub record MemberAdded (before : Db) (org_id team_id user_id : ℕ) (db : Db) : Type 0 where
  pub team : Team
  pub own : OwnTeam before org_id team_id team
  pub user : User
  pub found : find? (Users.by_id user_id) before.users ≡ some user
  pub of_org : user.org_id ≡ org_id
  pub once :
      count (Teams.is_member team_id user_id) db.team_members
      ≡ at_least_one (count (Teams.is_member team_id user_id) before.team_members)
  pub others : others_of team_id user_id db ≡ others_of team_id user_id before

pub record MemberRemoved (before : Db) (org_id team_id user_id : ℕ) (db : Db) : Type 0 where
  pub team : Team
  pub own : OwnTeam before org_id team_id team
  pub members :
      db.team_members ≡ filter (λ m. not (Teams.is_member team_id user_id m)) before.team_members

module _ (team_id user_id : ℕ) where
  abbrev is_it : TeamMember → Bool
  is_it m = Teams.is_member team_id user_id m

  none_in : (ms : List TeamMember) → any is_it ms ≡ false → count is_it ms ≡ 0
  none_in [] h = refl
  none_in (m ∷ ms) h =
      let ih = none_in ms in
      elim (Bool-cases (is_it m)) [ inl e ↦ cc (rw e at h) | inr e ↦ rw (e, ih (rw e at h)) refl ]

  some_in : (ms : List TeamMember) → any is_it ms ≡ true → 1 ≤ count is_it ms
  some_in [] h = cc
  some_in (m ∷ ms) h =
      let ih = some_in ms in
      elim (Bool-cases (is_it m)) [
        | inl e ↦ rw e (omega arith)
        | inr e ↦ let more = ih (rw e at h) in rw e (omega (arith, more))
      ]

  itself : is_it (record { team_id = team_id; user_id = user_id }) ≡ true
  itself = let t = ==_refl team_id in let u = ==_refl user_id in ground arith

  kept_count : (n : ℕ) → 1 ≤ n → n ≡ at_least_one n
  kept_count zero h = omega (arith, h)
  kept_count (suc n) h = refl

  insert-once :
      (ms : List TeamMember)
      → count is_it (Teams.insert_member team_id user_id ms) ≡ at_least_one (count is_it ms)
  insert-once ms = elim (Bool-cases (any is_it ms)) [
    | inl e ↦ rw e (kept_count (count is_it ms) (some_in ms e))
    | inr e ↦
        rw
          (
            e,
            count-append is_it ms (record { team_id = team_id; user_id = user_id } ∷ []),
            none_in ms e,
            itself,
          )
          refl
  ]

  filter-append_out :
      (ms : List TeamMember) (m : TeamMember)
      → is_it m ≡ true
      → filter (λ m. not (is_it m)) (ms ++ m ∷ []) ≡ filter (λ m. not (is_it m)) ms
  filter-append_out [] m h = rw h refl
  filter-append_out (x ∷ ms) m h = rw (filter-append_out ms m h) refl

  insert-others :
      (ms : List TeamMember)
      → filter (λ m. not (is_it m)) (Teams.insert_member team_id user_id ms)
        ≡ filter (λ m. not (is_it m)) ms
  insert-others ms = elim (Bool-cases (any is_it ms)) [
    | inl e ↦ rw e refl
    | inr e ↦ rw e (filter-append_out ms _ itself)
  ]

module _ (db0 : Db) (org_id team_id : ℕ) where
  pub get_team-On :
      Triple
        (On (Same db0))
        (get_team org_id team_id)
        (λ t w. On (Same db0) w × OwnTeam db0 org_id team_id t)
        (On (Same db0))
  unfolding get_team
  get_team-On = Triple-bind _ _ (Triple-or_else _ _ (get_team-Same db0 request team_id)) (λ t.
      Triple-fact _ (λ found.
        Triple-bind _ _ (Triple-throw_if (not (t.org_id == org_id)) _ (λ w h. h)) (λ _.
          Triple-fact _ (λ same.
            Triple-pure t (λ w h. (h, record { found = found; of_org = same_number _ _ same }))))))

  delete_team-On :
      Triple
        (On (Same db0))
        (delete_team org_id team_id)
        (λ _. On (TeamDeleted db0 org_id team_id))
        (On (Same db0))
  unfolding delete_team Teams.count_projects Teams.delete notify
  delete_team-On = Triple-bind _ _ get_team-On (λ team. Triple-fact _ (λ own.
      Triple-bind _ _ (select-Same db0 request (projects_of team.id)) (λ n.
        Triple-fact _ (λ counted. Triple-bind _ _ (Triple-throw_if (ltb 0 n) _ (λ w h. h)) (λ _.
          Triple-fact _ (λ empty.
            Triple-bind _ _
              (Triple-bind _ _ (Triple-view (λ w. w.now)) (λ t.
                Triple-weaken _ (λ w h. h.0) (λ a w h. h) (λ w h. h)
                  (exec-On (Same db0) request (TeamDeleted db0 org_id team_id)
                    (λ db. record db {
                      teams =
                          update_where (Teams.by_id team.id) (λ x. record x { deleted_at = some t })
                            db.teams;
                    })
                    (λ db h. record {
                      team = team;
                      own = own;
                      empty = ap (projects_of team.id) h ∙ none_left n _ counted empty;
                      time = t;
                      teams =
                          ap
                            (λ (d : Db).
                              update_where (Teams.by_id team.id)
                                (λ x. record x { deleted_at = some t }) d.teams)
                            h;
                    }))))
              (λ _. record { at = λ w h. h })))))))

  add_team_member-On :
      (user_id : ℕ)
      → Triple
          (On (Same db0))
          (add_team_member org_id team_id user_id)
          (λ _. On (MemberAdded db0 org_id team_id user_id))
          (On (Same db0))
  unfolding add_team_member Teams.add_member
  add_team_member-On user_id = Triple-bind _ _ get_team-On (λ team. Triple-fact _ (λ own.
      Triple-bind _ _ (Triple-or_else _ _ (get_user-Same db0 request user_id)) (λ user.
        Triple-fact _ (λ found.
          Triple-bind _ _ (Triple-throw_if (not (user.org_id == org_id)) _ (λ w h. h)) (λ _.
            Triple-fact _ (λ of_org.
              exec-On (Same db0) request (MemberAdded db0 org_id team_id user_id)
                (λ db. record db {
                  team_members = Teams.insert_member team_id user_id db.team_members;
                })
                (λ db h. record {
                  team = team;
                  own = own;
                  user = user;
                  found = found;
                  of_org = same_number _ _ of_org;
                  once = rw h (insert-once team_id user_id db0.team_members);
                  others = rw h (insert-others team_id user_id db0.team_members);
                })))))))

module _ (org_id team_id : ℕ) (w : World) where
  -- A team is deleted only by its own organization and only without live projects; on an error the
  -- database is as it was.
  pub delete_team-Both :
      Both
        (λ _ w'. TeamDeleted w.db org_id team_id w'.db)
        (λ w'. w'.db ≡ w.db)
        (delete_team org_id team_id w)
  delete_team-Both = (delete_team-On w.db org_id team_id).at w refl

  -- Only a user of the organization joins a team of the organization. Where the user was no member of
  -- the team, one membership is added; where it was, the memberships of the user in the team are as
  -- many as before; and the other memberships are as they were. On an error the database is as it was.
  pub add_team_member-Both :
      (user_id : ℕ)
      → Both
          (λ _ w'. MemberAdded w.db org_id team_id user_id w'.db)
          (λ w'. w'.db ≡ w.db)
          (add_team_member org_id team_id user_id w)
  add_team_member-Both user_id = (add_team_member-On w.db org_id team_id user_id).at w refl
