-- ===== src/Access/Authz/Agreement.antt =====
-- The list of accessible projects and the check of one project agree.
use orkai.Prelude.{
  ℕ, String, ◌≡◌, ◌≤◌, refl, sym, ◌∙◌, Bool, true, false, some, List, [], ◌∷◌, map, arith, ◌&&◌,
  ◌==◌, mem_nat, find?, find?-sound, filter, count, Bool-cases, ◌⊎◌, inl, inr,
}
use orkai.Result.{ok}
use orkai.Exec.{◌>>=◌}
use orkai.Model.Accounts.{Project}
use orkai.World.{World, request}
use orkai.Store.Projects as Projects
use orkai.Store.Projects.{by_id, in_teams}
use orkai.Store.Accounts.Teams as Teams
use orkai.Access.Authz.{Scope, all, only, is_privileged, accessible_project_ids, can_access_project}

abbrev pub in_scope : ℕ → Scope → Bool
in_scope id all = true
in_scope id (only ids) = mem_nat id ids

module _ (id org_id : ℕ) (teams : List ℕ) where
  ids_of : List Project → List ℕ
  ids_of ps = map (λ (p : Project). p.id) (filter (in_teams org_id teams) ps)

  other_row :
      (p : Project) → by_id id p ≡ false → in_teams org_id teams p ≡ true → (p.id == id) ≡ false
  other_row p h k = ground arith

  no_row : (ps : List Project) → count (by_id id) ps ≡ 0 → mem_nat id (ids_of ps) ≡ false
  unfolding ids_of
  no_row [] h = refl
  no_row (p ∷ ps) h = elim (Bool-cases (by_id id p)) [
    | inl e ↦ absurd (omega (arith, rw e at h))
    | inr e ↦
        let ih = no_row ps (omega (arith, rw e at h)) in
        elim (Bool-cases (in_teams org_id teams p)) [
          | inl k ↦ rw (k, other_row p e k) ih
          | inr k ↦ rw k ih
        ]
  ]

  same_verdict :
      (q p : Project) → some q ≡ some p → in_teams org_id teams q ≡ in_teams org_id teams p
  same_verdict q p e = cc

  right_id : (p : Project) → by_id id p ≡ true → (p.id == id) ≡ true
  right_id p h = ground arith

  listed :
      (ps : List Project) (p : Project)
      → find? (by_id id) ps ≡ some p
      → count (by_id id) ps ≤ 1
      → mem_nat id (ids_of ps) ≡ in_teams org_id teams p
  unfolding ids_of
  listed [] p e one = cc
  listed (q ∷ qs) p e one = elim (Bool-cases (by_id id q)) [
    | inl h ↦
        let same = same_verdict q p (rw h at e) in
        elim (Bool-cases (in_teams org_id teams q)) [
          | inl k ↦ rw (k, right_id q h, sym same ∙ k) refl
          | inr k ↦ rw (k, no_row qs (omega (arith, rw h at one)), sym same ∙ k) refl
        ]
    | inr h ↦
        let ih = listed qs p (rw h at e) (omega (arith, rw h at one)) in
        elim (Bool-cases (in_teams org_id teams q)) [
          | inl k ↦ rw (k, other_row q h k) ih
          | inr k ↦ rw k ih
        ]
  ]

-- The scope of a caller, and the check of one project against it.
abbrev pub Agree : ℕ → ℕ → String → ℕ → Project → World → Scope → Type 0
Agree project_id user_id role org_id p w s =
    (accessible_project_ids user_id role org_id w ≡ (ok s, w))
    × (can_access_project user_id role org_id project_id w
        ≡ (ok ((p.org_id == org_id) && in_scope project_id s), w))

member_of :
    (id org_id : ℕ) (teams : List ℕ) (p : Project)
    → by_id id p ≡ true
    → (p.org_id == org_id) ≡ true
    → in_teams org_id teams p ≡ mem_nat p.team_id teams
member_of id org_id teams p h k = ground arith

module _ (user_id org_id project_id : ℕ) (role : String) (w : World) (p : Project)
    (up : w.faults ≡ []) (found : find? (by_id project_id) w.db.projects ≡ some p)
    (team : Projects.attach_team request p w ≡ (ok p, w)) where
  agree :
      (teams : List ℕ)
      → (is_privileged role ≡ true) ⊎ (is_privileged role ≡ false)
      → ((p.org_id == org_id) ≡ true) ⊎ ((p.org_id == org_id) ≡ false)
      → Teams.team_ids_of user_id w.db.team_members ≡ teams
      → count (by_id project_id) w.db.projects ≤ 1
      → (s : Scope) × Agree project_id user_id role org_id p w s
  unfolding accessible_project_ids can_access_project Projects.get_by_id Teams.list_team_ids_by_user
      Projects.list_ids_by_teams ids_of ◌>>=◌
  agree teams (inl h) (inl k) e one = (all, (rw h refl, rw (up, found, rw up at team, k, h) refl))
  agree teams (inl h) (inr k) e one = (all, (rw h refl, rw (up, found, rw up at team, k) refl))
  agree [] (inr h) (inl k) e one =
      (only [], (rw (h, up, e) refl, rw (up, found, rw up at team, k, h, e) refl))
  agree [] (inr h) (inr k) e one =
      (only [], (rw (h, up, e) refl, rw (up, found, rw up at team, k) refl))
  agree (t ∷ ts) (inr h) (inl k) e one =
      let projects = w.db.projects in
      let live = find?-sound (by_id project_id) projects p found in
      let entry =
        listed project_id org_id (t ∷ ts) projects p found one
        ∙ member_of project_id org_id (t ∷ ts) p live k in
      (
        only (ids_of project_id org_id (t ∷ ts) projects),
        (rw (h, up, e) refl, rw (up, found, rw up at team, k, h, e, entry) refl),
      )
  agree (t ∷ ts) (inr h) (inr k) e one = (
    only (ids_of project_id org_id (t ∷ ts) w.db.projects),
    (rw (h, up, e) refl, rw (up, found, rw up at team, k) refl),
  )

  -- With the database up, for a live project that is the only one with its id and whose team is
  -- there, the check of one project and the list of accessible projects agree, for administrators
  -- and members: the check allows the project exactly if it is in the caller's organization and in
  -- the scope that the list gives the caller.
  pub can_access-agrees :
      count (by_id project_id) w.db.projects ≤ 1
      → (s : Scope) × Agree project_id user_id role org_id p w s
  can_access-agrees one =
      agree (Teams.team_ids_of user_id w.db.team_members) (Bool-cases (is_privileged role))
        (Bool-cases (p.org_id == org_id)) refl one
