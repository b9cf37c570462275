-- ===== src/Store/Accounts/Teams.antt =====
-- apps/api/internal/store/pg/team_store.go and team_member_store.go
use orkai.Prelude.{
  ℕ, suc, Bool, some, List, [], ◌∷◌, ◌++◌, map, ◌&&◌, not, ◌==◌, find?, filter, count, any,
  update_where, if◌then◌else◌,
}
use orkai.Exec.{Exec, view, ◌>>=◌, ◌>>◌}
use orkai.Model.Accounts.{Team, TeamMember}
use orkai.World.{Db, World, Context, round_trip, on_db}
use orkai.Store.Query.{is_live, fetch, select, exec}

abbrev pub by_id : ℕ → Team → Bool
by_id id t = (t.id == id) && is_live t.deleted_at

unfoldable pub get_by_id : Context → ℕ → Exec World Team
unfolding fetch
get_by_id c id = fetch c (λ db. find? (by_id id) db.teams)

abbrev pub insert_team : Team → Db → Db
insert_team t db = record db {
  teams = db.teams ++ record t { id = db.next_id } ∷ [];
  next_id = suc db.next_id;
}

unfoldable pub create : Context → Team → Exec World Team
unfolding round_trip on_db ◌>>=◌
create c team = do
  round_trip c
  id ← view (λ w. w.db.next_id)
  on_db (insert_team team)
  view (λ w. record team { id = id })

unfoldable pub delete : Context → ℕ → Exec World (Unit {0})
unfolding exec
delete c id = do
  now ← view (λ w. w.now)
  exec c (λ db. record db {
    teams = update_where (by_id id) (λ t. record t { deleted_at = some now }) db.teams;
  })

unfoldable pub count_projects : Context → ℕ → Exec World ℕ
unfolding select
count_projects c team_id =
    select c (λ db. count (λ p. (p.team_id == team_id) && is_live p.deleted_at) db.projects)

abbrev pub is_member : ℕ → ℕ → TeamMember → Bool
is_member team_id user_id m = (m.team_id == team_id) && (m.user_id == user_id)

-- `ON CONFLICT (team_id, user_id) DO NOTHING`
abbrev pub insert_member : ℕ → ℕ → List TeamMember → List TeamMember
insert_member team_id user_id ms =
    if any (is_member team_id user_id) ms
    then ms
    else ms ++ record { team_id = team_id; user_id = user_id } ∷ []

unfoldable pub add_member : Context → ℕ → ℕ → Exec World (Unit {0})
unfolding exec
add_member c team_id user_id =
    exec c (λ db. record db { team_members = insert_member team_id user_id db.team_members })

unfoldable pub remove_member : Context → ℕ → ℕ → Exec World (Unit {0})
unfolding exec
remove_member c team_id user_id = exec c (λ db. record db {
  team_members = filter (λ m. not (is_member team_id user_id m)) db.team_members;
})

unfoldable pub list_by_user : Context → ℕ → Exec World (List TeamMember)
unfolding select
list_by_user c user_id = select c (λ db. filter (λ m. m.user_id == user_id) db.team_members)

abbrev pub team_ids_of : ℕ → List TeamMember → List ℕ
team_ids_of user_id ms = map (λ (m : TeamMember). m.team_id) (filter (λ m. m.user_id == user_id) ms)

unfoldable pub list_team_ids_by_user : Context → ℕ → Exec World (List ℕ)
unfolding select
list_team_ids_by_user c user_id = select c (λ db. team_ids_of user_id db.team_members)
