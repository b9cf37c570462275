-- ===== src/Store/Accounts/Invitations.antt =====
-- apps/api/internal/store/pg/invitation_store.go
use orkai.Prelude.{
  ℕ, suc, String, List, [], ◌∷◌, ◌++◌, not, ◌==◌, str_eq, find?, filter, update_where,
}
use orkai.Exec.{Exec, view, ◌>>=◌, ◌>>◌}
use orkai.Model.Accounts.{Invitation}
use orkai.World.{Db, World, Context, round_trip, on_db}
use orkai.Store.Query.{fetch, select, exec}

abbrev pub insert_invitation : Invitation → Db → Db
insert_invitation inv db = record db {
  invitations = db.invitations ++ record inv { id = db.next_id } ∷ [];
  next_id = suc db.next_id;
}

unfoldable pub create : Context → Invitation → Exec World Invitation
unfolding round_trip on_db ◌>>=◌
create c inv = do
  round_trip c
  id ← view (λ w. w.db.next_id)
  on_db (insert_invitation inv)
  view (λ w. record inv { id = id })

unfoldable pub get_by_id : Context → ℕ → Exec World Invitation
unfolding fetch
get_by_id c id = fetch c (λ db. find? (λ inv. inv.id == id) db.invitations)

unfoldable pub get_by_token : Context → String → Exec World Invitation
unfolding fetch
get_by_token c token = fetch c (λ db. find? (λ inv. str_eq inv.token token) db.invitations)

unfoldable pub list_by_org : Context → ℕ → Exec World (List Invitation)
unfolding select
list_by_org c org_id = select c (λ db. filter (λ inv. inv.org_id == org_id) db.invitations)

unfoldable pub delete : Context → ℕ → Exec World (Unit {0})
unfolding exec
delete c id =
    exec c (λ db. record db { invitations = filter (λ inv. not (inv.id == id)) db.invitations })

unfoldable pub update : Context → Invitation → Exec World (Unit {0})
unfolding exec
update c inv =
    exec c (λ db. record db {
      invitations = update_where (λ i. i.id == inv.id) (λ _. inv) db.invitations;
    })
