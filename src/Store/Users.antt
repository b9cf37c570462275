-- ===== src/Store/Users.antt =====
-- apps/api/internal/store/pg/user_store.go. A row holds the decrypted two-factor secret.
use orkai.Prelude.{
  ℕ, suc, ◌+◌, String, Bool, some, List, [], ◌∷◌, ◌++◌, ◌&&◌, ◌==◌, str_eq, find?, count, any,
  update_where, if◌then◌else◌,
}
use orkai.Result.{unique_violation}
use orkai.Exec.{Exec, throw, view, ◌>>=◌, ◌>>◌}
use orkai.Model.Accounts.{User}
use orkai.World.{Db, World, Context, round_trip, on_db}
use orkai.Store.Query.{is_live, fetch, select, exec}

abbrev pub by_id : ℕ → User → Bool
by_id id u = (u.id == id) && is_live u.deleted_at

abbrev pub by_email : String → User → Bool
by_email email u = str_eq u.email email && is_live u.deleted_at

abbrev pub by_role : ℕ → String → User → Bool
by_role org_id role u = (u.org_id == org_id) && str_eq u.role role && is_live u.deleted_at

abbrev pub on_users : (List User → List User) → Db → Db
on_users f db = record db { users = f db.users }

unfoldable pub get_by_id : Context → ℕ → Exec World User
unfolding fetch
get_by_id c id = fetch c (λ db. find? (by_id id) db.users)

unfoldable pub get_by_email : Context → String → Exec World User
unfolding fetch
get_by_email c email = fetch c (λ db. find? (by_email email) db.users)

abbrev pub insert_user : User → ℕ → Db → Db
insert_user u now db = record db {
  users = db.users ++ record u { id = db.next_id; created_at = now } ∷ [];
  next_id = suc db.next_id;
}

-- `RETURNING *` reads the new row back. The index idx_users_email_active holds one live row for an
-- email.
unfoldable pub create : Context → User → Exec World User
unfolding round_trip on_db ◌>>=◌
create c user w =
    (do
      round_trip c
      taken ← view (λ w. any (by_email user.email) w.db.users)
      if taken then throw unique_violation else do
        id ← view (λ w. w.db.next_id)
        now ← view (λ w. w.now)
        on_db (insert_user user now)
        view (λ w. record user { id = id; created_at = now }))
      w

-- `UPDATE ... WHERE id`: every column is written from the value in memory.
unfoldable pub update : Context → User → Exec World (Unit {0})
unfolding exec
update c user = exec c (on_users (update_where (by_id user.id) (λ _. user)))

unfoldable pub update_password : Context → ℕ → String → Exec World (Unit {0})
unfolding exec
update_password c user_id hash =
    exec c (on_users (update_where (by_id user_id) (λ u. record u { password_hash = hash })))

unfoldable pub update_2fa : Context → ℕ → Bool → String → Exec World (Unit {0})
unfolding exec
update_2fa c user_id enabled secret = exec c (
    on_users (
      update_where (by_id user_id)
        (λ u. record u { two_fa_enabled = enabled; two_fa_secret = secret })))

abbrev pub set_role : String → User → User
set_role role u = record u { role = role; token_version = u.token_version + 1 }

unfoldable pub update_role : Context → ℕ → String → Exec World (Unit {0})
unfolding exec
update_role c user_id role = exec c (on_users (update_where (by_id user_id) (set_role role)))

abbrev pub soft_delete : ℕ → User → User
soft_delete now u = record u { token_version = u.token_version + 1; deleted_at = some now }

unfoldable pub remove_from_org : Context → ℕ → Exec World (Unit {0})
unfolding exec
remove_from_org c user_id = do
  now ← view (λ w. w.now)
  exec c (on_users (update_where (by_id user_id) (soft_delete now)))

abbrev pub bump : User → User
bump u = record u { token_version = u.token_version + 1 }

unfoldable pub bump_token_version : Context → ℕ → Exec World (Unit {0})
unfolding exec
bump_token_version c user_id = exec c (on_users (update_where (by_id user_id) bump))

unfoldable pub count_users : Context → Exec World ℕ
unfolding select
count_users c = select c (λ db. count (λ u. is_live u.deleted_at) db.users)

unfoldable pub count_by_role : Context → ℕ → String → Exec World ℕ
unfolding select
count_by_role c org_id role = select c (λ db. count (by_role org_id role) db.users)
