-- ===== src/Store/Accounts/ApiKeys.antt =====
-- apps/api/internal/store/pg/api_key_store.go
use orkai.Prelude.{
  ℕ, suc, String, Bool, some, List, [], ◌∷◌, ◌++◌, ◌&&◌, ◌==◌, str_eq, find?, filter, any,
  update_where, if◌then◌else◌,
}
use orkai.Result.{no_rows}
use orkai.Exec.{Exec, pure, throw, view, ◌>>=◌, ◌>>◌}
use orkai.Model.Accounts.{ApiKey}
use orkai.World.{Db, World, Context, round_trip, on_db}
use orkai.Store.Query.{is_live, fetch, select, exec}

abbrev pub by_hash : String → ApiKey → Bool
by_hash hash k = str_eq k.key_hash hash && is_live k.deleted_at

abbrev pub of_user : ℕ → ApiKey → Bool
of_user user_id k = (k.user_id == user_id) && is_live k.deleted_at

abbrev pub by_id_for_user : ℕ → ℕ → ApiKey → Bool
by_id_for_user id user_id k = (k.id == id) && (k.user_id == user_id) && is_live k.deleted_at

abbrev pub on_keys : (List ApiKey → List ApiKey) → Db → Db
on_keys f db = record db { api_keys = f db.api_keys }

abbrev pub insert_key : ApiKey → Db → Db
insert_key k db = record db {
  api_keys = db.api_keys ++ record k { id = db.next_id } ∷ [];
  next_id = suc db.next_id;
}

unfoldable pub create : Context → ApiKey → Exec World ApiKey
unfolding round_trip on_db ◌>>=◌
create c key = do
  round_trip c
  id ← view (λ w. w.db.next_id)
  on_db (insert_key key)
  view (λ w. record key { id = id })

unfoldable pub get_by_hash : Context → String → Exec World ApiKey
unfolding fetch
get_by_hash c hash = fetch c (λ db. find? (by_hash hash) db.api_keys)

unfoldable pub get_by_id_for_user : Context → ℕ → ℕ → Exec World ApiKey
unfolding fetch
get_by_id_for_user c id user_id = fetch c (λ db. find? (by_id_for_user id user_id) db.api_keys)

unfoldable pub list_by_user : Context → ℕ → Exec World (List ApiKey)
unfolding select
list_by_user c user_id = select c (λ db. filter (of_user user_id) db.api_keys)

abbrev pub revoke : ℕ → ApiKey → ApiKey
revoke now k = record k { deleted_at = some now }

-- No row affected is `sql.ErrNoRows`.
unfoldable pub delete : Context → ℕ → ℕ → Exec World (Unit {0})
unfolding exec
delete c id user_id = do
  now ← view (λ w. w.now)
  hit ← view (λ w. any (by_id_for_user id user_id) w.db.api_keys)
  exec c (on_keys (update_where (by_id_for_user id user_id) (revoke now)))
  if hit then pure tt else throw no_rows

unfoldable pub touch_last_used : Context → ℕ → Exec World (Unit {0})
unfolding exec
touch_last_used c id = do
  now ← view (λ w. w.now)
  exec c (
      on_keys (
        update_where (λ k. (k.id == id) && is_live k.deleted_at)
          (λ k. record k { last_used_at = some now })))

unfoldable pub revoke_all_for_user : Context → ℕ → Exec World (Unit {0})
unfolding exec
revoke_all_for_user c user_id = do
  now ← view (λ w. w.now)
  exec c (on_keys (update_where (of_user user_id) (revoke now)))
