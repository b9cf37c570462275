-- ===== src/Store/Owned.antt =====
-- `GetByID` of apps/api/internal/store/pg/managed_database_store.go, page_store.go, worker_store.go,
-- cronjob_store.go and domain_store.go.
use orkai.Prelude.{ℕ, Bool, ◌&&◌, ◌==◌, List, find?}
use orkai.Exec.{Exec}
use orkai.Model.Accounts.{Owned, Domain}
use orkai.World.{Db, World, Context}
use orkai.Store.Query.{is_live, fetch}

abbrev pub by_id : ℕ → Owned → Bool
by_id id x = (x.id == id) && is_live x.deleted_at

unfoldable pub get : (Db → List Owned) → Context → ℕ → Exec World Owned
unfolding fetch
get table c id = fetch c (λ db. find? (by_id id) (table db))

abbrev pub domain_by_id : ℕ → Domain → Bool
domain_by_id id x = (x.id == id) && is_live x.deleted_at

unfoldable pub get_domain : Context → ℕ → Exec World Domain
unfolding fetch
get_domain c id = fetch c (λ db. find? (domain_by_id id) db.domains)
