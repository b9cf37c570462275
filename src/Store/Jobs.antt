-- ===== src/Store/Jobs.antt =====
-- apps/api/internal/jobs/queue.go, over the functions of pgmq.
use orkai.Prelude.{ℕ, suc, Bool, [], ◌∷◌, ◌++◌, not, ◌==◌, filter}
use orkai.Exec.{Exec}
use orkai.Model.Jobs.{Job, Message}
use orkai.World.{Db, World, Context}
use orkai.Store.Query.{exec}

abbrev pub send : Job → Db → Db
send job db = record db {
  queue = db.queue ++ record { msg_id = db.next_id; read_ct = 0; job = job } ∷ [];
  next_id = suc db.next_id;
}

unfoldable pub enqueue : Context → Job → Exec World (Unit {0})
unfolding exec
enqueue c job = exec c (send job)

abbrev pub has_id : ℕ → Message → Bool
has_id id m = m.msg_id == id

unfoldable pub delete : Context → ℕ → Exec World (Unit {0})
unfolding exec
delete c id = exec c (λ db. record db { queue = filter (λ m. not (has_id id m)) db.queue })

unfoldable pub archive : Context → ℕ → Exec World (Unit {0})
unfolding exec
archive c id = exec c (λ db. record db {
  queue = filter (λ m. not (has_id id m)) db.queue;
  archive = db.archive ++ filter (has_id id) db.queue;
})
