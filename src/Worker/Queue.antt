-- ===== src/Worker/Queue.antt =====
-- What becomes of a message.
use orkai.Prelude.{
  ℕ, ◌≡◌, refl, ◌∙◌, ◌+◌, arith, count, count-append, Bool, true, some, List, [], ◌∷◌, ◌++◌, filter,
  find?, not, leb, if◌then◌else◌, Bool-cases, inl, inr,
}
use orkai.Result.{Result, ok, err, Error}
use orkai.Exec.{◌>>=◌}
use orkai.Model.Jobs.{Message, new_deploy_job}
use orkai.Exec.Triple.{Both, Triple, Triple-pure, Triple-if, Triple-ignore}
use orkai.World.{Db, World, background}
use orkai.World.Atomic.{On}
use orkai.Store.Atomic.{exec-On}
use orkai.Store.Jobs as Jobs
use orkai.Store.Jobs.{has_id}
use orkai.Model.Deploys.{Deployment}
use orkai.Store.Deploys.{by_id}
use orkai.Deploy.Env.{Env}
use orkai.Deploy.Common.{is_terminal}
use orkai.Deploy.Execute.{run_deploy_job}
use orkai.Deploy.Execute.Outcomes.{run_deploy_job-terminal}
use orkai.Worker.{Services, dispatch_job, settle, process_message, max_read_attempts}

-- The messages with this id, and the others.
abbrev pub with_msg_id : ℕ → List Message → List Message
with_msg_id id q = filter (has_id id) q

abbrev pub without_msg_id : ℕ → List Message → List Message
without_msg_id id q = filter (λ m. not (has_id id m)) q

-- The rows with this id, in the queue and in the archive.
abbrev pub copies : ℕ → Db → ℕ
copies id db = count (has_id id) (db.queue ++ db.archive)

count-split :
    (p q : Message → Bool) (ms : List Message)
    → count p (filter (λ m. not (q m)) ms) + count p (filter q ms) ≡ count p ms
count-split p q [] = refl
count-split p q (m ∷ ms) =
    let ih = count-split p q ms in
    elim (Bool-cases (q m)) [ inl h ↦ rw h (omega (arith, ih)) | inr h ↦ rw h (omega (arith, ih)) ]

move : ℕ → Db → Db
move id db = record db {
  queue = filter (λ m. not (has_id id m)) db.queue;
  archive = db.archive ++ filter (has_id id) db.queue;
}

copies-move : (id moved : ℕ) (db : Db) → copies id (move moved db) ≡ copies id db
unfolding move
copies-move id moved db =
    let kept = filter (λ m. not (has_id moved m)) db.queue in
    let sent = filter (has_id moved) db.queue in
    omega (
      arith,
      count-append (has_id id) kept (db.archive ++ sent),
      count-append (has_id id) db.archive sent,
      count-append (has_id id) db.queue db.archive,
      count-split (has_id id) (has_id moved) db.queue,
    )

module _ (id n : ℕ) where
  Copies : Db → Type 0
  Copies db = copies id db ≡ n

  settle-On :
      (x : Error) (msg : Message)
      → Triple (On Copies) (settle (err x) msg) (λ _. On Copies) (On Copies)
  unfolding settle Jobs.archive move Copies
  settle-On x msg =
      Triple-if (leb max_read_attempts msg.read_ct) _ _
        (λ _. Triple-ignore _ (
          exec-On Copies background Copies (move msg.msg_id)
            (λ db h. copies-move id msg.msg_id db ∙ h)))
        (λ _. Triple-pure tt (λ w h. h))

module _ (s : Services) (msg : Message) (w w' : World) (x : Error)
    (failed : dispatch_job s msg.job w ≡ (err x, w')) where
  Both-same :
      (id n : ℕ) (r : Result (Unit {0})) (v : World)
      → Both (λ _. On (Copies id n)) (On (Copies id n)) (r, v)
      → copies id v.db ≡ n
  unfolding Copies
  Both-same id n (ok a) v h = h
  Both-same id n (err e) v h = h

  -- No message of a failed job is lost or doubled, whichever round trip fails: between the queue and
  -- its archive, every id has as many rows after the message was processed as its job left.
  pub process_message-keeps_failed :
      (id : ℕ) → copies id (process_message s msg w).1.db ≡ copies id w'.db
  unfolding process_message Copies ◌>>=◌
  process_message-keeps_failed id = rw failed (
      let (r, v) = settle (err x) msg w' in
      Both-same id (copies id w'.db) r v ((settle-On id (copies id w'.db) x msg).at w' refl))

module _ (s : Services) (msg : Message) (w w' : World) (up : w'.faults ≡ []) where
  -- A job that succeeds leaves the queue.
  process_message-done :
      dispatch_job s msg.job w ≡ (ok tt, w')
      → process_message s msg w
        ≡ (ok tt, record w' { db = record w'.db { queue = without_msg_id msg.msg_id w'.db.queue } })
  unfolding process_message Jobs.delete ◌>>=◌
  process_message-done e = rw (e, up) refl

  -- Where the queue can be reached, a job that fails moves to the archive if it was read five times
  -- or more, and stays in the queue, to be read again, if not.
  pub process_message-failed :
      (x : Error)
      → dispatch_job s msg.job w ≡ (err x, w')
      → process_message s msg w ≡ (
        ok tt,
        (if leb 5 msg.read_ct
            then record w' {
              db = record w'.db {
                queue = without_msg_id msg.msg_id w'.db.queue;
                archive = w'.db.archive ++ with_msg_id msg.msg_id w'.db.queue;
              };
            }
            else w'),
      )
  unfolding process_message Jobs.archive ◌>>=◌
  process_message-failed x e = elim (Bool-cases (leb 5 msg.read_ct)) [
    | inl h ↦ rw (e, h, up) refl
    | inr h ↦ rw (e, h, up) refl
  ]

-- The services of a worker whose deploy jobs run in `env`.
abbrev pub deploys_in : Env → Services → Services
deploys_in env s = record s { run_deploy = run_deploy_job env }

module _ (env : Env) (s : Services) (msg : Message) (w : World) (id : ℕ) (force : Bool)
    (d : Deployment) (up : w.faults ≡ []) (job : msg.job ≡ new_deploy_job id force) where
  -- With the database up, a message that is delivered again after its deployment has ended is
  -- removed, and nothing else happens: no second deploy.
  pub process_message-redelivered :
      find? (by_id id) w.db.deployments ≡ some d
      → is_terminal d.status ≡ true
      → process_message (deploys_in env s) msg w
        ≡ (ok tt, record w { db = record w.db { queue = without_msg_id msg.msg_id w.db.queue } })
  unfolding dispatch_job
  process_message-redelivered found ended =
      process_message-done (deploys_in env s) msg w w up
        (rw job (run_deploy_job-terminal env id force w d up found ended))
