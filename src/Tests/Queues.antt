-- ===== src/Tests/Queues.antt =====
-- Messages of the queue at concrete inputs.
use orkai.Prelude.{◌≡◌, refl, false, [], ◌∷◌}
use orkai.Result.{ok, err, message}
use orkai.Model.Deploys.{DeployStatus}
use orkai.Model.Jobs.{Message, new_deploy_job, new_system_backup_job}
use orkai.World.{World}
use orkai.Worker.{Services, dispatch_job, process_message}
use orkai.Worker.Queue.{
  copies, deploys_in, process_message-keeps_failed, process_message-failed,
  process_message-redelivered,
}
use orkai.Tests.Data.{world, db, env, deployment}

abbrev services : Services
services = record {
  run_deploy = λ id force w. (ok tt, w);
  run_system_backup = λ id w. (err (message "disk full"), w);
  run_database_backup = λ id w. (ok tt, w);
  run_page_deploy = λ id w. (ok tt, w);
  run_worker_deploy = λ id w. (ok tt, w);
}

abbrev backup : Message
backup = record { msg_id = 5; read_ct = 5; job = new_system_backup_job 3 }

abbrev redelivered : Message
redelivered = record { msg_id = 6; read_ct = 2; job = new_deploy_job 51 false }

abbrev full : World
full =
    let w = world (db [] [] [] (deployment DeployStatus.success ∷ [])) [] in
    record w { db = record w.db { queue = backup ∷ redelivered ∷ [] } }

disk_full : dispatch_job services backup.job full ≡ (err (message "disk full"), full)
unfolding dispatch_job
disk_full = refl

process_message-keeps_failed_example :
    copies 5 (process_message services backup full).1.db ≡ copies 5 full.db
process_message-keeps_failed_example =
    process_message-keeps_failed services backup full full (message "disk full") disk_full 5

process_message-failed_example : process_message services backup full ≡ (
  ok tt,
  record full { db = record full.db { queue = redelivered ∷ []; archive = backup ∷ [] } },
)
process_message-failed_example =
    process_message-failed services backup full full refl (message "disk full") disk_full

process_message-redelivered_example :
    process_message (deploys_in (env (λ db. db)) services) redelivered full
    ≡ (ok tt, record full { db = record full.db { queue = backup ∷ [] } })
process_message-redelivered_example =
    process_message-redelivered (env (λ db. db)) services redelivered full 51 false
      (deployment DeployStatus.success) refl refl refl refl
