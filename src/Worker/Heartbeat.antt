-- ===== src/Worker/Heartbeat.antt =====
-- worker/heartbeat_updater.py: the heartbeat of the job that the worker follows.
use phyai_saas_train_vla.Prelude.{not, some, pure, modify, ◌>>=◌, ◌>>◌, if◌then◌else◌}
use phyai_saas_train_vla.Common.Models.{Progress, Job}
use phyai_saas_train_vla.Common.Heartbeat.{progress_changed}
use phyai_saas_train_vla.Repository.Jobs
use phyai_saas_train_vla.Worker.Ports.{Ports, Action, clock}

-- `self._jobs.update(job)`
unfoldable pub write_job : {W : Type 0} → Job → Action W (Unit {0})
write_job job = modify (λ h. record h { db = record h.db { jobs = Jobs.update h.db.jobs job } })

module _ {W : Type 0} (ports : Ports W) where
  unfoldable pub mark_container_alive : Job → Action W Job
  unfolding write_job
  mark_container_alive job = do
    now ← clock ports.now
    let updated = record job { heartbeat_at = some now }
    write_job updated
    pure updated

  unfoldable pub record_progress : Job → Progress → Action W Job
  unfolding write_job
  record_progress job latest_progress =
      if not (progress_changed job.progress latest_progress) then pure job else (do
        now ← clock ports.now
        let updated = record job { progress = some latest_progress; heartbeat_at = some now }
        write_job updated
        pure updated)
