-- ===== src/Worker/CancelWatcher.antt =====
-- worker/cancel_watcher.py: requests to cancel are carried out at the start of each tick.
pub mod Exact
pub mod Round
use phyai_saas_train_vla.Prelude.{
  String, Bool, true, false, not, ◌&&◌, Option, none, some, List, [], ◌∷◌, Exec, pure, gets, lift,
  modify, ◌>>=◌, ◌>>◌, format, if◌then◌else◌,
}
use phyai_saas_train_vla.Common.Models.{
  JobStatus, queued, initializing, training, cancelled, is_in, is_present, text_or_empty, DateTime,
  Job,
}
use phyai_saas_train_vla.Common.StateMachine.{transition}
use phyai_saas_train_vla.Repository.Jobs
use phyai_saas_train_vla.Worker.Ports.{Ports, Host, Action, call, effect, clock}

abbrev pub cancellable_statuses : List JobStatus
cancellable_statuses = queued ∷ initializing ∷ training ∷ []

abbrev pub container_statuses : List JobStatus
container_statuses = initializing ∷ training ∷ []

-- `Path(workdir) / job.id`
unfoldable pub job_dir : String → Job → String
job_dir workdir job = format (workdir ∷ "/" ∷ job.id ∷ [])

module _ {W : Type 0} (ports : Ports W) (workdir : String) where
  -- The container of a running job that has one is killed, and the job's directory removed.
  pub stop : Job → Action W (Unit {0})
  stop job =
      if is_in container_statuses job.status && is_present job.container_id
      then (do
        call (ports.kill (text_or_empty job.container_id))
        effect (ports.rmtree (job_dir workdir job)))
      else pure tt

  unfoldable pub cancel_all : DateTime → List Job → Action W (List Job)
  cancel_all now [] = pure []
  cancel_all now (job ∷ candidates) = elim job.cancel_requested [
    | false ↦ cancel_all now candidates
    | true ↦ do
      stop job
      updated ← lift (transition job cancelled now)
      modify (λ h. record h { db = record h.db { jobs = Jobs.update h.db.jobs updated } })
      cancelled_jobs ← cancel_all now candidates
      pure (updated ∷ cancelled_jobs)
  ]

  unfoldable pub process_cancellations : Action W (List Job)
  unfolding stop cancel_all
  process_cancellations = do
    now ← clock ports.now
    candidates ← gets (λ h. Jobs.list_by_statuses h.db.jobs cancellable_statuses)
    cancel_all now candidates
