-- ===== src/Backend/TimeoutService.antt =====
-- backend/services/timeout_service.py: the sweep that fails jobs without a heartbeat.
pub mod Sweep
use phyai_saas_train_vla.Prelude.{
  String, Bool, true, false, Option, some, List, [], ◌∷◌, Exec, pure, gets, lift, modify, ◌>>=◌,
  ◌>>◌,
}
use phyai_saas_train_vla.Dict.{Dict}
use phyai_saas_train_vla.Common.Models.{JobStatus, initializing, training, failed, DateTime, Job}
use phyai_saas_train_vla.Common.Errors.{Error}
use phyai_saas_train_vla.Common.StateMachine.{transition}
use phyai_saas_train_vla.Common.Heartbeat.{is_timed_out}
use phyai_saas_train_vla.Repository.Jobs

abbrev pub timeout_error_message : String
timeout_error_message = "Job timed out: no heartbeat update within the allowed window"

abbrev pub monitored_statuses : List JobStatus
monitored_statuses = initializing ∷ training ∷ []

-- The body of the loop, and the loop: the failed jobs in the order of the listing.
fail_all : DateTime → List Job → Exec (Dict Job) Error (List Job)
fail_all now [] = pure []
fail_all now (job ∷ candidates) = elim (is_timed_out job.status job.heartbeat_at now) [
  | true ↦ do
    moved ← lift (transition job failed now)
    let failed_job = record moved { error_message = some timeout_error_message }
    modify (λ jobs. Jobs.update jobs failed_job)
    failed_jobs ← fail_all now candidates
    pure (failed_job ∷ failed_jobs)
  | false ↦ fail_all now candidates
]

-- `now` is the one reading of the clock.
unfoldable pub check_and_fail_timed_out_jobs : DateTime → Exec (Dict Job) Error (List Job)
unfolding fail_all
check_and_fail_timed_out_jobs now = do
  candidates ← gets (λ jobs. Jobs.list_by_statuses jobs monitored_statuses)
  fail_all now candidates
