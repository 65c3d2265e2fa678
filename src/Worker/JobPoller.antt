-- ===== src/Worker/JobPoller.antt =====
-- worker/job_poller.py: one poll cycle, which starts at most one job.
pub mod Tick
pub mod Start
pub mod Progress
use phyai_saas_train_vla.Prelude.{
  String, Bool, true, false, not, Option, none, some, List, [], ◌∷◌, Result, ok, err, Exec, pure,
  raise, gets, lift, or_raise, modify, ◌>>=◌, ◌>>◌, format, show_int, is_empty, if◌then◌else◌,
}
use phyai_saas_train_vla.Common.Models.{
  JobStatus, queued, initializing, training, failed, PolicyType, act, smolvla, source_value,
  DateTime, date, User, Job,
}
use phyai_saas_train_vla.Common.Errors.{Error, error_text, user_missing, dataset_fetch}
use phyai_saas_train_vla.Common.StateMachine.{transition}
use phyai_saas_train_vla.Common.Quota.{record_job_started}
use phyai_saas_train_vla.Repository.Jobs
use phyai_saas_train_vla.Repository.Users
use phyai_saas_train_vla.Worker.Ports.{
  ContainerSpec, FetchedDataset, Ports, Host, Action, call, clock, attempt,
}
use phyai_saas_train_vla.Worker.CancelWatcher.{process_cancellations, job_dir}

abbrev pub active_container_statuses : List JobStatus
active_container_statuses = initializing ∷ training ∷ []

abbrev pub lerobot_job_id_label : String
lerobot_job_id_label = "lerobot.job_id"

-- The settings that the poller is built with.
pub record PollerConfig : Type 0 where
  pub act_image : String
  pub smolvla_image : String
  pub workdir : String
  pub use_gpu : Bool

abbrev pub image_for : PollerConfig → PolicyType → String
image_for config act = config.act_image
image_for config smolvla = config.smolvla_image

unfoldable pub build_container_spec : PollerConfig → Job → String → FetchedDataset → ContainerSpec
build_container_spec config job dir dataset = record {
  image = image_for config job.policy;
  name = format ("lerobot-job-" ∷ job.id ∷ []);
  command =
      "--source-type"
      ∷ source_value job.source_type
      ∷ "--source-ref"
      ∷ job.source_ref
      ∷ "--training-steps"
      ∷ show_int job.training_steps
      ∷ "--input-dir"
      ∷ "/workspace/input"
      ∷ "--output-dir"
      ∷ "/workspace/output"
      ∷ [];
  volumes =
      (dataset.input_dir, "/workspace/input")
      ∷ (format (dir ∷ "/output" ∷ []), "/workspace/output")
      ∷ [];
  environment = ("JOB_ID", job.id) ∷ [];
  labels = (lerobot_job_id_label, job.id) ∷ [];
  use_gpu = config.use_gpu;
  read_only_paths = if dataset.read_only then dataset.input_dir ∷ [] else [];
}

module _ {W : Type 0} (ports : Ports W) (config : PollerConfig) where
  pub update_job : Job → Action W (Unit {0})
  update_job job = modify (λ h. record h { db = record h.db { jobs = Jobs.update h.db.jobs job } })

  pub update_user : User → Action W (Unit {0})
  update_user user =
      modify (λ h. record h { db = record h.db { users = Users.update h.db.users user } })

  pub fail_during_start : Job → String → Action W Job
  unfolding update_job
  fail_during_start job error_message = do
    now ← clock ports.now
    moved ← lift (transition job failed now)
    let failed_job = record moved { error_message = some error_message }
    update_job failed_job
    pure failed_job

  -- `except Exception` around `docker.run`; the text is the exception's.
  pub launched : Job → Result Error String → Action W Job
  unfolding update_job
  launched job (ok container_id) = do
    let running = record job { container_id = some container_id }
    update_job running
    pure running
  launched job (err e) =
      fail_during_start job (format ("Failed to start training container: " ∷ error_text e ∷ []))

  -- `except DatasetFetchError` around the fetch; any other exception goes on to the caller.
  pub fetched : Job → Result Error FetchedDataset → Action W Job
  fetched job (ok dataset) = do
    let dir = job_dir config.workdir job
    r ← attempt (ports.run (build_container_spec config job dir dataset))
    launched job r
  fetched job (err (dataset_fetch message)) =
      fail_during_start job (format ("Failed to fetch dataset: " ∷ message ∷ []))
  fetched job (err e) = raise e

  -- `queued_jobs[0]`
  pub start_job : List Job → Action W (Option Job)
  unfolding update_job update_user
  start_job [] = pure none
  start_job (job ∷ others) = do
    now ← clock ports.now
    found ← gets (λ h. Users.get h.db.users job.user_id)
    user ← or_raise found (user_missing job.user_id)
    moved ← lift (transition job initializing now)
    let starting = record moved { heartbeat_at = some now }
    update_job starting
    update_user (record_job_started user (date now))
    dataset ← attempt (ports.fetch_for_job starting (job_dir config.workdir starting))
    started ← fetched starting dataset
    pure (some started)

  pub start_next_queued_job : Action W (Option Job)
  start_next_queued_job = do
    queued_jobs ← gets (λ h. Jobs.list_by_statuses h.db.jobs (queued ∷ []))
    start_job queued_jobs

  -- The rest of the cycle, once the cancellations are done.
  pub take_next : Action W (Option Job)
  take_next = do
    running ← gets (λ h. Jobs.list_by_statuses h.db.jobs active_container_statuses)
    if not (is_empty running) then pure none else start_next_queued_job

  pub tick : Action W (Option Job)
  tick = do process_cancellations ports config.workdir; take_next
