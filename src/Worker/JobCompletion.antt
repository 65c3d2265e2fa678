-- ===== src/Worker/JobCompletion.antt =====
-- worker/job_completion.py: the job that holds the training host is followed until its container
-- exits; then its checkpoint is packed and uploaded, or the job has failed.
pub mod Uploads
pub mod Sound
pub mod Tick
pub mod Outcome
use Prim.Native.String.{count}
use phyai_saas_train_vla.Prelude.{
  ℕ, zero, suc, ◌+◌, String, Bool, true, false, not, Option, none, some, List, [], ◌∷◌, Result, ok,
  err, pure, gets, lift, ◌>>=◌, ◌>>◌, ◌==◌, text_eq, leb, format, ℤ, pos, show_int, last_chars,
  if◌then◌else◌,
}
use phyai_saas_train_vla.Common.Models.{
  JobStatus, initializing, training, completed, failed, status_eq, is_present, text_or_empty,
  Progress, Job,
}
use phyai_saas_train_vla.Common.Errors.{Error, error_text}
use phyai_saas_train_vla.Common.Heartbeat.{int_eq}
use phyai_saas_train_vla.Common.StateMachine.{transition}
use phyai_saas_train_vla.Repository.Jobs
use phyai_saas_train_vla.Worker.Ports.{Ports, Action, call, effect, clock, attempt}
use phyai_saas_train_vla.Worker.CancelWatcher.{job_dir}
use phyai_saas_train_vla.Worker.Heartbeat.{write_job, mark_container_alive, record_progress}

abbrev pub followed_statuses : List JobStatus
followed_statuses = initializing ∷ training ∷ []

abbrev pub upload_failed_message : String
upload_failed_message = "Training completed but checkpoint upload failed; please resubmit the job."

abbrev pub max_log_chars : ℕ
max_log_chars = 2000

unfoldable pub truncate_logs : String → String
truncate_logs logs =
    if leb (count logs) max_log_chars
    then logs
    else format ("...(truncated)...\n" ∷ last_chars max_log_chars logs ∷ [])

-- The settings that the monitor is built with.
pub record MonitorConfig : Type 0 where
  pub workdir : String
  pub upload_retries : ℕ

unfoldable pub output_dir : MonitorConfig → Job → String
output_dir config job = format (job_dir config.workdir job ∷ "/output" ∷ [])

unfoldable pub checkpoint_dir : MonitorConfig → Job → String
checkpoint_dir config job = format (output_dir config job ∷ "/checkpoint" ∷ [])

unfoldable pub exit_message : ℤ → String → String
exit_message exit_code logs =
    let message = format ("Training container exited with code " ∷ show_int exit_code ∷ []) in
    if logs == ""
    then message
    else format (message ∷ "\n\n--- last lines of container output ---\n" ∷ truncate_logs logs ∷ [])

module _ {W : Type 0} (ports : Ports W) (config : MonitorConfig) where
  unfoldable pub cleanup_job_dir : Job → Action W (Unit {0})
  cleanup_job_dir job = effect (ports.rmtree (job_dir config.workdir job))

  unfoldable pub mark_completed : Job → String → Action W Job
  unfolding write_job cleanup_job_dir
  mark_completed job checkpoint_gcs_path = do
    now ← clock ports.now
    moved ← lift (transition job completed now)
    let completed_job = record moved { checkpoint_gcs_path = some checkpoint_gcs_path }
    write_job completed_job
    cleanup_job_dir job
    pure completed_job

  unfoldable pub mark_failed : Job → String → Bool → Action W Job
  unfolding write_job cleanup_job_dir
  mark_failed job error_message cleanup = do
    now ← clock ports.now
    moved ← lift (transition job failed now)
    let failed_job = record moved { error_message = some error_message }
    write_job failed_job
    if cleanup then cleanup_job_dir job else pure tt
    pure failed_job

  -- `for _ in range(attempts)`, where any exception of an upload leads to the next round.
  unfoldable pub upload_attempts : ℕ → String → String → Action W Bool
  upload_attempts zero object_path local_zip_path = pure false
  upload_attempts (suc n) object_path local_zip_path = do
    r ← attempt (ports.upload_file object_path local_zip_path)
    elim r [ ok _ ↦ pure true | err _ ↦ upload_attempts n object_path local_zip_path ]

  unfoldable pub upload_with_retries : String → String → Action W Bool
  unfolding upload_attempts
  upload_with_retries = upload_attempts (1 + config.upload_retries)

  -- After the upload, which has succeeded or failed.
  unfoldable pub uploaded : Job → String → Bool → Action W Job
  unfolding mark_completed mark_failed
  uploaded job object_path done =
      if done then mark_completed job object_path else mark_failed job upload_failed_message false

  -- `except Exception` around `package_checkpoint`.
  unfoldable pub packaged : Job → String → Result Error (Unit {0}) → Action W Job
  unfolding mark_failed upload_with_retries uploaded
  packaged job zip_path (err e) =
      mark_failed job (format ("Failed to package checkpoint: " ∷ error_text e ∷ [])) true
  packaged job zip_path (ok _) = do
    let object_path = format ("checkpoints/" ∷ job.id ∷ ".zip" ∷ [])
    done ← upload_with_retries object_path zip_path
    uploaded job object_path done

  -- A job that still initializes moves on to training.
  unfoldable pub enter_training : Job → Action W Job
  unfolding write_job
  enter_training job =
      if job.status == initializing
      then (do
        now ← clock ports.now
        moved ← lift (transition job training now)
        write_job moved
        pure moved)
      else pure job

  unfoldable pub read_logs : Job → Action W String
  read_logs job =
      if is_present job.container_id
      then call (ports.get_logs (text_or_empty job.container_id))
      else pure ""

  -- What is done with a training job whose container has exited.
  unfoldable pub conclude : Job → ℤ → Action W Job
  unfolding read_logs mark_failed packaged
  conclude job exit_code =
      if not (int_eq exit_code (pos 0))
      then (do logs ← read_logs job; mark_failed job (exit_message exit_code logs) true)
      else (do
        let zip_path = format (output_dir config job ∷ "/checkpoint.zip" ∷ [])
        r ← attempt (ports.package_checkpoint (checkpoint_dir config job) zip_path)
        packaged job zip_path r)

  unfoldable pub finalize : Job → ℤ → Action W Job
  unfolding enter_training conclude
  finalize job exit_code = do moved ← enter_training job; conclude moved exit_code

  unfoldable pub read_exit_code : Job → Action W (Option ℤ)
  read_exit_code job =
      if is_present job.container_id
      then call (ports.get_exit_code (text_or_empty job.container_id))
      else pure none

  -- What a tick records before it looks at the exit code: progress, or that the container is alive.
  unfoldable pub observe : Job → Option Progress → Option ℤ → Action W Job
  unfolding enter_training record_progress mark_container_alive
  observe job (some progress) exit_code = do
    moved ← enter_training job
    record_progress ports moved progress
  observe job none none =
      if job.status == initializing then mark_container_alive ports job else pure job
  observe job none (some _) = pure job

  unfoldable pub finish : Job → Option ℤ → Action W Job
  unfolding finalize
  finish job none = pure job
  finish job (some exit_code) = finalize job exit_code

  -- `active_jobs[0]`
  unfoldable pub follow : List Job → Action W (Option Job)
  unfolding read_exit_code observe finish
  follow [] = pure none
  follow (job ∷ others) = do
    progress ← call (ports.read_progress (output_dir config job))
    exit_code ← read_exit_code job
    observed ← observe job progress exit_code
    finished ← finish observed exit_code
    pure (some finished)

  unfoldable pub tick : Action W (Option Job)
  unfolding follow
  tick = do
    active_jobs ← gets (λ h. Jobs.list_by_statuses h.db.jobs followed_statuses)
    follow active_jobs
