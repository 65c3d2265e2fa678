-- ===== src/Worker/JobCompletion/Sound.antt =====
-- Following a job keeps the invariant of the stored jobs.
use phyai_saas_train_vla.Prelude.{
  ◌≡◌, refl, String, Bool, true, false, Option, none, some, [], ◌∷◌, arith, ok, err, Result,
  continue, ◌⊎◌, inl, inr, Bool-cases, ℤ, pos, eq_refl, ◌==◌, format,
}
use phyai_saas_train_vla.Dict.{Dict, get-put}
use phyai_saas_train_vla.Dict.Keyed.{Stored}
use phyai_saas_train_vla.Common.Models.{
  JobStatus, initializing, training, completed, failed, status_eq, DateTime, Progress, Job,
}
use phyai_saas_train_vla.Common.Errors.{Error, invalid_transition}
use phyai_saas_train_vla.Common.Heartbeat.{progress_changed, int_eq}
use phyai_saas_train_vla.Common.StateMachine.{transition}
use phyai_saas_train_vla.Repository.Jobs
use phyai_saas_train_vla.Repository.Jobs.{
  job_id, has_status, list_by_statuses, list_by_statuses-Listing,
}
use phyai_saas_train_vla.Repository.Invariant.{IsSound, is_running, put-Follows}
use phyai_saas_train_vla.Worker.Ports.{Ports, Host, Action}
use phyai_saas_train_vla.Worker.JobCompletion.Uploads.{at_try, exhausted, upload_with_retries_exact}
use phyai_saas_train_vla.Worker.Heartbeat.{write_job, mark_container_alive, record_progress}
use phyai_saas_train_vla.Worker.JobCompletion.{
  MonitorConfig, cleanup_job_dir, mark_completed, mark_failed, upload_with_retries, uploaded,
  packaged, enter_training, read_logs, conclude, finalize, read_exit_code, finish,
}

-- The job at hand is the stored one, and holds the training host.
pub record Following (job : Job) (jobs : Dict Job) : Type 0 where
  pub running : is_running job ≡ true
  pub stored : Stored job_id jobs job
  pub sound : IsSound jobs

abbrev pub moved_to : JobStatus → DateTime → Job → Job
moved_to status now job = record job { status = status; updated_at = now }

pub transition-cases :
    (job : Job) (to_status : JobStatus) (now : DateTime)
    → (transition job to_status now ≡ ok (moved_to to_status now job))
      ⊎ (transition job to_status now ≡ err (invalid_transition job.status to_status))
unfolding transition
transition-cases job to_status now = ground arith

write-IsSound :
    (job next : Job) (jobs : Dict Job)
    → Following job jobs
    → next.id ≡ job.id
    → next.user_id ≡ job.user_id
    → IsSound (Jobs.update jobs next)
unfolding Jobs.update
write-IsSound job next jobs f same_id same_user =
    put-Follows jobs job next f.stored
      (record {
        same_id = same_id;
        same_user = same_user;
        active = λ _. ground (arith, f.running);
        running = λ _. f.running;
      })
      f.sound

pub write-Following :
    (job next : Job) (jobs : Dict Job)
    → Following job jobs
    → next.id ≡ job.id
    → next.user_id ≡ job.user_id
    → is_running next ≡ true
    → Following next (Jobs.update jobs next)
unfolding Jobs.update
write-Following job next jobs f same_id same_user running = record {
  running = running;
  stored = simp (get-put, eq_refl);
  sound = unfold Jobs.update in write-IsSound job next jobs f same_id same_user;
}

module _ {W : Type 0} where
  -- A step that may give back the job: the invariant holds, and the job that is given is followed.
  pub record Keeps (r : Result Error Job × Host W) : Type 0 where
    pub sound : IsSound r.1.db.jobs
    pub follows : (next : Job) → r.0 ≡ ok next → Following next r.1.db.jobs

  pub kept : (job : Job) (h : Host W) → Following job h.db.jobs → Keeps (ok job, h)
  kept job h f = record { sound = f.sound; follows = λ next e. rw (← same_job e) f }
    where
      same_job : {next : Job} → ◌≡◌ {A = Result Error Job} (ok job) (ok next) → job ≡ next
      same_job e = cc

  pub then-IsSound :
      {A : Type 0} (r : Result Error Job) (h : Host W) (step : Job → Action W A)
      → Keeps (r, h)
      → ((next : Job) (h' : Host W) → Following next h'.db.jobs → IsSound (step next h').1.db.jobs)
      → IsSound (continue r step h).1.db.jobs
  then-IsSound (ok next) h step k s = s next h (k.follows next refl)
  then-IsSound (err e) h step k s = k.sound

module _ {W : Type 0} (ports : Ports W) (config : MonitorConfig) where
  mark_completed-IsSound :
      (job : Job) (path : String) (h : Host W)
      → Following job h.db.jobs
      → IsSound (mark_completed ports config job path h).1.db.jobs
  unfolding mark_completed write_job cleanup_job_dir
  mark_completed-IsSound job path h f =
      elim (transition-cases job completed (ports.now h.world).0) [
        | inl e ↦ rw e (write-IsSound job _ h.db.jobs f refl refl)
        | inr e ↦ rw e f.sound
      ]

  mark_failed-IsSound :
      (job : Job) (message : String) (cleanup : Bool) (h : Host W)
      → Following job h.db.jobs
      → IsSound (mark_failed ports config job message cleanup h).1.db.jobs
  unfolding mark_failed write_job cleanup_job_dir
  mark_failed-IsSound job message true h f =
      elim (transition-cases job failed (ports.now h.world).0) [
        | inl e ↦ rw e (write-IsSound job _ h.db.jobs f refl refl)
        | inr e ↦ rw e f.sound
      ]
  mark_failed-IsSound job message false h f =
      elim (transition-cases job failed (ports.now h.world).0) [
        | inl e ↦ rw e (write-IsSound job _ h.db.jobs f refl refl)
        | inr e ↦ rw e f.sound
      ]

  uploaded-IsSound :
      (job : Job) (path : String) (r : Result Error Bool) (h : Host W)
      → Following job h.db.jobs
      → IsSound (continue r (uploaded ports config job path) h).1.db.jobs
  unfolding uploaded
  uploaded-IsSound job path (ok true) h f = mark_completed-IsSound job path h f
  uploaded-IsSound job path (ok false) h f = mark_failed-IsSound job _ false h f
  uploaded-IsSound job path (err e) h f = f.sound

  pub upload_with_retries-db :
      (path file : String) (h : Host W) → (upload_with_retries ports config path file h).1.db ≡ h.db
  upload_with_retries-db path file h = elim (upload_with_retries_exact ports path file config h) [
    | at_try k l before done r ↦ rw r
    | exhausted all_failed r ↦ rw r
  ]

  then_uploaded-IsSound :
      (job : Job) (path file : String) (h : Host W)
      → Following job h.db.jobs
      → IsSound
          (continue
            (upload_with_retries ports config path file h).0
            (uploaded ports config job path)
            (upload_with_retries ports config path file h).1).1.db.jobs
  then_uploaded-IsSound job path file h f =
      uploaded-IsSound job path (upload_with_retries ports config path file h).0
        (upload_with_retries ports config path file h).1 (rw (upload_with_retries-db path file h) f)

  packaged-IsSound :
      (job : Job) (zip : String) (r : Result Error (Unit {0})) (h : Host W)
      → Following job h.db.jobs
      → IsSound (packaged ports config job zip r h).1.db.jobs
  unfolding packaged
  packaged-IsSound job zip (err e) h f = mark_failed-IsSound job _ true h f
  packaged-IsSound job zip (ok _) h f =
      then_uploaded-IsSound job (format ("checkpoints/" ∷ job.id ∷ ".zip" ∷ [])) zip h f

  pub enter_training-Keeps :
      (job : Job) (h : Host W) → Following job h.db.jobs → Keeps (enter_training ports config job h)
  unfolding enter_training write_job
  enter_training-Keeps job h f = elim (Bool-cases (job.status == initializing)) [
    | inl e ↦ rw e (elim (transition-cases job training (ports.now h.world).0) [
      | inl t ↦ rw t (kept _ _ (write-Following job _ h.db.jobs f refl refl refl))
      | inr t ↦ rw t (record { sound = f.sound; follows = λ next n. cc })
    ])
    | inr e ↦ rw e (kept job h f)
  ]

  logs-IsSound :
      (job : Job) (r : Result Error String) (h : Host W) (message : String → String)
      → Following job h.db.jobs
      → IsSound (continue r (λ logs. mark_failed ports config job (message logs) true) h).1.db.jobs
  logs-IsSound job (ok logs) h message f = mark_failed-IsSound job (message logs) true h f
  logs-IsSound job (err e) h message f = f.sound

  pub read_logs-db : (job : Job) (h : Host W) → (read_logs ports config job h).1.db ≡ h.db
  unfolding read_logs
  read_logs-db job h = ground arith

  pub read_exit_code-db : (job : Job) (h : Host W) → (read_exit_code ports config job h).1.db ≡ h.db
  unfolding read_exit_code
  read_exit_code-db job h = ground arith

  conclude-IsSound :
      (exit_code : ℤ) (job : Job) (h : Host W)
      → Following job h.db.jobs
      → IsSound (conclude ports config job exit_code h).1.db.jobs
  unfolding conclude
  conclude-IsSound exit_code job h f = elim (Bool-cases (int_eq exit_code (pos 0))) [
    | inl e ↦ rw e (packaged-IsSound job _ _ _ f)
    | inr e ↦ rw e (
        logs-IsSound job (read_logs ports config job h).0 (read_logs ports config job h).1 _
          (rw (read_logs-db job h) f))
  ]

  pub finish-IsSound :
      (exit_code : Option ℤ) (job : Job) (h : Host W)
      → Following job h.db.jobs
      → IsSound (finish ports config job exit_code h).1.db.jobs
  unfolding finish finalize
  finish-IsSound none job h f = f.sound
  finish-IsSound (some exit_code) job h f =
      then-IsSound _ _ _ (enter_training-Keeps job h f) (conclude-IsSound exit_code)

  pub mark_container_alive-Keeps :
      (job : Job) (h : Host W) → Following job h.db.jobs → Keeps (mark_container_alive ports job h)
  unfolding mark_container_alive write_job
  mark_container_alive-Keeps job h f =
      kept _ _ (write-Following job _ h.db.jobs f refl refl f.running)

  pub record_progress-Keeps :
      (latest : Progress) (job : Job) (h : Host W)
      → Following job h.db.jobs
      → Keeps (record_progress ports job latest h)
  unfolding record_progress write_job
  record_progress-Keeps latest job h f = elim (Bool-cases (progress_changed job.progress latest)) [
    | inl e ↦ rw e (kept _ _ (write-Following job _ h.db.jobs f refl refl f.running))
    | inr e ↦ rw e (kept job h f)
  ]
