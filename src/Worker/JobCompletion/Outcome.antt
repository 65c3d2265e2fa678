-- ===== src/Worker/JobCompletion/Outcome.antt =====
-- What becomes of a job whose container has exited.
use phyai_saas_train_vla.Prelude.{
  ◌≡◌, ◌≢◌, refl, String, Bool, true, false, some, [], ◌∷◌, arith, eq_iff, ok, err, Result,
  continue, inl, inr, Bool-cases, ℤ, pos, negsuc, format, if◌then◌else◌,
}
use phyai_saas_train_vla.Dict
use phyai_saas_train_vla.Dict.{Dict, get-put}
use phyai_saas_train_vla.Common.Models.{training, completed, DateTime, Job}
use phyai_saas_train_vla.Common.Errors.{Error, error_text}
use phyai_saas_train_vla.Common.Heartbeat.{int_eq}
use phyai_saas_train_vla.Common.StateMachine.{transition}
use phyai_saas_train_vla.Repository.Jobs
use phyai_saas_train_vla.Worker.Ports.{Ports, Host}
use phyai_saas_train_vla.Worker.CancelWatcher.{job_dir}
use phyai_saas_train_vla.Worker.JobPoller.Start.{failed_at}
use phyai_saas_train_vla.Worker.Heartbeat.{write_job}
use phyai_saas_train_vla.Worker.JobCompletion.{
  MonitorConfig, output_dir, checkpoint_dir, exit_message, upload_failed_message, cleanup_job_dir,
  mark_completed, mark_failed, upload_with_retries, uploaded, packaged, read_logs, conclude,
}
use phyai_saas_train_vla.Worker.JobCompletion.Uploads.{at_try, exhausted, upload_with_retries_exact}
use phyai_saas_train_vla.Worker.JobCompletion.Sound.{read_logs-db, upload_with_retries-db}

-- A job whose checkpoint was uploaded.
abbrev pub completed_at : DateTime → String → Job → Job
completed_at now path job = record job {
  status = completed;
  updated_at = now;
  checkpoint_gcs_path = some path;
}

int_eq-pos : (i : ℤ) → int_eq i (pos 0) ≡ true → i ≡ pos 0
int_eq-pos (pos n) h = ground arith
int_eq-pos (negsuc n) h = cc

module _ {W : Type 0} (ports : Ports W) (config : MonitorConfig) where
  -- `next` was returned and is what the database holds under its id; the users are as before.
  pub record Ended (h : Host W) (result : Result Error Job × Host W) (next : Job) (world : W)
      : Type 0 where
    pub returned : result.0 ≡ ok next
    pub stored : Dict.get result.1.db.jobs next.id ≡ some next
    pub users : result.1.db.users ≡ h.db.users
    pub left : result.1.world ≡ world

  stored_next :
      (jobs : Dict Job) (next : Job) → Dict.get (Jobs.update jobs next) next.id ≡ some next
  unfolding Jobs.update
  stored_next jobs next = ground (arith, get-put jobs next.id next.id next, eq_iff next.id next.id)

  abbrev pub cleaned : Job → W → W
  cleaned job w = ports.rmtree (job_dir config.workdir job) w

  module _ (job : Job) (s : job.status ≡ training) where
    mark_completed-Ended :
        (path : String) (h : Host W)
        → Ended h
            (mark_completed ports config job path h)
            (completed_at (ports.now h.world).0 path job)
            (cleaned job (ports.now h.world).1)
    unfolding mark_completed transition write_job cleanup_job_dir
    mark_completed-Ended path h = rw s (record {
      returned = refl;
      stored = stored_next h.db.jobs (completed_at (ports.now h.world).0 path job);
      users = refl;
      left = refl;
    })

    mark_failed-Ended :
        (message : String) (cleanup : Bool) (h : Host W)
        → Ended h
            (mark_failed ports config job message cleanup h)
            (failed_at (ports.now h.world).0 message job)
            (if cleanup then cleaned job (ports.now h.world).1 else (ports.now h.world).1)
    unfolding mark_failed transition write_job cleanup_job_dir
    mark_failed-Ended message true h = rw s (record {
      returned = refl;
      stored = stored_next h.db.jobs (failed_at (ports.now h.world).0 message job);
      users = refl;
      left = refl;
    })
    mark_failed-Ended message false h = rw s (record {
      returned = refl;
      stored = stored_next h.db.jobs (failed_at (ports.now h.world).0 message job);
      users = refl;
      left = refl;
    })

    module _ (exit_code : ℤ) (h : Host W) where
      abbrev pub zip_path : String
      zip_path = format (output_dir config job ∷ "/checkpoint.zip" ∷ [])

      abbrev pub object_path : String
      object_path = format ("checkpoints/" ∷ job.id ∷ ".zip" ∷ [])

      abbrev pub packing : Result Error (Unit {0}) × W
      packing = ports.package_checkpoint (checkpoint_dir config job) zip_path h.world

      abbrev pub packed : Host W
      packed = record h { world = packing.1 }

      abbrev pub upload : Result Error Bool × Host W
      upload = upload_with_retries ports config object_path zip_path packed

      abbrev pub result : Result Error Job × Host W
      result = conclude ports config job exit_code h

      abbrev pub time : W → DateTime
      time w = (ports.now w).0

      abbrev pub later : W → W
      later w = (ports.now w).1

      -- The ways in which a run ends.
      pub data Outcome : Type 0 where
        checkpoint_stored :
            exit_code ≡ pos 0
            → packing.0 ≡ ok tt
            → upload.0 ≡ ok true
            → Ended h result
                (completed_at (time upload.1.world) object_path job)
                (cleaned job (later upload.1.world))
            → Outcome
        upload_lost :
            exit_code ≡ pos 0
            → packing.0 ≡ ok tt
            → upload.0 ≡ ok false
            → Ended h result
                (failed_at (time upload.1.world) upload_failed_message job)
                (later upload.1.world)
            → Outcome
        not_packaged :
            (e : Error)
            → exit_code ≡ pos 0
            → packing.0 ≡ err e
            → Ended h result
                (failed_at
                  (time packing.1)
                  (format ("Failed to package checkpoint: " ∷ error_text e ∷ []))
                  job)
                (cleaned job (later packing.1))
            → Outcome
        exited :
            (logs : String)
            → exit_code ≢ pos 0
            → (read_logs ports config job h).0 ≡ ok logs
            → Ended h result
                (failed_at
                  (time (read_logs ports config job h).1.world)
                  (exit_message exit_code logs)
                  job)
                (cleaned job (later (read_logs ports config job h).1.world))
            → Outcome
        no_logs :
            (e : Error)
            → exit_code ≢ pos 0
            → (read_logs ports config job h).0 ≡ err e
            → result.0 ≡ err e
            → result.1.db ≡ h.db
            → Outcome

      after_upload :
          int_eq exit_code (pos 0) ≡ true
          → packing.0 ≡ ok tt
          → (r : Result Error Bool) → upload.0 ≡ r
          → result ≡ continue r (uploaded ports config job object_path) upload.1
      unfolding conclude packaged
      after_upload z p r u = rw z (rw p (rw u))

      other_host :
          (h' : Host W) (r : Result Error Job × Host W) (next : Job) (w : W)
          → h'.db ≡ h.db
          → Ended h' r next w
          → Ended h r next w
      other_host h' r next w same e = record {
        returned = e.returned;
        stored = e.stored;
        users = rw (← same) e.users;
        left = e.left;
      }

      upload_Outcome :
          int_eq exit_code (pos 0) ≡ true
          → packing.0 ≡ ok tt
          → (r : Result Error Bool) → upload.0 ≡ r
          → ((e : Error) → r ≢ err e)
          → Outcome
      unfolding uploaded
      upload_Outcome z p (ok true) u raised = checkpoint_stored (int_eq-pos exit_code z) p u (
          rw (after_upload z p (ok true) u) (
            other_host upload.1 _ _ _
              (upload_with_retries-db ports config object_path zip_path packed)
              (mark_completed-Ended object_path upload.1)))
      upload_Outcome z p (ok false) u raised = upload_lost (int_eq-pos exit_code z) p u (
          rw (after_upload z p (ok false) u) (
            other_host upload.1 _ _ _
              (upload_with_retries-db ports config object_path zip_path packed)
              (mark_failed-Ended upload_failed_message false upload.1)))
      upload_Outcome z p (err e) u raised = elim (raised e refl) [ ]

      upload_returns : (e : Error) → upload.0 ≢ err e
      upload_returns e n =
          elim (upload_with_retries_exact ports object_path zip_path config packed) [
            | at_try k l before done r ↦ cc
            | exhausted all_failed r ↦ cc
          ]

      packing_Outcome :
          int_eq exit_code (pos 0) ≡ true → (r : Result Error (Unit {0})) → packing.0 ≡ r → Outcome
      unfolding conclude packaged
      packing_Outcome z (ok _) p = upload_Outcome z p upload.0 refl (λ e n. upload_returns e n)
      packing_Outcome z (err e) p =
          not_packaged e (int_eq-pos exit_code z) p
            (rw z (rw p (other_host packed _ _ _ refl (mark_failed-Ended _ true packed))))

      logs_Outcome :
          int_eq exit_code (pos 0) ≡ false
          → (r : Result Error String) → (read_logs ports config job h).0 ≡ r
          → Outcome
      unfolding conclude
      logs_Outcome z (ok logs) l =
          exited logs (λ e. ground arith) l
            (rw z (
              rw l (
                other_host (read_logs ports config job h).1 _ _ _ (read_logs-db ports config job h)
                  (mark_failed-Ended (exit_message exit_code logs) true
                    (read_logs ports config job h).1))))
      logs_Outcome z (err e) l =
          no_logs e (λ n. ground arith) l (rw z (rw l))
            (rw z (rw l (read_logs-db ports config job h)))

      -- Once the container of a training job has exited, the job is completed exactly where the exit
      -- code is zero, the checkpoint was packed and one of the tries to upload it succeeded;
      -- otherwise it has failed, with the reason. The job is then stored and returned, no quota is
      -- changed, and its directory is removed except where the upload failed, so that the checkpoint
      -- is kept. Only the reading of the container's logs may raise, and then nothing is written.
      pub conclude_exact : Outcome
      conclude_exact = elim (Bool-cases (int_eq exit_code (pos 0))) [
        | inl z ↦ packing_Outcome z packing.0 refl
        | inr z ↦ logs_Outcome z (read_logs ports config job h).0 refl
      ]
