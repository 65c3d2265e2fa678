-- ===== src/Samples.antt =====
-- Users and jobs on which the theorems are applied and the definitions are run.
use phyai_saas_train_vla.Prelude.{
  refl, true, false, none, some, [], ◌∷◌, pos, arith, eq_iff, Bool-cases, inl, inr, ◌==◌, text_eq,
}
use phyai_saas_train_vla.Dict.{Dict}
use phyai_saas_train_vla.Dict.Keyed.{IsKeyed}
use phyai_saas_train_vla.Common.Models.{
  User, Job, by_email, queued, training, completed, act, smolvla, zip_upload,
}
use phyai_saas_train_vla.Repository.Database.{Database}
use phyai_saas_train_vla.Repository.Jobs.{job_id}
use phyai_saas_train_vla.Repository.Invariant.{IsSound}
use phyai_saas_train_vla.Prelude.{ℕ, ◌+◌, ok, err}
use phyai_saas_train_vla.Common.Errors.{other_error}
use phyai_saas_train_vla.Worker.Ports.{Ports}
use phyai_saas_train_vla.Worker.JobPoller.{PollerConfig}
use phyai_saas_train_vla.Worker.JobCompletion.{MonitorConfig}

abbrev pub alice : User
alice = record {
  id = "alice";
  auth_provider = by_email;
  email = some "alice@example.org";
  password_hash = some "hash";
  hf_user_id = none;
  daily_quota_used = 9;
  quota_reset_date = some 1;
  created_at = 0;
}

abbrev pub waiting_job : Job
waiting_job = record {
  id = "j1";
  user_id = "alice";
  policy = act;
  source_type = zip_upload;
  source_ref = "uploads/alice/u1.zip";
  training_steps = pos 100;
  status = queued;
  container_id = none;
  heartbeat_at = none;
  progress = none;
  cancel_requested = false;
  checkpoint_gcs_path = none;
  error_message = none;
  created_at = 86400000000;
  updated_at = 86400000000;
}

abbrev pub training_job : Job
training_job = record waiting_job {
  id = "j2";
  user_id = "bob";
  policy = smolvla;
  status = training;
  container_id = some "c2";
  heartbeat_at = some 86400000000;
  cancel_requested = true;
}

abbrev pub finished_job : Job
finished_job = record waiting_job {
  id = "j3";
  status = completed;
  checkpoint_gcs_path = some "checkpoints/j3.zip";
}

abbrev pub jobs : Dict Job
jobs = ("j1", waiting_job) ∷ ("j2", training_job) ∷ ("j3", finished_job) ∷ []

-- The same without the waiting job.
abbrev pub other_jobs : Dict Job
other_jobs = ("j2", training_job) ∷ ("j3", finished_job) ∷ []

abbrev pub db : Database
db = record { users = ("alice", alice) ∷ []; jobs = jobs }

abbrev pub db_free : Database
db_free = record { users = ("alice", alice) ∷ []; jobs = other_jobs }

pub jobs-IsKeyed : IsKeyed job_id jobs
jobs-IsKeyed = (refl, refl, (refl, refl, (refl, refl, tt)))

pub jobs-IsSound : IsSound jobs
jobs-IsSound = record {
  keyed = jobs-IsKeyed;
  one_active = λ u. elim (Bool-cases ("alice" == u)) [
    | inl e ↦ rw (← (eq_iff "alice" u).0 e) (omega arith)
    | inr e ↦ rw e (ground arith)
  ];
  one_running = omega arith;
}

pub other_jobs-IsSound : IsSound other_jobs
other_jobs-IsSound = record {
  keyed = (refl, refl, (refl, refl, tt));
  one_active = λ u. ground arith;
  one_running = omega arith;
}

-- Containers run as "c9", and every job's dataset is found at "in".
abbrev pub counting : Ports ℕ
counting = record {
  now = λ w. (90000000000 + w, w + 1);
  run = λ spec w. (ok "c9", w + 1);
  kill = λ id w. (ok tt, w + 1);
  get_exit_code = λ id w. (ok none, w);
  get_logs = λ id w. (ok "", w);
  rmtree = λ path w. w + 1;
  fetch_for_job = λ job dir w. (ok (record { input_dir = "in"; read_only = true }), w + 1);
  read_progress = λ dir w. (ok none, w);
  package_checkpoint = λ dir path w. (ok tt, w);
  upload_file = λ path file w. (err (other_error "timeout"), w + 1);
}

abbrev pub config : PollerConfig
config = record { act_image = "act"; smolvla_image = "smolvla"; workdir = "/jobs"; use_gpu = true }

abbrev pub monitor : MonitorConfig
monitor = record { workdir = "/jobs"; upload_retries = 2 }
