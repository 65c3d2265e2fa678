-- ===== src/Worker/Wiring.antt =====
-- worker/config.py and worker/deps.py: the worker's settings, and its parts put together over the Docker
-- client, the dataset fetcher, the progress reader and the packager of this development.
use mathlib.Core.Option
use phyai_saas_train_vla.Prelude.{
  ok, err, ℕ, ◌*◌, String, Bool, true, false, Option, none, List, Exec, pure, ◌>>◌,
}
use phyai_saas_train_vla.Common.Float.{Float}
use phyai_saas_train_vla.Common.Models.{DateTime, Progress}
use phyai_saas_train_vla.Common.Errors.{Error, Checked}
use phyai_saas_train_vla.Worker.Ports.{Ports}
use phyai_saas_train_vla.Worker.JobPoller.{PollerConfig}
use phyai_saas_train_vla.Worker.JobCompletion.{MonitorConfig}
use phyai_saas_train_vla.Worker.DatasetFetcher.{Site, fetch_for_job}
use phyai_saas_train_vla.Worker.DockerRunner
use phyai_saas_train_vla.Worker.DockerRunner.{Sdk}
use phyai_saas_train_vla.Worker.ProgressReader
use phyai_saas_train_vla.Worker.ProgressReader.{ReadProgress, Reader, Found, package_checkpoint}

pub record WorkerSettings : Type 0 where
  pub lock_file_path : String
  pub hf_cache_dir : String
  pub hf_cache_max_bytes : ℕ
  pub workdir : String
  pub tmp_stale_after_seconds : ℕ
  pub poll_interval_seconds : Float
  pub act_image : String
  pub smolvla_image : String
  pub gcs_bucket : String
  pub firestore_database_id : String
  pub gcp_project_id : Option String
  pub use_fake_adapters : Bool
  pub use_gpu : Bool

-- Where the environment sets nothing. The pause is 5.0 seconds as a float.
abbrev pub default_settings : WorkerSettings
default_settings = record {
  lock_file_path = "/run/lerobot-worker/lerobot-worker.lock";
  hf_cache_dir = "/var/lib/lerobot-worker/hf-cache";
  hf_cache_max_bytes = 20 * (1024 * (1024 * 1024));
  workdir = "/var/lib/lerobot-worker/jobs";
  tmp_stale_after_seconds = 60 * 60;
  poll_interval_seconds = 0x4014000000000000;
  act_image = "lerobot-train-act:latest";
  smolvla_image = "lerobot-train-smolvla:latest";
  gcs_bucket = "lerobot-training-service-dev";
  firestore_database_id = "(default)";
  gcp_project_id = none;
  use_fake_adapters = false;
  use_gpu = true;
}

-- The clock, the archive and the upload, which no other part of the worker has.
pub record Outside (W : Type 0) : Type 0 where
  pub now : W → DateTime × W
  pub is_dir : String → W → Bool
  pub mkdir_parent : String → Exec W Error (Unit {0})
  pub sorted_rglob : String → W → List Found
  pub write_zip : String → List (String × String) → Exec W Error (Unit {0})
  pub upload_file : String → String → Exec W Error (Unit {0})
  -- A progress that was read, as a job holds it. Python stores the JSON values as they are; a job has
  -- numbers here, so what other values become is left open.
  pub as_progress : ReadProgress → Progress

-- The poller's settings, the monitor's, and what both call.
pub record WorkerDependencies (W : Type 0) : Type 0 where
  pub ports : Ports W
  pub poller : PollerConfig
  pub completion_monitor : MonitorConfig

module _ {W S C : Type 0} (settings : WorkerSettings) (sdk : Sdk W C) (site : Site W S)
    (reader : Reader W) (outside : Outside W) where
  abbrev as_read : Checked (Option ReadProgress) → Checked (Option Progress)
  as_read (ok read) = ok (Option.map outside.as_progress read)
  as_read (err e) = err e

  unfoldable pub build_worker_dependencies : WorkerDependencies W
  build_worker_dependencies = record {
    ports = record {
      now = outside.now;
      run = DockerRunner.run sdk;
      kill = DockerRunner.kill sdk;
      get_exit_code = DockerRunner.get_exit_code sdk;
      get_logs = λ container_id. DockerRunner.get_logs sdk container_id 50;
      rmtree = site.rmtree;
      fetch_for_job = fetch_for_job site settings.hf_cache_dir settings.hf_cache_max_bytes;
      read_progress =
          λ output_dir w. (as_read (ProgressReader.read_progress reader output_dir w), w);
      package_checkpoint = λ checkpoint_dir zip_path. (do
        package_checkpoint outside.is_dir outside.mkdir_parent outside.sorted_rglob
            outside.write_zip checkpoint_dir zip_path
        pure tt);
      upload_file = outside.upload_file;
    };
    poller = record {
      act_image = settings.act_image;
      smolvla_image = settings.smolvla_image;
      workdir = settings.workdir;
      use_gpu = settings.use_gpu;
    };
    completion_monitor = record { workdir = settings.workdir; upload_retries = 2 };
  }
