-- ===== src/Worker/WiringTests.antt =====
-- The worker as it is put together, where the hub lacks a dataset and a container is gone.
use phyai_saas_train_vla.Prelude.{
  format, ◌≡◌, refl, String, none, List, [], ◌∷◌, ok, err, text_eq, pos, contains,
}
use phyai_saas_train_vla.Common.Models.{hf_hub, Job}
use phyai_saas_train_vla.Common.Errors.{dataset_fetch, file_not_found, value_error}
use phyai_saas_train_vla.Samples.{waiting_job}
use phyai_saas_train_vla.Worker.DockerRunner.{Sdk, get_exit_code, not_found}
use phyai_saas_train_vla.Worker.DatasetFetcher.{Site, fetch_for_job, not_found_or_same}
use phyai_saas_train_vla.Worker.ProgressReader.{Reader, read_progress}
use phyai_saas_train_vla.Worker.Wiring.{
  Outside, WorkerDependencies, default_settings, build_worker_dependencies,
}

-- The world is the directories that exist.
abbrev World : Type 0
World = List String

abbrev sdk : Sdk World String
sdk = record {
  run = λ call w. (ok call.name, w);
  get = λ id w. (not_found, w);
  list = λ status label w. (ok [], w);
  kill = λ id w. (ok tt, w);
  reload = λ id w. (ok id, w);
  logs = λ id n w. (ok "", w);
  id = λ id. id;
  status = λ id. "exited";
  exit_code = λ id. pos 0;
  labels = λ id. [];
  mkdir = λ dir w. (ok tt, dir ∷ w);
  getuid = 1000;
  getgid = 1000;
}

abbrev site : Site World (Unit {0})
site = record {
  exists = λ path w. contains w path;
  touch = λ path w. (ok tt, w);
  mkdir = λ dir w. (ok tt, dir ∷ w);
  replace = λ from to w. (ok tt, to ∷ w);
  children = λ dir w. none;
  rmtree = λ path w. w;
  extractall = λ stream dir w. (ok tt, w);
  download_dataset = λ repo_id dir w. (err (file_not_found repo_id), dir ∷ w);
  open_read_stream = λ path w. (ok tt, w);
  delete = λ path w. (ok tt, w);
}

abbrev reader : Reader World
reader = record {
  exists = λ path w. contains w path;
  read_text = λ path w. err (file_not_found path);
  loads = λ text. err (value_error text);
  fromisoformat = λ text. err (value_error text);
}

abbrev outside : Outside World
outside = record {
  now = λ w. (90000000000, w);
  is_dir = λ path w. contains w path;
  mkdir_parent = λ path w. (ok tt, w);
  sorted_rglob = λ path w. [];
  write_zip = λ path files w. (ok tt, w);
  upload_file = λ path file w. (ok tt, w);
  as_progress =
      λ read. record { step = pos 0; total_steps = pos 0; loss = 0; updated_at = read.updated_at };
}

abbrev deps : WorkerDependencies World
deps = build_worker_dependencies default_settings sdk site reader outside

abbrev hub_job : Job
hub_job = record waiting_job { source_type = hf_hub; source_ref = "a/b" }

fetch_failed_run :
    (deps.ports.fetch_for_job hub_job "/jobs/j1" []).0
    ≡ err (dataset_fetch "HF Hub dataset not found: a/b")
unfolding build_worker_dependencies fetch_for_job not_found_or_same format
fetch_failed_run = refl

no_progress_run : (deps.ports.read_progress "/jobs/j1/output" []).0 ≡ ok none
unfolding build_worker_dependencies read_progress
no_progress_run = refl

gone_container_run : (deps.ports.get_exit_code "c1" []).0 ≡ ok none
unfolding build_worker_dependencies get_exit_code
gone_container_run = refl
