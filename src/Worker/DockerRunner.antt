-- ===== src/Worker/DockerRunner.antt =====
-- worker/docker_runner.py: the Docker client of the worker over docker-py, which is a parameter, as
-- are the numbers of the user and the decoding of logs.
pub mod Contract
use phyai_saas_train_vla.Prelude.{
  ℕ, String, Bool, true, false, Option, none, some, List, [], ◌∷◌, map, contains, Result, ok, err,
  Exec, pure, raise, ◌>>=◌, ◌>>◌, ℤ, format, show_nat, ◌==◌, text_eq, if◌then◌else◌,
}
use phyai_saas_train_vla.Dict
use phyai_saas_train_vla.Common.Errors.{Error}
use phyai_saas_train_vla.Worker.Ports.{ContainerSpec}
use phyai_saas_train_vla.Worker.JobPoller.{lerobot_job_id_label}
use phyai_saas_train_vla.Worker.OrphanReconciler.{Docker}

-- What `containers.run` is called with; a volume is its path in the container and its mode.
pub record RunCall : Type 0 where
  pub image : String
  pub command : List String
  pub name : String
  pub volumes : List (String × (String × String))
  pub environment : List (String × String)
  pub labels : List (String × String)
  -- `DeviceRequest(count=-1, capabilities=[["gpu"]])`, or `None`
  pub all_gpus : Bool
  pub user : String
  pub detach : Bool

-- `docker.errors.NotFound`, or another exception.
pub data Lookup (C : Type 0) : Type 0 where
  found : C → Lookup C
  not_found : Lookup C
  raised : Error → Lookup C

-- docker-py over a world `W`, with containers `C` as they were when they were last loaded.
pub record Sdk (W C : Type 0) : Type 0 where
  pub run : RunCall → Exec W Error C
  pub get : String → W → Lookup C × W
  -- `containers.list` with the filters on status and label
  pub list : (status label : String) → Exec W Error (List C)
  pub kill : C → Exec W Error (Unit {0})
  pub reload : C → Exec W Error C
  pub logs : C → ℕ → Exec W Error String
  pub id : C → String
  pub status : C → String
  pub exit_code : C → ℤ
  pub labels : C → List (String × String)
  pub mkdir : String → Exec W Error (Unit {0})
  pub getuid : ℕ
  pub getgid : ℕ

-- `{host: {"bind": ..., "mode": ...} for host, container_path in spec.volumes.items()}`
abbrev pub mounts : List String → List (String × String) → List (String × (String × String))
mounts read_only [] = []
mounts read_only ((host, container_path) ∷ volumes) =
    (host, (container_path, (if contains read_only host then "ro" else "rw")))
    ∷ mounts read_only volumes

module _ {W C : Type 0} (sdk : Sdk W C) where
  abbrev pub make_each : List (String × String) → Exec W Error (Unit {0})
  make_each [] = pure tt
  make_each ((host, container_path) ∷ volumes) = do sdk.mkdir host; make_each volumes

  unfoldable pub run : ContainerSpec → Exec W Error String
  run spec = do
    make_each spec.volumes
    container ← sdk.run (record {
      image = spec.image;
      command = spec.command;
      name = spec.name;
      volumes = mounts spec.read_only_paths spec.volumes;
      environment = spec.environment;
      labels = spec.labels;
      all_gpus = spec.use_gpu;
      user = format (show_nat sdk.getuid ∷ ":" ∷ show_nat sdk.getgid ∷ []);
      detach = true;
    })
    pure (sdk.id container)

  -- A lookup under `try`: `absent` where the container is not found.
  abbrev pub with_container : {A : Type 0} → A → (C → Exec W Error A) → Lookup C → Exec W Error A
  with_container absent f (found container) = f container
  with_container absent f not_found = pure absent
  with_container absent f (raised e) = raise e

  abbrev pub looked_up : {A : Type 0} → String → A → (C → Exec W Error A) → Exec W Error A
  looked_up container_id absent f w =
      let (l, w') = sdk.get container_id w in with_container absent f l w'

  unfoldable pub kill : String → Exec W Error (Unit {0})
  kill container_id = looked_up container_id tt sdk.kill

  unfoldable pub is_running : String → Exec W Error Bool
  is_running container_id =
      looked_up container_id false
        (λ container. do loaded ← sdk.reload container; pure (sdk.status loaded == "running"))

  unfoldable pub get_exit_code : String → Exec W Error (Option ℤ)
  get_exit_code container_id = looked_up container_id none (λ container. do
    loaded ← sdk.reload container
    pure (if sdk.status loaded == "running" then none else some (sdk.exit_code loaded)))

  unfoldable pub get_logs : String → ℕ → Exec W Error String
  get_logs container_id tail_lines =
      looked_up container_id "" (λ container. sdk.logs container tail_lines)

  unfoldable pub list_running_container_ids : Exec W Error (List String)
  list_running_container_ids = do
    containers ← sdk.list "running" lerobot_job_id_label
    pure (map sdk.id containers)

  unfoldable pub get_label : String → String → Exec W Error (Option String)
  get_label container_id label =
      looked_up container_id none (λ container. pure (Dict.get (sdk.labels container) label))

  -- The calls that the reconciler makes.
  abbrev pub runner : Docker W
  runner = record { list_running_container_ids = list_running_container_ids; kill = kill }
