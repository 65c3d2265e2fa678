-- ===== src/Worker/Ports.antt =====
-- What the worker's loop calls: the clock, the Docker daemon, the file system, the dataset fetcher
-- and the object storage, over an abstract world `W` that the calls may change. A call may raise,
-- except for `shutil.rmtree(..., ignore_errors=True)` and the clock.
use phyai_saas_train_vla.Prelude.{String, Bool, Option, List, ℤ, Result, ok, Exec}
use phyai_saas_train_vla.Common.Models.{DateTime, Progress, Job}
use phyai_saas_train_vla.Common.Errors.{Error}
use phyai_saas_train_vla.Repository.Database.{Database}

-- ContainerSpec of common/ports/docker_client.py; dictionaries as their entries in order.
pub record ContainerSpec : Type 0 where
  pub image : String
  pub name : String
  pub command : List String
  pub volumes : List (String × String)
  pub environment : List (String × String)
  pub labels : List (String × String)
  pub use_gpu : Bool
  pub read_only_paths : List String

-- FetchedDataset of worker/dataset_fetcher.py.
pub record FetchedDataset : Type 0 where
  pub input_dir : String
  pub read_only : Bool

pub record Ports (W : Type 0) : Type 0 where
  pub now : W → DateTime × W
  pub run : ContainerSpec → Exec W Error String
  pub kill : String → Exec W Error (Unit {0})
  pub get_exit_code : String → Exec W Error (Option ℤ)
  pub get_logs : String → Exec W Error String
  pub rmtree : String → W → W
  pub fetch_for_job : Job → String → Exec W Error FetchedDataset
  pub read_progress : String → Exec W Error (Option Progress)
  pub package_checkpoint : String → String → Exec W Error (Unit {0})
  pub upload_file : String → String → Exec W Error (Unit {0})

-- The database that the worker shares with the backend, and the rest of the world.
pub record Host (W : Type 0) : Type 0 where
  pub db : Database
  pub world : W

abbrev pub Action : Type 0 → Type 0 → Type 0
Action W A = Exec (Host W) Error A

module _ {W : Type 0} where
  -- A call of a port: the database stays as it is.
  abbrev pub call : {A : Type 0} → Exec W Error A → Action W A
  call m h = let (r, w) = m h.world in (r, record h { world = w })

  abbrev pub effect : (W → W) → Action W (Unit {0})
  effect f h = (ok tt, record h { world = f h.world })

  abbrev pub clock : (W → DateTime × W) → Action W DateTime
  clock now h = let (t, w) = now h.world in (ok t, record h { world = w })

  -- A call under `try`: what it raised is handed to the handler as a value.
  abbrev pub attempt : {A : Type 0} → Exec W Error A → Action W (Result Error A)
  attempt m h = let (r, w) = m h.world in (ok r, record h { world = w })
