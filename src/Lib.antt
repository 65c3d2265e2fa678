-- ===== src/Lib.antt =====
-- The LeRobot training service: a backend that takes in datasets and training jobs, and a worker
-- that trains the jobs one at a time in a container on a host with one GPU. Both parts share a
-- database of users and jobs; neither calls the other. Backend services answer requests and sweep
-- jobs whose heartbeat is old; the worker polls the database, carries out requests to cancel, starts
-- the oldest queued job, and follows the job that runs.
--
-- The modules follow the source, paths from the root of the repository:
--   Prelude, Dict      shared notation, lists, a stable sort, results and state, ordered dictionaries
--   Common/Json        the values of Python's json
--   Common/Models      src/common/models.py; date-times are microseconds, floats their 64 bits (Float)
--   Common/Errors      every exception that a modelled operation raises, with its text
--   Common/StateMachine, Quota, Heartbeat, Limits, Validation, PolicyShapes
--                      src/common/domain/job_state_machine.py, quota.py, heartbeat.py, limits.py,
--                      dataset_validation.py, policy_shapes.py
--   Repository         src/backend/adapters/memory.py: the user and job repositories; Invariant has
--                      the invariant of the stored jobs, Sweep the loops that rewrite listed jobs
--   Repository/Firestore
--                      src/backend/adapters/firestore/job_repository.py, user_repository.py: the
--                      document codecs (Codec, RoundTrip) and the repositories (Jobs, Users) over a
--                      client that is a parameter, beside the in-memory ones (JobRefinement, JobRun,
--                      Listings, UserRefinement); Local is such a client over a dictionary
--   Backend/JobService, TimeoutService
--                      src/backend/services/job_service.py, timeout_service.py
--   Backend/AuthService
--                      src/backend/services/auth_service.py, src/backend/security/password.py; bcrypt,
--                      the captcha verdict and the OAuth exchange are parameters
--   Backend/UploadService
--                      src/backend/services/upload_service.py; storage, hub, zipfile and json.loads are
--                      parameters
--   Backend/Security   src/backend/security/jwt_tokens.py and the guards of src/backend/deps.py; the
--                      JWT package is a parameter
--   Backend/Api        src/backend/api/jobs.py, uploads.py, auth.py, internal.py, and the exception table
--                      of src/backend/main.py
--   Backend/Storage    the storage and the hub of src/backend/adapters/memory.py, and
--                      src/backend/api/dev_storage.py
--   Worker/Ports       what the worker calls: Docker, files, clock, fetcher, storage, as a record of
--                      functions over an abstract world
--   Worker/CancelWatcher, JobPoller, Heartbeat, JobCompletion
--                      src/worker/cancel_watcher.py, job_poller.py, heartbeat_updater.py,
--                      job_completion.py
--   Worker/DiskManager, DatasetFetcher
--                      src/worker/disk_manager.py, dataset_fetcher.py
--   Worker/Lock, OrphanReconciler
--                      src/worker/lock.py, orphan_reconciler.py; the calls of the system and of Docker
--                      are parameters with what is documented of them
--   Worker/DockerRunner
--                      src/worker/docker_runner.py over docker-py, which is a parameter; Contract has
--                      what is documented of it, and the reconciler over it
--   Worker/ProgressReader
--                      src/worker/progress_reader.py, checkpoint_packager.py; Shared joins the reader
--                      with the training program that writes the file
--   Worker/Wiring      src/worker/config.py, deps.py: the settings, and the ports made of these parts
--   Worker/Main        src/worker/main.py: a round of the loop, and in Process the process from its lock
--                      to its end
--   System             the steps of backend and worker on one database in any order
--   Training           docker/act/train_entrypoint.py, docker/smolvla/train_entrypoint.py, over a trainer
--                      that is a parameter; Timing has what its calls take
--
-- A function that may raise returns `Result`; one that writes the database or the world takes and
-- returns a state, and what was written before an exception stays written. Readings of the clock
-- and new ids are arguments in the backend, and calls of the ports in the worker. A Python
-- dictionary keeps the order of insertion, and a sort is stable. Loops go over a list or count down
-- from a number; the worker's loop without end is cut off after any number of rounds. Printing a
-- number may take as many rounds as its value and one more, and takes one for each digit.
--
-- Not modelled: routing, request parsing and CORS, which are FastAPI's; the wiring of the backend
-- and its settings, and the choice of adapters in both; the adapters of Google storage, the model
-- hub, its login and reCAPTCHA, which only call other services; docker-py; what torch and lerobot
-- do. The numbers of a job's progress have types, where Python would store any JSON value of the
-- progress file; the reader keeps the values as they are. The worker's loop stands on Worker/Ports, which Worker/Wiring fills. A document write is
-- atomic here, and two operations of backend and worker do not overlap.
pub mod Prelude
pub mod Dict
mod Samples
pub mod Common
pub mod Repository
pub mod Backend
pub mod Training
pub mod Worker
pub mod System
