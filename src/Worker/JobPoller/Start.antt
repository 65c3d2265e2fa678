-- ===== src/Worker/JobPoller/Start.antt =====
-- What a start does to the job and to its owner's quota, on each of its ways out.
use phyai_saas_train_vla.Prelude.{
  ◌≡◌, refl, String, Option, some, List, [], ◌∷◌, arith, eq_iff, ok, err, Result, continue, pure,
  format,
}
use phyai_saas_train_vla.Dict
use phyai_saas_train_vla.Dict.{Dict, get-put}
use phyai_saas_train_vla.Common.Models.{queued, initializing, failed, DateTime, date, User, Job}
use phyai_saas_train_vla.Common.Errors.{Error, error_text, dataset_fetch}
use phyai_saas_train_vla.Common.StateMachine.{transition}
use phyai_saas_train_vla.Common.Quota.{record_job_started}
use phyai_saas_train_vla.Repository.Jobs
use phyai_saas_train_vla.Repository.Users
use phyai_saas_train_vla.Worker.Ports.{FetchedDataset, Ports, Host}
use phyai_saas_train_vla.Worker.CancelWatcher.{job_dir}
use phyai_saas_train_vla.Worker.JobPoller.{
  PollerConfig, build_container_spec, fail_during_start, launched, fetched, start_job,
}
use phyai_saas_train_vla.Worker.JobPoller.Tick.{
  starting, started_at, fetch, recorded, transition-start,
}

-- A job that failed while it was being started.
abbrev pub failed_at : DateTime → String → Job → Job
failed_at now message job = record job {
  status = failed;
  updated_at = now;
  error_message = some message;
}

module _ {W : Type 0} (ports : Ports W) (config : PollerConfig) where
  fail_during_start-eq :
      (job : Job) (message : String) (h : Host W)
      → job.status ≡ initializing
      → fail_during_start ports config job message h ≡ (
        ok (failed_at (ports.now h.world).0 message job),
        record {
          db = record h.db {
            jobs = Jobs.update h.db.jobs (failed_at (ports.now h.world).0 message job);
          };
          world = (ports.now h.world).1;
        },
      )
  unfolding fail_during_start transition
  fail_during_start-eq job message h s = ground (arith, s)

  module _ (job : Job) (others : List Job) (user : User) (h : Host W)
      (found : Users.get h.db.users job.user_id ≡ some user) (q : job.status ≡ queued) where
    abbrev begun : Job
    begun = starting (started_at ports config job h) job

    abbrev result : Result Error (Option Job) × Host W
    result = start_job ports config (job ∷ others) h

    abbrev after_fetch : Host W
    after_fetch = recorded ports config job h user

    start_job-eq : result ≡ (
        let (r, h') = fetched ports config begun (fetch ports config job h).0 after_fetch in
        continue r (λ started. pure (some started)) h')
    unfolding start_job
    start_job-eq = rw (found, transition-start (started_at ports config job h) job q)

    -- The attempt to run the container, once the dataset is there.
    abbrev pub launch : FetchedDataset → Result Error String × W
    launch dataset =
        ports.run (build_container_spec config begun (job_dir config.workdir begun) dataset)
          after_fetch.world

    -- The ways out of a start: what was returned or raised, and the job as it is stored then.
    pub data Outcome : Type 0 where
      runs :
          (dataset : FetchedDataset) (container_id : String)
          → (fetch ports config job h).0 ≡ ok dataset
          → (launch dataset).0 ≡ ok container_id
          → result.0 ≡ ok (some (record begun { container_id = some container_id }))
          → Dict.get result.1.db.jobs job.id
            ≡ some (record begun { container_id = some container_id })
          → Outcome
      no_container :
          (dataset : FetchedDataset) (e : Error) (now : DateTime)
          → (fetch ports config job h).0 ≡ ok dataset
          → (launch dataset).0 ≡ err e
          → result.0
            ≡ ok (
                some (
                  failed_at now
                    (format ("Failed to start training container: " ∷ error_text e ∷ []))
                    begun))
          → Dict.get result.1.db.jobs job.id
            ≡ some (
                failed_at now
                  (format ("Failed to start training container: " ∷ error_text e ∷ []))
                  begun)
          → Outcome
      no_dataset :
          (message : String) (now : DateTime)
          → (fetch ports config job h).0 ≡ err (dataset_fetch message)
          → result.0
            ≡ ok (some (failed_at now (format ("Failed to fetch dataset: " ∷ message ∷ [])) begun))
          → Dict.get result.1.db.jobs job.id
            ≡ some (failed_at now (format ("Failed to fetch dataset: " ∷ message ∷ [])) begun)
          → Outcome
      fetch_raised :
          (e : Error)
          → (fetch ports config job h).0 ≡ err e
          → result.0 ≡ err e
          → Dict.get result.1.db.jobs job.id ≡ some begun
          → Outcome

    abbrev failing : String → Host W → Result Error (Option Job) × Host W
    failing message h1 = (
      ok (some (failed_at (ports.now h1.world).0 message begun)),
      record {
        db = record h1.db {
          jobs = Jobs.update h1.db.jobs (failed_at (ports.now h1.world).0 message begun);
        };
        world = (ports.now h1.world).1;
      },
    )

    abbrev after_launch : FetchedDataset → Host W
    after_launch dataset = record after_fetch { world = (launch dataset).1 }

    no_dataset-eq :
        (message : String)
        → (fetch ports config job h).0 ≡ err (dataset_fetch message)
        → result ≡ failing (format ("Failed to fetch dataset: " ∷ message ∷ [])) after_fetch
    unfolding fetched
    no_dataset-eq message e =
        rw start_job-eq (rw e (rw (fail_during_start-eq begun _ after_fetch refl)))

    no_container-eq :
        (dataset : FetchedDataset) (x : Error)
        → (fetch ports config job h).0 ≡ ok dataset
        → (launch dataset).0 ≡ err x
        → result
          ≡ failing
              (format ("Failed to start training container: " ∷ error_text x ∷ []))
              (after_launch dataset)
    unfolding fetched launched
    no_container-eq dataset x e f =
        rw start_job-eq
          (rw e (rw f (rw (fail_during_start-eq begun _ (after_launch dataset) refl))))

    runs-eq :
        (dataset : FetchedDataset) (id : String)
        → (fetch ports config job h).0 ≡ ok dataset
        → (launch dataset).0 ≡ ok id
        → result ≡ (
          ok (some (record begun { container_id = some id })),
          record (after_launch dataset) {
            db = record after_fetch.db {
              jobs = Jobs.update after_fetch.db.jobs (record begun { container_id = some id });
            };
          },
        )
    unfolding fetched launched
    runs-eq dataset id e f = rw start_job-eq (rw e (rw f))

    stored_next :
        (jobs : Dict Job) (next : Job)
        → next.id ≡ job.id
        → Dict.get (Jobs.update jobs next) job.id ≡ some next
    unfolding Jobs.update
    stored_next jobs next e =
        ground (arith, get-put jobs next.id job.id next, eq_iff next.id job.id)

    abbrev charged : Dict User
    charged =
        Users.update h.db.users (record_job_started user (date (started_at ports config job h)))

    Ending : Type 0
    Ending = (result.1.db.users ≡ charged) × Outcome

    raised-eq :
        (x : Error)
        → (fetch ports config job h).0 ≡ err x
        → fetched ports config begun (err x) after_fetch ≡ (err x, after_fetch)
        → result ≡ (err x, after_fetch)
    raised-eq x e f = rw start_job-eq (rw e (rw f))

    ending_raised :
        (x : Error)
        → (fetch ports config job h).0 ≡ err x
        → fetched ports config begun (err x) after_fetch ≡ (err x, after_fetch)
        → Ending
    unfolding Ending
    ending_raised x e f =
        let r = raised-eq x e f in
        (rw r, fetch_raised x e (rw r) (rw r (stored_next h.db.jobs begun refl)))

    ending_launch :
        (dataset : FetchedDataset)
        → (fetch ports config job h).0 ≡ ok dataset
        → (l : Result Error String) → (launch dataset).0 ≡ l
        → Ending
    unfolding Ending
    ending_launch dataset e (ok id) f =
        let r = runs-eq dataset id e f in
        (
          rw r,
          runs dataset id e f (rw r)
              (rw r (stored_next _ (record begun { container_id = some id }) refl)),
        )
    ending_launch dataset e (err x) f =
        let r = no_container-eq dataset x e f in
        (
          rw r,
          no_container dataset x (ports.now (launch dataset).1).0 e f (rw r)
              (rw r (stored_next _ _ refl)),
        )

    ending_fetch : (r : Result Error FetchedDataset) → (fetch ports config job h).0 ≡ r → Ending
    unfolding Ending fetched
    ending_fetch (ok dataset) e = ending_launch dataset e (launch dataset).0 refl
    ending_fetch (err (dataset_fetch message)) e =
        let r = no_dataset-eq message e in
        (
          rw r,
          no_dataset message (ports.now after_fetch.world).0 e (rw r) (rw r (stored_next _ _ refl)),
        )
    ending_fetch (err x) e = ending_raised x e refl

    pub start_job_exact : (result.1.db.users ≡ charged) × Outcome
    unfolding Ending
    start_job_exact = ending_fetch (fetch ports config job h).0 refl
