-- ===== src/Worker/JobPoller/Tick.antt =====
-- A poll cycle keeps the invariant: at most one job holds the training host.
use phyai_saas_train_vla.Prelude.{
  ◌≡◌, refl, String, Bool, true, false, none, some, List, [], ◌∷◌, arith, eq_refl, ok, err, Result,
  count_if, is_empty, if◌then◌else◌, All, count_if_mono, Option-cases, inl, inr, Bool-cases,
  continue, continue-pure,
}
use phyai_saas_train_vla.Dict
use phyai_saas_train_vla.Dict.{Dict, values, get-put}
use phyai_saas_train_vla.Dict.Keyed.{Stored}
use phyai_saas_train_vla.Common.Models.{
  queued, initializing, failed, status_eq, DateTime, date, User, Job,
}
use phyai_saas_train_vla.Common.Errors.{Error, dataset_fetch, user_missing}
use phyai_saas_train_vla.Common.StateMachine.{transition}
use phyai_saas_train_vla.Common.Quota.{record_job_started}
use phyai_saas_train_vla.Repository.Jobs
use phyai_saas_train_vla.Repository.Jobs.{
  job_id, has_status, list_by_statuses, list_by_statuses-Listing,
}
use phyai_saas_train_vla.Repository.Users
use phyai_saas_train_vla.Repository.Invariant.{IsSound, is_running, put-Follows, put-start}
use phyai_saas_train_vla.Worker.Ports.{Ports, Host, FetchedDataset}
use phyai_saas_train_vla.Worker.CancelWatcher.{process_cancellations, job_dir}
use phyai_saas_train_vla.Worker.CancelWatcher.Round.{process_cancellations-IsSound}
use phyai_saas_train_vla.Worker.JobPoller.{
  PollerConfig, active_container_statuses, fail_during_start, launched, fetched, start_job,
  start_next_queued_job, take_next, tick,
}

-- The job with which a start begins.
abbrev pub starting : DateTime → Job → Job
starting now job = record job { status = initializing; updated_at = now; heartbeat_at = some now }

pub transition-start :
    (now : DateTime) (job : Job)
    → job.status ≡ queued
    → transition job initializing now ≡ ok (record job { status = initializing; updated_at = now })
unfolding transition
transition-start now job q = ground arith

-- What the steps of a start need: the job is stored, and initializing.
record Starting (job : Job) (jobs : Dict Job) : Type 0 where
  initial : job.status ≡ initializing
  stored : Stored job_id jobs job
  sound : IsSound jobs

starting-Starting :
    (now : DateTime) (job : Job) (jobs : Dict Job)
    → job.status ≡ queued
    → Stored job_id jobs job
    → count_if is_running (values jobs) ≡ 0
    → IsSound jobs
    → Starting (starting now job) (Dict.put jobs job.id (starting now job))
starting-Starting now job jobs q s idle h = record {
  initial = refl;
  stored = simp (get-put, eq_refl);
  sound = put-start jobs job (starting now job) s refl refl (rw q) idle h;
}

count_if-is_empty : (p : Job → Bool) (xs : List Job) → is_empty xs ≡ true → count_if p xs ≡ 0
count_if-is_empty p [] e = refl
count_if-is_empty p (x ∷ xs) e = cc

-- Where no job is listed as initializing or training, none is.
idle-count :
    (jobs : Dict Job)
    → IsSound jobs
    → is_empty (list_by_statuses jobs active_container_statuses) ≡ true
    → count_if is_running (values jobs) ≡ 0
idle-count jobs s e = omega (
  arith,
  (list_by_statuses-Listing jobs active_container_statuses s.keyed).complete is_running,
  count_if-is_empty is_running (list_by_statuses jobs active_container_statuses) e,
  count_if_mono is_running
      (λ j. if has_status active_container_statuses j then is_running j else false) (values jobs)
      (λ j r. rw r),
)

is_queued : (job : Job) → has_status (queued ∷ []) job ≡ true → job.status ≡ queued
is_queued job h = ground arith

module _ {W : Type 0} (ports : Ports W) (config : PollerConfig) where
  -- Writing a job of the same owner and id that is initializing or over keeps the invariant.
  rewritten :
      (job next : Job) (jobs : Dict Job)
      → Starting job jobs
      → next.id ≡ job.id
      → next.user_id ≡ job.user_id
      → IsSound (Dict.put jobs next.id next)
  rewritten job next jobs s same_id same_user =
      put-Follows jobs job next s.stored
        (record {
          same_id = same_id;
          same_user = same_user;
          active = λ _. rw s.initial;
          running = λ _. rw s.initial;
        })
        s.sound

  fail_during_start-IsSound :
      (job : Job) (message : String) (h : Host W)
      → Starting job h.db.jobs
      → IsSound (fail_during_start ports config job message h).1.db.jobs
  unfolding fail_during_start Jobs.update transition
  fail_during_start-IsSound job message h s = rw s.initial (
      rewritten job
        (record job {
          status = failed;
          updated_at = (ports.now h.world).0;
          error_message = some message;
        })
        h.db.jobs s refl refl)

  launched-IsSound :
      (job : Job) (r : Result Error String) (h : Host W)
      → Starting job h.db.jobs
      → IsSound (launched ports config job r h).1.db.jobs
  unfolding launched Jobs.update
  launched-IsSound job (ok container_id) h s =
      rewritten job (record job { container_id = some container_id }) h.db.jobs s refl refl
  launched-IsSound job (err e) h s = fail_during_start-IsSound job _ h s

  fetched-IsSound :
      (job : Job) (r : Result Error FetchedDataset) (h : Host W)
      → Starting job h.db.jobs
      → IsSound (fetched ports config job r h).1.db.jobs
  unfolding fetched
  fetched-IsSound job (ok dataset) h s = launched-IsSound job _ _ s
  fetched-IsSound job (err (dataset_fetch message)) h s = fail_during_start-IsSound job _ h s
  fetched-IsSound job (err _) h s = s.sound

  -- The time of a start, the dataset fetch that follows, and the host once the start is recorded.
  module _ (job : Job) (h : Host W) where
    abbrev pub started_at : DateTime
    started_at = (ports.now h.world).0

    abbrev pub fetch : Result Error FetchedDataset × W
    fetch =
        ports.fetch_for_job (starting started_at job)
          (job_dir config.workdir (starting started_at job)) (ports.now h.world).1

    abbrev pub recorded : User → Host W
    recorded user = record {
      db = record {
        users = Users.update h.db.users (record_job_started user (date started_at));
        jobs = Jobs.update h.db.jobs (starting started_at job);
      };
      world = fetch.1;
    }

    pub start_job-missing :
        (others : List Job)
        → Users.get h.db.users job.user_id ≡ none
        → start_job ports config (job ∷ others) h
          ≡ (err (user_missing job.user_id), record h { world = (ports.now h.world).1 })
    unfolding start_job
    start_job-missing others missing = ground (arith, missing)

    pub start_job-found :
        (others : List Job) (user : User)
        → Users.get h.db.users job.user_id ≡ some user
        → job.status ≡ queued
        → (start_job ports config (job ∷ others) h).1
          ≡ (fetched ports config (starting started_at job) fetch.0 (recorded user)).1
    unfolding start_job
    start_job-found others user found q =
        rw (found, transition-start started_at job q)
          (continue-pure (fetched ports config (starting started_at job) fetch.0 (recorded user)).0
            some (fetched ports config (starting started_at job) fetch.0 (recorded user)).1)

  start_job-IsSound :
      (job : Job) (others : List Job) (h : Host W)
      → job.status ≡ queued
      → Stored job_id h.db.jobs job
      → count_if is_running (values h.db.jobs) ≡ 0
      → IsSound h.db.jobs
      → IsSound (start_job ports config (job ∷ others) h).1.db.jobs
  start_job-IsSound job others h q s idle sound =
      elim (Option-cases (Users.get h.db.users job.user_id)) [
        | inl missing ↦ rw (start_job-missing job h others missing) sound
        | inr (user, found) ↦ rw (start_job-found job h others user found q) (
            fetched-IsSound (starting (started_at job h) job) (fetch job h).0 (recorded job h user)
              (unfold Jobs.update in
                starting-Starting (started_at job h) job h.db.jobs q s idle sound))
      ]

  start_all_listed :
      (listed : List Job) (h : Host W)
      → All (λ j. has_status (queued ∷ []) j ≡ true) listed
      → All (Stored job_id h.db.jobs) listed
      → count_if is_running (values h.db.jobs) ≡ 0
      → IsSound h.db.jobs
      → IsSound (start_job ports config listed h).1.db.jobs
  unfolding start_job
  start_all_listed [] h q s idle sound = sound
  start_all_listed (job ∷ others) h q s idle sound =
      start_job-IsSound job others h (is_queued job q.0) s.0 idle sound

  take_next-IsSound :
      (h : Host W) → IsSound h.db.jobs → IsSound (take_next ports config h).1.db.jobs
  unfolding take_next start_next_queued_job
  take_next-IsSound h s =
      elim (Bool-cases (is_empty (list_by_statuses h.db.jobs active_container_statuses))) [
        | inl idle ↦
            let listing = list_by_statuses-Listing h.db.jobs (queued ∷ []) s.keyed in
            rw idle (
              start_all_listed (list_by_statuses h.db.jobs (queued ∷ [])) h listing.in_statuses
                listing.stored (idle-count h.db.jobs s idle) s)
        | inr busy ↦ rw busy s
      ]

  continue-IsSound :
      (r : Result Error (List Job)) (h : Host W)
      → IsSound h.db.jobs
      → IsSound (continue r (λ _. take_next ports config) h).1.db.jobs
  continue-IsSound (ok _) h s = take_next-IsSound h s
  continue-IsSound (err e) h s = s

  -- A poll cycle keeps the invariant of the stored jobs, on every path and also where a call raises:
  -- in particular it never starts a job while another one is initializing or training.
  pub tick-IsSound : (h : Host W) → IsSound h.db.jobs → IsSound (tick ports config h).1.db.jobs
  unfolding tick
  tick-IsSound h s =
      let (r, h') = process_cancellations ports config.workdir h in
      continue-IsSound r h' (process_cancellations-IsSound ports config.workdir h s)
