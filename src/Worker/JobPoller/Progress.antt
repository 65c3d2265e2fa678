-- ===== src/Worker/JobPoller/Progress.antt =====
-- The queue moves: a poll cycle on a free host takes the oldest queued job.
use phyai_saas_train_vla.Prelude.{◌≡◌, ◌≢◌, refl, some, List, [], ◌∷◌, false, All, ok, arith}
use phyai_saas_train_vla.Dict
use phyai_saas_train_vla.Dict.{Dict}
use phyai_saas_train_vla.Dict.Keyed.{IsKeyed}
use phyai_saas_train_vla.Common.Models.{queued, status_eq, status_eq_iff, date, DateTime, User, Job}
use phyai_saas_train_vla.Common.Quota.{record_job_started}
use phyai_saas_train_vla.Repository.Jobs
use phyai_saas_train_vla.Repository.Jobs.{job_id, has_status, list_by_statuses-Listing}
use phyai_saas_train_vla.Repository.Users
use phyai_saas_train_vla.Worker.Ports.{Ports, Host}
use phyai_saas_train_vla.Worker.CancelWatcher.{
  cancellable_statuses, cancel_all, process_cancellations,
}
use phyai_saas_train_vla.Worker.JobPoller.{
  PollerConfig, active_container_statuses, start_job, start_next_queued_job, take_next, tick,
}
use phyai_saas_train_vla.Worker.JobPoller.Start.{
  Outcome, runs, no_container, no_dataset, fetch_raised, start_job_exact,
}

module _ {W : Type 0} (ports : Ports W) (config : PollerConfig) where
  cancel_all-none :
      (now : DateTime) (listed : List Job) (h : Host W)
      → All (λ (job : Job). job.cancel_requested ≡ false) listed
      → cancel_all ports config.workdir now listed h ≡ (ok [], h)
  unfolding cancel_all
  cancel_all-none now [] h quiet = refl
  cancel_all-none now (job ∷ rest) h quiet = rw (quiet.0) (cancel_all-none now rest h quiet.1)

  module _ (h : Host W) where
    -- The host once the round of cancellations has read the clock.
    abbrev pub polled : Host W
    polled = record h { world = (ports.now h.world).1 }

    -- What a cycle leaves of the job that it takes.
    pub record Taken (job : Job) (user : User) (left : Host W) : Type 0 where
      pub next : Job
      pub stored : Dict.get left.db.jobs job.id ≡ some next
      pub not_queued : next.status ≢ queued
      pub charged :
          left.db.users
          ≡ Users.update h.db.users (record_job_started user (date (ports.now polled.world).0))

    tick-start :
        (job : Job) (others : List Job)
        → All
            (λ (job : Job). job.cancel_requested ≡ false)
            (Jobs.list_by_statuses h.db.jobs cancellable_statuses)
        → Jobs.list_by_statuses h.db.jobs active_container_statuses ≡ []
        → Jobs.list_by_statuses h.db.jobs (queued ∷ []) ≡ job ∷ others
        → tick ports config h ≡ start_job ports config (job ∷ others) polled
    unfolding tick take_next start_next_queued_job process_cancellations
    tick-start job others quiet free waiting =
        rw
          (
            cancel_all-none (ports.now h.world).0
                (Jobs.list_by_statuses h.db.jobs cancellable_statuses) polled quiet,
            free,
            waiting,
          )
          refl

    head_queued :
        (job : Job) (others : List Job)
        → IsKeyed job_id h.db.jobs
        → Jobs.list_by_statuses h.db.jobs (queued ∷ []) ≡ job ∷ others
        → job.status ≡ queued
    head_queued job others keyed waiting =
        let listing = list_by_statuses-Listing h.db.jobs (queued ∷ []) keyed in
        let first = (rw waiting at listing.in_statuses) in
        ground (arith, first.0, status_eq_iff job.status queued)

    outcome-Taken :
        (job : Job) (others : List Job) (user : User)
        (found : Users.get h.db.users job.user_id ≡ some user) (q : job.status ≡ queued)
        → Outcome ports config job others user polled found q
        → (start_job ports config (job ∷ others) polled).1.db.users
          ≡ Users.update h.db.users (record_job_started user (date (ports.now polled.world).0))
        → Taken job user (start_job ports config (job ∷ others) polled).1
    outcome-Taken job others user found q (runs dataset id e f r stored) charged = record {
      next = _;
      stored = stored;
      not_queued = λ x. cc;
      charged = charged;
    }
    outcome-Taken job others user found q (no_container dataset x now e f r stored) charged =
        record { next = _; stored = stored; not_queued = λ x. cc; charged = charged }
    outcome-Taken job others user found q (no_dataset message now e r stored) charged = record {
      next = _;
      stored = stored;
      not_queued = λ x. cc;
      charged = charged;
    }
    outcome-Taken job others user found q (fetch_raised x e r stored) charged = record {
      next = _;
      stored = stored;
      not_queued = λ x. cc;
      charged = charged;
    }

    -- On a host where no job is initializing or training and no request to cancel waits, a poll cycle
    -- takes the oldest queued job, if its user is known: whatever the dataset fetch and the start of the
    -- container do, and also where they raise, the job is stored as no longer queued and its owner is
    -- charged.
    pub tick-Taken :
        (job : Job) (others : List Job) (user : User)
        → IsKeyed job_id h.db.jobs
        → All
            (λ (job : Job). job.cancel_requested ≡ false)
            (Jobs.list_by_statuses h.db.jobs cancellable_statuses)
        → Jobs.list_by_statuses h.db.jobs active_container_statuses ≡ []
        → Jobs.list_by_statuses h.db.jobs (queued ∷ []) ≡ job ∷ others
        → Users.get h.db.users job.user_id ≡ some user
        → Taken job user (tick ports config h).1
    tick-Taken job others user keyed quiet free waiting found =
        let q = head_queued job others keyed waiting in
        let (charged, outcome) = start_job_exact ports config job others user polled found q in
        rw (tick-start job others quiet free waiting)
          (outcome-Taken job others user found q outcome charged)
