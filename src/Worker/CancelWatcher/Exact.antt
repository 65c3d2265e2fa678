-- ===== src/Worker/CancelWatcher/Exact.antt =====
-- What a round of cancellations changes.
use phyai_saas_train_vla.Prelude.{
  ◌≡◌, String, Bool, true, false, ◌&&◌, Option, none, some, List, [], ◌∷◌, arith, ok, err, All,
  if◌then◌else◌, inl, inr, Bool-cases, Result, continue, continue-pure, pure, Result-cases,
}
use phyai_saas_train_vla.Dict
use phyai_saas_train_vla.Dict.{Dict}
use phyai_saas_train_vla.Dict.Keyed.{Stored, IsDistinct}
use phyai_saas_train_vla.Common.Models.{cancelled, DateTime, Job}
use phyai_saas_train_vla.Common.Errors.{Error}
use phyai_saas_train_vla.Common.Quota.{is_active}
use phyai_saas_train_vla.Common.StateMachine.{transition}
use phyai_saas_train_vla.Repository.Jobs.{job_id, update}
use phyai_saas_train_vla.Repository.Sweep.{KeepsId, write, All-Stored-write}
use phyai_saas_train_vla.Repository.Invariant.{IsSound, Follows, update_each-IsSound}
use phyai_saas_train_vla.Worker.Ports.{Ports, Host}
use phyai_saas_train_vla.Worker.CancelWatcher.{stop, cancel_all}

-- A job as the round leaves it.
abbrev pub cancelled_at : DateTime → Job → Job
cancelled_at now job = record job { status = cancelled; updated_at = now }

-- An active job that its owner asked to cancel.
abbrev pub is_asked : Job → Bool
is_asked job = is_active job && job.cancel_requested

abbrev pub asked : DateTime → Job → Option Job
asked now job = if is_asked job then some (cancelled_at now job) else none

asked-Follows : (now : DateTime) (job next : Job) → asked now job ≡ some next → Follows job next
asked-Follows now job next h = ground arith

pub asked-KeepsId : (now : DateTime) → KeepsId (asked now)
asked-KeepsId now job next h = (asked-Follows now job next h).same_id

transition-cancelled :
    (now : DateTime) (job : Job)
    → is_active job ≡ true
    → transition job cancelled now ≡ ok (cancelled_at now job)
unfolding transition
transition-cancelled now job h = ground arith

-- What is known of the jobs that the loop has still to visit.
pub record Pending (listed : List Job) (jobs : Dict Job) : Type 0 where
  pub active : All (λ j. is_active j ≡ true) listed
  pub stored : All (Stored job_id jobs) listed
  pub distinct : IsDistinct job_id listed

pub Pending-next :
    (now : DateTime) (job : Job) (rest : List Job) (jobs : Dict Job)
    → Pending (job ∷ rest) jobs
    → Pending rest (write (asked now job) jobs)
Pending-next now job rest jobs p = record {
  active = p.active.1;
  stored = All-Stored-write (asked now) (asked-KeepsId now) job jobs rest p.distinct.0 p.stored.1;
  distinct = p.distinct.1;
}

pub Pending-skip :
    (job : Job) (rest : List Job) (jobs : Dict Job) → Pending (job ∷ rest) jobs → Pending rest jobs
Pending-skip job rest jobs p = record {
  active = p.active.1;
  stored = p.stored.1;
  distinct = p.distinct.1;
}

write-asked :
    (now : DateTime) (job : Job) (rest : List Job) (jobs : Dict Job)
    → Pending (job ∷ rest) jobs
    → IsSound jobs
    → IsSound (write (asked now job) jobs)
write-asked now job rest jobs p s =
    update_each-IsSound (asked now) (asked-Follows now) (job ∷ []) jobs (p.stored.0, tt) (tt, tt) s

module _ {W : Type 0} (ports : Ports W) (workdir : String) where
  pub stop-db : (job : Job) (h : Host W) → (stop ports workdir job h).1.db ≡ h.db
  unfolding stop
  stop-db job h = ground arith

  -- The host after a job was written as cancelled.
  abbrev pub written : DateTime → Job → Host W → Host W
  written now job h = record h {
    db = record h.db { jobs = Dict.put h.db.jobs job.id (cancelled_at now job) };
  }

  module _ (now : DateTime) (job : Job) (rest : List Job) (h : Host W) where
    pub cancel_all-skip :
        job.cancel_requested ≡ false
        → cancel_all ports workdir now (job ∷ rest) h ≡ cancel_all ports workdir now rest h
    unfolding cancel_all
    cancel_all-skip no_request = ground arith

    cancel_all-raise :
        (e : Error)
        → job.cancel_requested ≡ true
        → (stop ports workdir job h).0 ≡ err e
        → cancel_all ports workdir now (job ∷ rest) h ≡ (err e, (stop ports workdir job h).1)
    unfolding cancel_all
    cancel_all-raise e request raised = ground arith

    abbrev pub later : Result Error (List Job) × Host W
    later = cancel_all ports workdir now rest (written now job (stop ports workdir job h).1)

    pub cancel_all-next :
        (u : Unit {0})
        → job.cancel_requested ≡ true
        → is_active job ≡ true
        → (stop ports workdir job h).0 ≡ ok u
        → cancel_all ports workdir now (job ∷ rest) h
          ≡ continue later.0 (λ more. pure (cancelled_at now job ∷ more)) later.1
    unfolding cancel_all update
    cancel_all-next u request active stopped = ground (arith, transition-cancelled now job)

    pub written-jobs :
        job.cancel_requested ≡ true
        → is_active job ≡ true
        → (written now job (stop ports workdir job h).1).db.jobs ≡ write (asked now job) h.db.jobs
    written-jobs request active = rw (stop-db job h) (ground arith)

    pub unasked : job.cancel_requested ≡ false → write (asked now job) h.db.jobs ≡ h.db.jobs
    unasked no_request = ground arith

  pub cancel_all-IsSound :
      (now : DateTime) (listed : List Job) (h : Host W)
      → Pending listed h.db.jobs
      → IsSound h.db.jobs
      → IsSound (cancel_all ports workdir now listed h).1.db.jobs
  unfolding cancel_all
  cancel_all-IsSound now [] h p s = s
  cancel_all-IsSound now (job ∷ rest) h p s = elim (Bool-cases job.cancel_requested) [
    | inr no_request ↦
        rw (cancel_all-skip now job rest h no_request)
          (cancel_all-IsSound now rest h (Pending-skip job rest h.db.jobs p) s)
    | inl request ↦ elim (Result-cases (stop ports workdir job h).0) [
      | inr (e, raised) ↦
          rw (cancel_all-raise now job rest h e request raised) (rw (stop-db job h) s)
      | inl (u, stopped) ↦
          let w = written now job (stop ports workdir job h).1 in
          let jobs_eq = written-jobs now job rest h request p.active.0 in
          rw (cancel_all-next now job rest h u request p.active.0 stopped) (
            rw
              (continue-pure (later now job rest h).0 (λ more. cancelled_at now job ∷ more)
                (later now job rest h).1)
              (cancel_all-IsSound now rest w (rw jobs_eq (Pending-next now job rest h.db.jobs p))
                (rw jobs_eq (write-asked now job rest h.db.jobs p s))))
    ]
  ]
