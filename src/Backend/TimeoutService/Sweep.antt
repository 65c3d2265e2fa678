-- ===== src/Backend/TimeoutService/Sweep.antt =====
-- The sweep changes each job on its own, never raises, and leaves no timed-out job behind.
use mathlib.Core.Option
use phyai_saas_train_vla.Prelude.{
  ◌≡◌, refl, sym, String, Bool, true, false, Option, none, some, List, [], ◌∷◌, arith, ok, map,
  filter, ◌∙◌, if◌then◌else◌,
}
use phyai_saas_train_vla.Dict
use phyai_saas_train_vla.Dict.{Dict}
use phyai_saas_train_vla.Dict.Keyed.{IsKeyed}
use phyai_saas_train_vla.Common.Models.{failed, DateTime, Job}
use phyai_saas_train_vla.Common.StateMachine.{transition}
use phyai_saas_train_vla.Common.Heartbeat.{is_timed_out}
use phyai_saas_train_vla.Repository.Jobs.{
  job_id, has_status, list_by_statuses, update, list_by_statuses-Listing,
}
use phyai_saas_train_vla.Repository.Sweep.{changed, KeepsId, update_each, sweep_pointwise}
use phyai_saas_train_vla.Repository.Invariant.{IsSound, Follows, update_each-IsSound}
use phyai_saas_train_vla.Backend.TimeoutService.{
  timeout_error_message, monitored_statuses, fail_all, check_and_fail_timed_out_jobs,
}

-- A timed-out job as the sweep leaves it.
abbrev pub timed_out : DateTime → Job → Job
timed_out now job = record job {
  status = failed;
  error_message = some timeout_error_message;
  updated_at = now;
}

abbrev pub is_overdue : DateTime → Job → Bool
is_overdue now job = is_timed_out job.status job.heartbeat_at now

abbrev pub swept : DateTime → Job → Option Job
swept now job = if is_overdue now job then some (timed_out now job) else none

transition-timed_out :
    (now : DateTime) (job : Job)
    → is_timed_out job.status job.heartbeat_at now ≡ true
    → transition job failed now ≡ ok (record job { status = failed; updated_at = now })
unfolding is_timed_out transition
transition-timed_out now job h = ground arith

fail_all-eq :
    (now : DateTime) (listed : List Job) (jobs : Dict Job)
    → fail_all now listed jobs ≡ (
      ok (map (timed_out now) (filter (is_overdue now) listed)),
      update_each (swept now) listed jobs,
    )
unfolding fail_all update
fail_all-eq now [] jobs = refl
fail_all-eq now (job ∷ rest) jobs = ground (
  arith,
  transition-timed_out now job,
  fail_all-eq now rest jobs,
  fail_all-eq now rest (Dict.put jobs job.id (timed_out now job)),
)

sweep-eq :
    (now : DateTime) (jobs : Dict Job)
    → check_and_fail_timed_out_jobs now jobs ≡ (
        let listed = list_by_statuses jobs monitored_statuses in
        (
          ok (map (timed_out now) (filter (is_overdue now) listed)),
          update_each (swept now) listed jobs,
        ))
unfolding check_and_fail_timed_out_jobs
sweep-eq now jobs = fail_all-eq now (list_by_statuses jobs monitored_statuses) jobs

timed_out-ordinary :
    (now : DateTime) (job : Job) → has_status monitored_statuses job ≡ false → swept now job ≡ none
unfolding is_timed_out
timed_out-ordinary now job h = ground arith

swept-KeepsId : (now : DateTime) → KeepsId (swept now)
swept-KeepsId now job next h = ground arith

swept-Follows : (now : DateTime) (job next : Job) → swept now job ≡ some next → Follows job next
swept-Follows now job next h = ground arith

map-swept :
    (now : DateTime) (o : Option Job)
    → Option.map (changed (swept now)) o
      ≡ Option.map (λ job. if is_overdue now job then timed_out now job else job) o
map-swept now none = refl
map-swept now (some job) = ground arith

-- Where every job is stored under its own id, the sweep returns, without an error, the jobs that it
-- failed, in the order of the listing; each stored job that is timed out at `now` has become failed
-- with the message and the time of the sweep, and every other stored job is as it was.
pub check_and_fail_timed_out_jobs_exact :
    (now : DateTime) (jobs : Dict Job) (id : String)
    → IsKeyed job_id jobs
    → ((check_and_fail_timed_out_jobs now jobs).0
        ≡ ok (
            map
              (timed_out now)
              (filter (is_overdue now) (list_by_statuses jobs monitored_statuses))))
      × (Dict.get (check_and_fail_timed_out_jobs now jobs).1 id
          ≡ Option.map
              (λ job. if is_overdue now job then timed_out now job else job)
              (Dict.get jobs id))
check_and_fail_timed_out_jobs_exact now jobs id k = (
  rw (sweep-eq now jobs),
  rw (sweep-eq now jobs) (
      sweep_pointwise (swept now) monitored_statuses jobs id (swept-KeepsId now)
        (timed_out-ordinary now) k
      ∙ map-swept now (Dict.get jobs id)),
)

-- The sweep keeps the invariant of the stored jobs.
pub check_and_fail_timed_out_jobs-IsSound :
    (now : DateTime) (jobs : Dict Job)
    → IsSound jobs
    → IsSound (check_and_fail_timed_out_jobs now jobs).1
check_and_fail_timed_out_jobs-IsSound now jobs h =
    let listing = list_by_statuses-Listing jobs monitored_statuses h.keyed in
    rw (sweep-eq now jobs) (
      update_each-IsSound (swept now) (swept-Follows now) (list_by_statuses jobs monitored_statuses)
        jobs listing.stored listing.distinct h)

not-overdue_swept :
    (now : DateTime) (o : Option Job) {job : Job}
    → Option.map (λ job. if is_overdue now job then timed_out now job else job) o ≡ some job
    → is_overdue now job ≡ false
unfolding is_timed_out
not-overdue_swept now none h = cc
not-overdue_swept now (some old) h = ground arith

-- After the sweep no stored job is timed out at the time of the sweep.
pub check_and_fail_timed_out_jobs-clears :
    (now : DateTime) (jobs : Dict Job) (id : String) {job : Job}
    → IsKeyed job_id jobs
    → Dict.get (check_and_fail_timed_out_jobs now jobs).1 id ≡ some job
    → is_overdue now job ≡ false
check_and_fail_timed_out_jobs-clears now jobs id k h =
    not-overdue_swept now (Dict.get jobs id)
      (sym (check_and_fail_timed_out_jobs_exact now jobs id k).1 ∙ h)
