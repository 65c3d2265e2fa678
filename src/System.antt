-- ===== src/System.antt =====
-- Backend and worker on one database, as a step relation: requests of users, sweeps and rounds of
-- the worker's loop in any order.
mod Tests
use phyai_saas_train_vla.Prelude.{
  ℕ, zero, suc, ◌+◌, ◌≤◌, ◌≡◌, refl, String, none, [], ℤ, count_if, arith,
}
use phyai_saas_train_vla.Dict
use phyai_saas_train_vla.Dict.{values}
use phyai_saas_train_vla.Common.Models.{DateTime, PolicyType, SourceType}
use phyai_saas_train_vla.Repository.Database.{Database}
use phyai_saas_train_vla.Repository.Invariant.{IsSound, is_running, active_of}
use phyai_saas_train_vla.Backend.JobService.{create_job, request_cancel}
use phyai_saas_train_vla.Backend.JobService.Create.{create_job-IsSound}
use phyai_saas_train_vla.Backend.JobService.Access.{request_cancel-IsSound}
use phyai_saas_train_vla.Backend.TimeoutService.{check_and_fail_timed_out_jobs}
use phyai_saas_train_vla.Backend.TimeoutService.Sweep.{check_and_fail_timed_out_jobs-IsSound}
use phyai_saas_train_vla.Worker.Ports.{Ports, Host}
use phyai_saas_train_vla.Worker.JobPoller.{PollerConfig}
use phyai_saas_train_vla.Worker.JobCompletion.{MonitorConfig}
use phyai_saas_train_vla.Worker.Main.{worker_tick, worker_tick-IsSound}

module _ {W : Type 0} (ports : Ports W) (config : PollerConfig) (monitor : MonitorConfig) where
  -- One step: a request to create a job, whose new id is not in use; a request to cancel; a sweep;
  -- or a round of the worker in any state of the world.
  pub data Step (old : Database) : Database → Type 0 where
    asks_for_job :
        (id : String) (checked_at now : DateTime) (user_id : String) (policy : PolicyType)
        (source_type : SourceType) (source_ref : String) (training_steps : ℤ)
        → Dict.get old.jobs id ≡ none
        → Step old
            (create_job id checked_at now user_id policy source_type source_ref training_steps
              old).1
    asks_to_cancel :
        (now : DateTime) (user_id job_id : String)
        → Step old (request_cancel now user_id job_id old).1
    sweeps :
        (now : DateTime)
        → Step old (record old { jobs = (check_and_fail_timed_out_jobs now old.jobs).1 })
    works :
        (world : W)
        → Step old (worker_tick ports config monitor (record { db = old; world = world })).1.db

  pub data Steps (start : Database) : Database → Type 0 where
    at_start : Steps start start
    and_then : {old new : Database} → Steps start old → Step old new → Steps start new

  Step-IsSound : {old new : Database} → Step old new → IsSound old.jobs → IsSound new.jobs
  Step-IsSound {old} (asks_for_job id t now user policy source ref steps fresh) s =
      create_job-IsSound id t now user policy source ref steps old fresh s
  Step-IsSound {old} (asks_to_cancel now user id) s = request_cancel-IsSound now user id old s
  Step-IsSound {old} (sweeps now) s = check_and_fail_timed_out_jobs-IsSound now old.jobs s
  Step-IsSound {old} (works world) s =
      worker_tick-IsSound ports config monitor (record { db = old; world = world }) s

  Steps-IsSound : {start db : Database} → Steps start db → IsSound start.jobs → IsSound db.jobs
  Steps-IsSound at_start s = s
  Steps-IsSound (and_then steps step) s = Step-IsSound step (Steps-IsSound steps s)

  -- From a database without jobs, whatever steps backend and worker take, in whatever order and one
  -- after the other, at most one job is initializing or training, and no user has more than one
  -- that is not over; a request for a job comes with an id that is not in use.
  pub one_at_a_time :
      {start db : Database} (user_id : String)
      → start.jobs ≡ []
      → Steps start db
      → (count_if is_running (values db.jobs) ≤ 1)
        × (count_if (active_of user_id) (values db.jobs) ≤ 1)
  one_at_a_time {start} {db} user_id e steps =
      let sound = Steps-IsSound steps (rw e no_jobs-IsSound) in
      (sound.one_running, sound.one_active user_id)
    where
      no_jobs-IsSound : IsSound []
      no_jobs-IsSound = record {
        keyed = tt;
        one_active = λ u. omega arith;
        one_running = omega arith;
      }
