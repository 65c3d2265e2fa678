-- ===== src/Worker/Main.antt =====
-- worker/main.py: one round of the worker's loop; logging is left out.
pub mod Process
use phyai_saas_train_vla.Prelude.{ok, err, Result, Option, continue, ◌>>◌}
use phyai_saas_train_vla.Common.Models.{Job}
use phyai_saas_train_vla.Common.Errors.{Error}
use phyai_saas_train_vla.Repository.Invariant.{IsSound}
use phyai_saas_train_vla.Worker.Ports.{Ports, Host, Action}
use phyai_saas_train_vla.Worker.JobPoller
use phyai_saas_train_vla.Worker.JobPoller.{PollerConfig}
use phyai_saas_train_vla.Worker.JobPoller.Tick.{tick-IsSound}
use phyai_saas_train_vla.Worker.JobCompletion
use phyai_saas_train_vla.Worker.JobCompletion.{MonitorConfig}
use phyai_saas_train_vla.Worker.JobCompletion.Tick.{monitor_tick-IsSound}

module _ {W : Type 0} (ports : Ports W) (config : PollerConfig) (monitor : MonitorConfig) where
  -- Where the poller raises, the monitor does not run and the process ends.
  unfoldable pub worker_tick : Action W (Option Job)
  worker_tick = do JobPoller.tick ports config; JobCompletion.tick ports monitor

  then_monitor-IsSound :
      (r : Result Error (Option Job)) (h : Host W)
      → IsSound h.db.jobs
      → IsSound (continue r (λ _. JobCompletion.tick ports monitor) h).1.db.jobs
  then_monitor-IsSound (ok started) h s = monitor_tick-IsSound ports monitor h s
  then_monitor-IsSound (err e) h s = s

  -- A round of the worker's loop keeps the invariant of the stored jobs, also where a part raises.
  pub worker_tick-IsSound : (h : Host W) → IsSound h.db.jobs → IsSound (worker_tick h).1.db.jobs
  unfolding worker_tick
  worker_tick-IsSound h s =
      let (r, h') = JobPoller.tick ports config h in
      then_monitor-IsSound r h' (tick-IsSound ports config h s)
