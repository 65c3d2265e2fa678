-- ===== src/Worker/JobCompletion/Tick.antt =====
-- A tick of the monitor keeps the invariant of the stored jobs.
use phyai_saas_train_vla.Prelude.{
  ◌≡◌, refl, true, Option, none, some, List, [], ◌∷◌, ok, err, Result, All, continue, continue-pure,
  inl, inr, Bool-cases, ℤ, ◌==◌,
}
use phyai_saas_train_vla.Dict.Keyed.{Stored}
use phyai_saas_train_vla.Common.Models.{initializing, status_eq, Progress, Job}
use phyai_saas_train_vla.Common.Errors.{Error}
use phyai_saas_train_vla.Repository.Jobs.{
  job_id, has_status, list_by_statuses, list_by_statuses-Listing,
}
use phyai_saas_train_vla.Repository.Invariant.{IsSound}
use phyai_saas_train_vla.Worker.Ports.{Ports, Host, Action}
use phyai_saas_train_vla.Worker.Heartbeat.{record_progress}
use phyai_saas_train_vla.Worker.JobCompletion.{
  MonitorConfig, followed_statuses, output_dir, enter_training, read_exit_code, observe, finish,
  follow, tick,
}
use phyai_saas_train_vla.Worker.JobCompletion.Sound.{
  Following, Keeps, kept, then-IsSound, enter_training-Keeps, record_progress-Keeps,
  mark_container_alive-Keeps, finish-IsSound, read_exit_code-db,
}

module _ {W : Type 0} where
  any_result-IsSound :
      {A B : Type 0} (r : Result Error A) (h : Host W) (step : A → Action W B)
      → IsSound h.db.jobs
      → ((a : A) → IsSound (step a h).1.db.jobs)
      → IsSound (continue r step h).1.db.jobs
  any_result-IsSound (ok a) h step s k = k a
  any_result-IsSound (err e) h step s k = s

  then-Keeps :
      (r : Result Error Job) (h : Host W) (step : Job → Action W Job)
      → Keeps (r, h)
      → ((next : Job) (h' : Host W) → Following next h'.db.jobs → Keeps (step next h'))
      → Keeps (continue r step h)
  then-Keeps (ok next) h step k s = s next h (k.follows next refl)
  then-Keeps (err e) h step k s = record { sound = k.sound; follows = λ next n. cc }

module _ {W : Type 0} (ports : Ports W) (config : MonitorConfig) where
  observe-Keeps :
      (progress : Option Progress) (exit_code : Option ℤ) (job : Job) (h : Host W)
      → Following job h.db.jobs
      → Keeps (observe ports config job progress exit_code h)
  unfolding observe
  observe-Keeps (some latest) exit_code job h f =
      then-Keeps (enter_training ports config job h).0 (enter_training ports config job h).1
        (λ moved. record_progress ports moved latest) (enter_training-Keeps ports config job h f)
        (record_progress-Keeps ports config latest)
  observe-Keeps none none job h f = elim (Bool-cases (job.status == initializing)) [
    | inl e ↦ rw e (mark_container_alive-Keeps ports config job h f)
    | inr e ↦ rw e (kept job h f)
  ]
  observe-Keeps none (some exit_code) job h f = kept job h f

  -- From the reading of the exit code on.
  abbrev follow_exit : Job → Option Progress → Option ℤ → Action W (Option Job)
  follow_exit job progress exit_code h =
      let (observed, h') = observe ports config job progress exit_code h in
      continue observed
        (λ next h1.
          let (finished, h2) = finish ports config next exit_code h1 in
          continue finished (λ done h3. (ok (some done), h3)) h2)
        h'

  follow_exit-IsSound :
      (job : Job) (progress : Option Progress) (exit_code : Option ℤ) (h : Host W)
      → Following job h.db.jobs
      → IsSound (follow_exit job progress exit_code h).1.db.jobs
  follow_exit-IsSound job progress exit_code h f =
      then-IsSound (observe ports config job progress exit_code h).0
        (observe ports config job progress exit_code h).1 _
        (observe-Keeps progress exit_code job h f)
        (λ next h1 f1.
          rw
            (continue-pure (finish ports config next exit_code h1).0 some
              (finish ports config next exit_code h1).1)
            (finish-IsSound ports config exit_code next h1 f1))

  follow-IsSound :
      (job : Job) (others : List Job) (h : Host W)
      → Following job h.db.jobs
      → IsSound (follow ports config (job ∷ others) h).1.db.jobs
  unfolding follow
  follow-IsSound job others h f =
      let (r, w) = ports.read_progress (output_dir config job) h.world in
      let h1 = record h { world = w } in
      any_result-IsSound r h1 _ f.sound (λ progress.
        any_result-IsSound (read_exit_code ports config job h1).0
          (read_exit_code ports config job h1).1 _
          (rw (read_exit_code-db ports config job h1) f.sound)
          (λ exit_code.
            follow_exit-IsSound job progress exit_code _
              (rw (read_exit_code-db ports config job h1) f)))

  follow_listed-IsSound :
      (listed : List Job) (h : Host W)
      → All (λ j. has_status followed_statuses j ≡ true) listed
      → All (Stored job_id h.db.jobs) listed
      → IsSound h.db.jobs
      → IsSound (follow ports config listed h).1.db.jobs
  unfolding follow
  follow_listed-IsSound [] h r s sound = sound
  follow_listed-IsSound (job ∷ others) h r s sound =
      follow-IsSound job others h (record { running = r.0; stored = s.0; sound = sound })

  -- A tick of the monitor keeps the invariant of the stored jobs, on every path: while the container
  -- runs, after it exited, and where a call of Docker, the file system or the storage raises.
  pub monitor_tick-IsSound :
      (h : Host W) → IsSound h.db.jobs → IsSound (tick ports config h).1.db.jobs
  unfolding tick
  monitor_tick-IsSound h s =
      let listing = list_by_statuses-Listing h.db.jobs followed_statuses s.keyed in
      follow_listed-IsSound (list_by_statuses h.db.jobs followed_statuses) h listing.in_statuses
        listing.stored s
