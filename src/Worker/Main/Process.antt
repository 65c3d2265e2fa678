-- ===== src/Worker/Main/Process.antt =====
-- worker/main.py: the process from its lock to its end. The loop is without end in the source; here it
-- is cut off after a number of rounds, which may be any. The pause between rounds and the logging are
-- left out.
use phyai_saas_train_vla.Prelude.{
  ℕ, zero, suc, ◌≡◌, refl, String, Bool, true, false, Option, none, some, List, [], Result, ok, err,
  Exec, ◌⊎◌, ◌∷◌, format, pure, continue, ◌>>◌, Result-cases, Option-cases, inl, inr,
}
use phyai_saas_train_vla.Common.Errors.{Error, lock_acquisition, system_exit, other_error}
use phyai_saas_train_vla.Repository.Invariant.{IsSound}
use phyai_saas_train_vla.Worker.Ports.{Ports, Host, Action, effect}
use phyai_saas_train_vla.Worker.JobPoller.{PollerConfig}
use phyai_saas_train_vla.Worker.JobCompletion.{MonitorConfig}
use phyai_saas_train_vla.Worker.DiskManager.{Child, cleanup_stale_tmp_dirs}
use phyai_saas_train_vla.Repository.Jobs
use phyai_saas_train_vla.Worker.OrphanReconciler.{
  Docker, ReconciliationResult, reconcile, kill_each, orphan_ids, reconciled_statuses,
}
use phyai_saas_train_vla.Worker.Lock.{System, Held, acquire, release, is_held}
use phyai_saas_train_vla.Worker.Main.{worker_tick, worker_tick-IsSound}

-- What the start of the worker calls, and the settings that it reads.
pub record Startup (W : Type 0) : Type 0 where
  pub docker : Docker W
  pub in_set_order : List String → List String
  pub children : String → W → Option (List Child)
  pub time : W → ℕ
  pub age_exceeds : ℕ → ℕ → ℕ → Bool
  pub hf_cache_dir : String
  pub tmp_stale_after_seconds : ℕ

module _ {W : Type 0} (ports : Ports W) (config : PollerConfig) (monitor : MonitorConfig)
    (startup : Startup W) where
  unfoldable pub sweep_and_reconcile : Action W ReconciliationResult
  sweep_and_reconcile = do
    effect (λ w.
        (cleanup_stale_tmp_dirs ports.rmtree startup.age_exceeds
          (startup.children startup.hf_cache_dir w) startup.tmp_stale_after_seconds (startup.time w)
          w).1)
    reconcile startup.docker startup.in_set_order

  unfoldable pub rounds : ℕ → Action W (Unit {0})
  rounds zero = pure tt
  rounds (suc n) = do worker_tick ports config monitor; rounds n

  unfoldable pub run_forever : ℕ → Action W (Unit {0})
  unfolding sweep_and_reconcile rounds
  run_forever n = do sweep_and_reconcile; rounds n

  module _ {K F : Type 0} (system : System K F) where
    -- The process with the lock it was made with.
    pub record Process : Type 0 where
      pub held : Held K F
      pub host : Host W

    -- `except LockAcquisitionError: raise SystemExit(1)`
    abbrev pub exit_instead : Error → Error
    exit_instead (lock_acquisition text) = system_exit 1
    exit_instead e = e

    -- `try: run_forever finally: lock.release()`, once the lock is asked for.
    unfoldable pub with_lock :
        Result Error (Unit {0}) → ℕ → Held K F → Host W → Result Error (Unit {0}) × Process
    unfolding run_forever
    with_lock (err e) n held host = (err (exit_instead e), record { held = held; host = host })
    with_lock (ok t) n held host =
        let (r, host') = run_forever n host in
        (r, record { held = release system held; host = host' })

    unfoldable pub main : ℕ → Exec Process Error (Unit {0})
    unfolding with_lock
    main n p = let (r, held) = acquire system p.held in with_lock r n held p.host

-- What holds when a step ends holds when the next one ends.
continue-holds :
    {S A B : Type 0} (P : S → Type 0) (r : Result Error A) (f : A → Exec S Error B) (s : S)
    → P s
    → ((a : A) (s : S) → P s → P (f a s).1)
    → P (continue r f s).1
continue-holds P (ok a) f s h next = next a s h
continue-holds P (err e) f s h next = h

module _ {W : Type 0} (ports : Ports W) (config : PollerConfig) (monitor : MonitorConfig)
    (startup : Startup W) where
  reconcile-db :
      (docker : Docker W) (order : List String → List String) (h : Host W)
      → (reconcile docker order h).1.db ≡ h.db
  unfolding reconcile
  reconcile-db docker order h =
      let (r, w) = docker.list_running_container_ids h.world in
      elim (Result-cases r) [
        | inr (e, raised) ↦ rw raised refl
        | inl (ids, listed) ↦
            let tracked = Jobs.list_by_statuses h.db.jobs reconciled_statuses in
            elim (Result-cases (kill_each docker (order (orphan_ids ids tracked)) w).0) [
              | inr (e, raised) ↦ rw (listed, raised) refl
              | inl (t, killed) ↦ rw (listed, killed) refl
            ]
      ]

  start-db : (h : Host W) → (sweep_and_reconcile ports config monitor startup h).1.db ≡ h.db
  unfolding sweep_and_reconcile
  start-db h = reconcile-db startup.docker startup.in_set_order _

  rounds-IsSound :
      (n : ℕ) (h : Host W)
      → IsSound h.db.jobs
      → IsSound (rounds ports config monitor startup n h).1.db.jobs
  unfolding rounds
  rounds-IsSound zero h s = s
  rounds-IsSound (suc n) h s =
      continue-holds (λ (h : Host W). IsSound h.db.jobs) (worker_tick ports config monitor h).0
        (λ _. rounds ports config monitor startup n) (worker_tick ports config monitor h).1
        (worker_tick-IsSound ports config monitor h s) (λ _ h' t. rounds-IsSound n h' t)

  run_forever-IsSound :
      (n : ℕ) (h : Host W)
      → IsSound h.db.jobs
      → IsSound (run_forever ports config monitor startup n h).1.db.jobs
  unfolding run_forever
  run_forever-IsSound n h s =
      continue-holds (λ (h : Host W). IsSound h.db.jobs)
        (sweep_and_reconcile ports config monitor startup h).0
        (λ _. rounds ports config monitor startup n)
        (sweep_and_reconcile ports config monitor startup h).1 (rw (start-db h) s)
        (λ _ h' t. rounds-IsSound n h' t)

module _ {K F : Type 0} (system : System K F) where
  release-is_held : (held : Held K F) → is_held (release system held).lock ≡ false
  unfolding release is_held
  release-is_held held = elim (Option-cases held.lock.fd) [
    | inl none_there ↦ rw (none_there) refl
    | inr (fd, there) ↦ rw there refl
  ]

  -- How a lock is not taken, and then not had.
  data Ended (result : Result Error (Unit {0}) × Held K F) : Type 0 where
    taken : result.0 ≡ ok tt → Ended result
    refused :
        (text : String)
        → result.0 ≡ err (lock_acquisition text)
        → is_held result.1.lock ≡ false
        → Ended result
    system_fails :
        (text : String)
        → result.0 ≡ err (other_error text)
        → is_held result.1.lock ≡ false
        → Ended result

  acquire-Ended :
      (path : String) (fd : Option F) (k : K)
      → Ended (acquire system (record { lock = record { path = path; fd = fd }; system = k }))
  unfolding acquire is_held
  acquire-Ended path (some fd) k = taken refl
  acquire-Ended path none k = elim (Result-cases (system.open_file path k).0) [
    | inr (text, e) ↦ system_fails text (rw (e, acquire) refl) (rw (e, acquire) refl)
    | inl (fd, e) ↦ elim (Result-cases (system.flock fd (system.open_file path k).1).0) [
      | inr (text, failed) ↦
          system_fails text (rw (e, failed, acquire) refl) (rw (e, failed, acquire) refl)
      | inl (true, granted) ↦ taken (rw (e, granted, acquire) refl)
      | inl (false, away) ↦
          refused (format ("Worker lock already held: " ∷ path ∷ [])) (rw (e, away, acquire) refl)
            (rw (e, away, acquire) refl)
    ]
  ]

module _ {W : Type 0} (ports : Ports W) (config : PollerConfig) (monitor : MonitorConfig)
    (startup : Startup W) {K F : Type 0} (system : System K F) where
  -- The process ends without the lock after any number of rounds, also where a round raises, and keeps
  -- the invariant of the stored jobs; where it does not get the lock, it exits with code 1, or, where
  -- the system raises another error for the lock file, raises that error, and touches neither the
  -- database nor the host.
  pub main-IsSound :
      (n : ℕ) (p : Process ports config monitor startup system)
      → IsSound p.host.db.jobs
      → IsSound (main ports config monitor startup system n p).1.host.db.jobs
        × (is_held (main ports config monitor startup system n p).1.held.lock ≡ false)
        × (((acquire system p.held).0 ≡ ok tt)
            ⊎ ((((main ports config monitor startup system n p).0 ≡ err (system_exit 1))
                  ⊎ ((text : String) × ((acquire system p.held).0 ≡ err (other_error text))
                      × ((main ports config monitor startup system n p).0
                          ≡ err (other_error text))))
                × ((main ports config monitor startup system n p).1.host ≡ p.host)))
  unfolding main with_lock
  main-IsSound n p s = elim (acquire-Ended system p.held.lock.path p.held.lock.fd p.held.system) [
    | taken got ↦ rw got (
      run_forever-IsSound ports config monitor startup n p.host s,
      release-is_held system (acquire system p.held).1,
      inl refl,
    )
    | refused text e without ↦ rw e (s, without, inr (inl refl, refl))
    | system_fails text e without ↦ rw e (s, without, inr (inr (text, refl, refl), refl))
  ]
