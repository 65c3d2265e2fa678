-- ===== src/Worker/Tests.antt =====
-- The theorems on the worker at concrete inputs, over a world that is a counter.
use phyai_saas_train_vla.Prelude.{ℕ, ◌≡◌, refl, some, [], ◌∷◌, map, filter, ok, pos}
use phyai_saas_train_vla.Dict
use phyai_saas_train_vla.Prelude.{List, true, ◌+◌, sorted, IsSorted}
use phyai_saas_train_vla.Worker.DiskManager.{
  CacheEntry, Child, list_cache_entries, evict_lru_until_under_cap,
}
use phyai_saas_train_vla.Worker.DiskManager.Eviction.{Evicted, evict_lru_until_under_cap_exact}
use phyai_saas_train_vla.Repository.Jobs
use phyai_saas_train_vla.Worker.JobPoller.Progress.{Taken, tick-Taken}
use phyai_saas_train_vla.Samples.{
  finished_job, counting, config, monitor, alice, waiting_job, training_job, jobs, db, jobs-IsKeyed,
  jobs-IsSound,
}
use phyai_saas_train_vla.Repository.Users
use phyai_saas_train_vla.Repository.Invariant.{IsSound}
use phyai_saas_train_vla.Worker.Ports.{Host}
use phyai_saas_train_vla.Worker.CancelWatcher.{process_cancellations}
use phyai_saas_train_vla.Worker.CancelWatcher.Exact.{cancelled_at, is_asked}
use phyai_saas_train_vla.Worker.CancelWatcher.Round.{candidates, process_cancellations_exact}
use phyai_saas_train_vla.Worker.JobPoller.{tick}
use phyai_saas_train_vla.Worker.JobPoller.Tick.{tick-IsSound}
use phyai_saas_train_vla.Worker.JobPoller.Start.{Outcome}
use phyai_saas_train_vla.Worker.JobCompletion
use phyai_saas_train_vla.Worker.JobCompletion.{MonitorConfig, upload_with_retries}
use phyai_saas_train_vla.Worker.JobCompletion.Uploads.{Tries, upload_with_retries_exact}
use phyai_saas_train_vla.Worker.JobCompletion.Tick.{monitor_tick-IsSound}
use phyai_saas_train_vla.Worker.JobCompletion.Outcome as Ending
use phyai_saas_train_vla.Worker.JobCompletion.Outcome.{conclude_exact}

abbrev host : Host ℕ
host = record { db = db; world = 0 }

tick-IsSound_example : IsSound (tick counting config host).1.db.jobs
tick-IsSound_example = tick-IsSound counting config host jobs-IsSound

process_cancellations_exact_example :
    ((process_cancellations counting "/jobs" host).0
      ≡ ok (map (cancelled_at 90000000000) (filter is_asked (candidates jobs))))
    × ((process_cancellations counting "/jobs" host).1.db.users ≡ db.users)
    × (Dict.get (process_cancellations counting "/jobs" host).1.db.jobs "j2"
        ≡ some (cancelled_at 90000000000 training_job))
process_cancellations_exact_example =
    process_cancellations_exact counting "/jobs" (λ id w. refl) host "j2" jobs-IsKeyed

monitor_tick-IsSound_example : IsSound (JobCompletion.tick counting monitor host).1.db.jobs
monitor_tick-IsSound_example = monitor_tick-IsSound counting monitor host jobs-IsSound

upload_with_retries_exact_example :
    Tries counting "o" "f" 3 host (upload_with_retries counting monitor "o" "f" host)
upload_with_retries_exact_example = upload_with_retries_exact counting "o" "f" monitor host

conclude_exact_example : Ending.Outcome counting monitor training_job refl (pos 0) host
conclude_exact_example = conclude_exact counting monitor training_job refl (pos 0) host

-- Two cached datasets of 5 and 7 bytes, the second used last, and a download that was cut off.
abbrev cached : List Child
cached =
    record {
      name = "b";
      path = "/c/b";
      is_dir = true;
      walk = record { is_file = true; st_size = 7 } ∷ [];
      st_mtime = 20;
    }
    ∷ record {
      name = "a";
      path = "/c/a";
      is_dir = true;
      walk = record { is_file = true; st_size = 5 } ∷ [];
      st_mtime = 10;
    }
    ∷ record { name = "x.tmp"; path = "/c/x.tmp"; is_dir = true; walk = []; st_mtime = 1 }
    ∷ []

oldest_evicted : evict_lru_until_under_cap (λ path w. w + 1) 8 (some cached) 0 ≡ ("/c/a" ∷ [], 1)
unfolding evict_lru_until_under_cap list_cache_entries
oldest_evicted = refl

evict_lru_until_under_cap_exact_example :
    (entries : List CacheEntry) × (n : ℕ) × (entries
      ≡ sorted (λ (e : CacheEntry). e.mtime) (list_cache_entries (some cached)))
    × IsSorted (λ (e : CacheEntry). e.mtime) entries
    × Evicted
        (λ path w. w + 1)
        8
        n
        entries
        0
        (evict_lru_until_under_cap (λ path w. w + 1) 8 (some cached) 0)
evict_lru_until_under_cap_exact_example =
    evict_lru_until_under_cap_exact (λ path w. w + 1) 8 (some cached) 0

abbrev free_host : Host ℕ
free_host = record host {
  db = record db { jobs = ("j1", waiting_job) ∷ ("j3", finished_job) ∷ [] };
}

tick-Taken_example :
    Taken counting config free_host waiting_job alice (tick counting config free_host).1
unfolding Jobs.list_by_statuses Users.get
tick-Taken_example =
    tick-Taken counting config free_host waiting_job [] alice (refl, refl, (refl, refl, tt))
      (refl, tt) refl refl refl
