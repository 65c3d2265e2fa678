-- ===== src/Worker/JobCompletion/Uploads.antt =====
-- How often the upload of a checkpoint is tried.
use phyai_saas_train_vla.Prelude.{
  ℕ, zero, suc, ◌+◌, ◌<◌, ◌≡◌, refl, String, Bool, true, false, Result, ok, err, arith,
}
use phyai_saas_train_vla.Common.Errors.{Error}
use phyai_saas_train_vla.Worker.Ports.{Ports, Host}
use phyai_saas_train_vla.Worker.JobCompletion.{MonitorConfig, upload_attempts, upload_with_retries}

module _ {W : Type 0} (ports : Ports W) (object_path file : String) where
  -- The world once `k` uploads were tried, and what the next one comes to.
  abbrev pub after_tries : ℕ → W → W
  after_tries zero w = w
  after_tries (suc k) w = after_tries k (ports.upload_file object_path file w).1

  abbrev pub next_try : ℕ → W → Result Error (Unit {0})
  next_try k w = (ports.upload_file object_path file (after_tries k w)).0

  abbrev pub Fails : ℕ → W → Type 0
  Fails k w = (e : Error) × (next_try k w ≡ err e)

  -- At most `n` tries: the first that succeeds is the last, or all of them fail.
  pub data Tries (n : ℕ) (h : Host W) (result : Result Error Bool × Host W) : Type 0 where
    at_try :
        (k : ℕ)
        → k < n
        → ((i : ℕ) → i < k → Fails i h.world)
        → next_try k h.world ≡ ok tt
        → result ≡ (ok true, record h { world = after_tries (suc k) h.world })
        → Tries n h result
    exhausted :
        ((i : ℕ) → i < n → Fails i h.world)
        → result ≡ (ok false, record h { world = after_tries n h.world })
        → Tries n h result

  before_zero : (i : ℕ) → i < 0 → ⊥
  before_zero i l = omega (arith, l)

  abbrev next_host : Host W → Host W
  next_host h = record h { world = (ports.upload_file object_path file h.world).1 }

  one_more_failure :
      (e : Error) (h : Host W) (n : ℕ)
      → (ports.upload_file object_path file h.world).0 ≡ err e
      → ((i : ℕ) → i < n → Fails i (next_host h).world)
      → (i : ℕ) → i < suc n
      → Fails i h.world
  one_more_failure e h n f later zero l = (e, f)
  one_more_failure e h n f later (suc i) l = later i (omega (arith, l))

  one_more :
      (e : Error) (n : ℕ) (h : Host W)
      → (ports.upload_file object_path file h.world).0 ≡ err e
      → {result : Result Error Bool × Host W} → Tries n (next_host h) result
      → Tries (suc n) h result
  one_more e n h f (at_try k l failed done r) =
      at_try (suc k) (omega (arith, l)) (one_more_failure e h k f failed) done r
  one_more e n h f (exhausted failed r) = exhausted (one_more_failure e h n f failed) r

  module _ (config : MonitorConfig) where
    Tries-suc :
        (n : ℕ) (h : Host W) (r : Result Error (Unit {0}))
        → (ports.upload_file object_path file h.world).0 ≡ r
        → Tries n (next_host h) (upload_attempts ports config n object_path file (next_host h))
        → Tries (suc n) h (upload_attempts ports config (suc n) object_path file h)
    unfolding upload_attempts
    Tries-suc n h (ok _) e rest =
        at_try 0 (omega arith) (λ i l. elim (before_zero i l) [ ]) e (rw e refl)
    Tries-suc n h (err x) e rest = rw e (one_more x n h e rest)

    upload_attempts-Tries :
        (n : ℕ) (h : Host W) → Tries n h (upload_attempts ports config n object_path file h)
    unfolding upload_attempts
    upload_attempts-Tries zero h = exhausted (λ i l. elim (before_zero i l) [ ]) refl
    upload_attempts-Tries (suc n) h =
        Tries-suc n h (ports.upload_file object_path file h.world).0 refl
          (upload_attempts-Tries n (next_host h))

    -- An upload is tried once and then again up to the configured number of retries: the first try
    -- that succeeds ends the loop with success, and without one the result is no success after
    -- exactly all tries. The database stays as it is and no exception leaves the loop.
    pub upload_with_retries_exact :
        (h : Host W)
        → Tries (1 + config.upload_retries) h (upload_with_retries ports config object_path file h)
    unfolding upload_with_retries
    upload_with_retries_exact h = upload_attempts-Tries (1 + config.upload_retries) h
