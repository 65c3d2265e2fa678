-- ===== src/Worker/Lock.antt =====
-- worker/lock.py: the lock file of the worker. The calls of the operating system are a parameter.
pub mod Fair
pub mod Exclusion
use phyai_saas_train_vla.Prelude.{
  ◌≡◌, ◌≢◌, String, Bool, true, false, Option, none, some, [], ◌∷◌, Result, ok, err, Exec, format,
}
use phyai_saas_train_vla.Common.Errors.{Error, lock_acquisition, other_error}

-- `os.open` (the text is an `OSError`'s), `flock` with `LOCK_EX | LOCK_NB` (`false` is a `BlockingIOError`, a text another error) and with `LOCK_UN`,
-- and `os.close`, over a state `K` of the system and its descriptors `F`.
pub record System (K F : Type 0) : Type 0 where
  pub open_file : String → K → Result String F × K
  pub flock : F → K → Result String Bool × K
  pub unlock : F → K → K
  pub close : F → K → K

-- What is seen of the system: which descriptors hold a lock, and on which file they stand.
pub record View (K F : Type 0) : Type 0 where
  pub held : K → F → Bool
  pub file : K → F → String

pub record WorkerLock (F : Type 0) : Type 0 where
  pub path : String
  pub fd : Option F

-- An instance with the system.
pub record Held (K F : Type 0) : Type 0 where
  pub lock : WorkerLock F
  pub system : K

module _ {K F : Type 0} where
  -- A call leaves every other descriptor as it was.
  abbrev pub Spares : View K F → F → K → K → Type 0
  Spares view d k k' =
      (other : F)
      → other ≢ d
      → (view.held k' other ≡ view.held k other) × (view.file k' other ≡ view.file k other)

  -- What is documented: no two descriptors hold a lock on one file; a new descriptor is none that
  -- holds a lock; a granted lock is held, and one that is given back or closed is not.
  pub record IsSystem (system : System K F) (view : View K F) : Type 0 where
    pub exclusive :
        (k : K) (d e : F)
        → view.held k d ≡ true
        → view.held k e ≡ true
        → view.file k d ≡ view.file k e
        → d ≡ e
    pub opens :
        (path : String) (k : K) (d : F)
        → (system.open_file path k).0 ≡ ok d
        → (view.held k d ≡ false)
          × (view.file (system.open_file path k).1 d ≡ path)
          × Spares view d k (system.open_file path k).1
    pub open_fails :
        (path text : String) (k : K)
        → (system.open_file path k).0 ≡ err text
        → (d : F)
        → (view.held (system.open_file path k).1 d ≡ view.held k d)
          × (view.file (system.open_file path k).1 d ≡ view.file k d)
    pub locks :
        (d : F) (k : K)
        → (system.flock d k).0 ≡ ok true
        → (view.held (system.flock d k).1 d ≡ true)
          × (view.file (system.flock d k).1 d ≡ view.file k d)
    pub locks_spare : (d : F) (k : K) → Spares view d k (system.flock d k).1
    pub unlocks : (d : F) (k : K) → Spares view d k (system.unlock d k)
    pub closes : (d : F) (k : K) → Spares view d k (system.close d k)

  module _ (system : System K F) where
    unfoldable pub acquire : Exec (Held K F) Error (Unit {0})
    acquire s = elim s.lock.fd [
      | some fd ↦ (ok tt, s)
      | none ↦
          let (opened, k) = system.open_file s.lock.path s.system in
          elim opened [
            | err text ↦ (err (other_error text), record { lock = s.lock; system = k })
            | ok fd ↦
                let (granted, k') = system.flock fd k in
                elim granted [
                  | err text ↦ (err (other_error text), record { lock = s.lock; system = k' })
                  | ok true ↦ (ok tt, record { lock = record s.lock { fd = some fd }; system = k' })
                  | ok false ↦ (
                    err (
                        lock_acquisition
                          (format ("Worker lock already held: " ∷ s.lock.path ∷ []))),
                    record { lock = s.lock; system = system.close fd k' },
                  )
                ]
          ]
    ]

    unfoldable pub release : Held K F → Held K F
    release s = elim s.lock.fd [
      | none ↦ s
      | some fd ↦ record {
        lock = record s.lock { fd = none };
        system = system.close fd (system.unlock fd s.system);
      }
    ]

unfoldable pub is_held : {F : Type 0} → WorkerLock F → Bool
is_held lock = elim lock.fd [ none ↦ false | some fd ↦ true ]
