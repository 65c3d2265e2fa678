-- ===== src/Worker/LockTests.antt =====
-- The theorems on the lock and on the fetch of datasets at concrete inputs. The system is here a table
-- of the holder of each file, and a descriptor is a file with a number.
use mathlib.Core.Path.{subst}
use phyai_saas_train_vla.Prelude.{
  Result, ℕ, suc, ◌≡◌, ◌≢◌, refl, ap₂, String, Bool, true, false, Option, none, some, List, [], ◌∷◌,
  ◌⊎◌, ◌&&◌, format, sym, Bool-cases, inl, inr, ok, err, arith, eq_iff, eqb, contains, ◌==◌,
  text_eq, if◌then◌else◌,
}
use phyai_saas_train_vla.Common.Errors.{system_exit, other_error, file_not_found, dataset_fetch}
use phyai_saas_train_vla.Worker.Lock.{System, View, IsSystem, acquire, is_held}
use phyai_saas_train_vla.Worker.Lock.Fair.{Hosted, seen_by, after}
use phyai_saas_train_vla.Worker.Lock.Exclusion.{acquires, at_start, and_then, one_holder}
use phyai_saas_train_vla.Samples.{counting, config, monitor, db, jobs-IsSound}
use phyai_saas_train_vla.Repository.Invariant.{IsSound}
use phyai_saas_train_vla.Worker.Main.Process.{Startup, Process, main, main-IsSound}
use phyai_saas_train_vla.Worker.DiskManager.{joined, final_path_for, tmp_path_for}
use phyai_saas_train_vla.Worker.DatasetFetcher.{Site, fetch_hf_dataset, not_found_or_same}
use phyai_saas_train_vla.Worker.DatasetFetcher.Publication.{IsSite, fetch_hf_dataset-unpublished}

abbrev Table : Type 0
Table = String → Option ℕ

abbrev Descriptor : Type 0
Descriptor = String × ℕ

abbrev is_holder : Option ℕ → ℕ → Bool
is_holder none n = false
is_holder (some m) n = eqb m n

abbrev view : View Table Descriptor
view = record { held = λ k d. is_holder (k d.0) d.1; file = λ k d. d.0 }

abbrev with_holder : Table → String → Option ℕ → Table
with_holder k path holder p = if p == path then holder else k p

abbrev next_number : Option ℕ → ℕ
next_number none = 0
next_number (some n) = suc n

abbrev give_up : Descriptor → Table → Table
give_up d k = if is_holder (k d.0) d.1 then with_holder k d.0 none else k

abbrev grant : Option ℕ → Descriptor → Table → Result String Bool × Table
grant none d k = (ok true, with_holder k d.0 (some d.1))
grant (some m) d k = (ok false, k)

abbrev tabled : System Table Descriptor
tabled = record {
  open_file = λ path k. (ok (path, next_number (k path)), k);
  flock = λ d k. grant (k d.0) d k;
  unlock = give_up;
  close = give_up;
}

one_number : (o : Option ℕ) (m n : ℕ) → is_holder o m ≡ true → is_holder o n ≡ true → m ≡ n
one_number none m n p q = cc
one_number (some x) m n p q = ground arith

fresh_number : (o : Option ℕ) → is_holder o (next_number o) ≡ false
fresh_number none = refl
fresh_number (some n) = ground arith

grant-locks :
    (o : Option ℕ) (d : Descriptor) (k : Table)
    → (grant o d k).0 ≡ ok true
    → is_holder ((grant o d k).1 d.0) d.1 ≡ true
grant-locks none d k e = ground (arith, eq_iff d.0 d.0)
grant-locks (some m) d k e = cc

-- No other descriptor is touched.
module _ (k : Table) (d other : Descriptor) (differs : other ≢ d) where
  other_number : other.0 ≡ d.0 → other.1 ≢ d.1
  other_number e f = differs (ap₂ (λ a b. (a, b)) e f)

  give_up-Spares : is_holder (give_up d k other.0) other.1 ≡ is_holder (k other.0) other.1
  give_up-Spares = elim (Bool-cases (other.0 == d.0)) [
    | inr away ↦ elim (Bool-cases (is_holder (k d.0) d.1)) [
      | inl mine ↦ rw (mine, away) refl
      | inr not_mine ↦ rw not_mine refl
    ]
    | inl here ↦
        let same = (eq_iff other.0 d.0).0 here in
        elim (Bool-cases (is_holder (k d.0) d.1)) [
          | inl mine ↦
              rw (mine, here, same) (sym (one_holds (k d.0) d.1 other.1 mine (other_number same)))
          | inr not_mine ↦ rw not_mine refl
        ]
  ]
    where
      one_holds : (o : Option ℕ) (m n : ℕ) → is_holder o m ≡ true → n ≢ m → is_holder o n ≡ false
      one_holds none m n p q = refl
      one_holds (some x) m n p q = ground arith

  grant-Spares :
      (o : Option ℕ)
      → k d.0 ≡ o
      → is_holder ((grant o d k).1 other.0) other.1 ≡ is_holder (k other.0) other.1
  grant-Spares (some m) e = refl
  grant-Spares none e = elim (Bool-cases (other.0 == d.0)) [
    | inr away ↦ rw away refl
    | inl here ↦
        let same = (eq_iff other.0 d.0).0 here in
        rw (here, same, e) (apart d.1 other.1 (other_number same))
  ]
    where
      apart : (m n : ℕ) → n ≢ m → eqb m n ≡ false
      apart m n q = ground arith

opened : (d e : Descriptor) → ◌≡◌ {A = Result String Descriptor} (ok d) (ok e) → d ≡ e
opened d e p = cc

tabled-IsSystem : IsSystem tabled view
tabled-IsSystem = record {
  exclusive =
      λ k d e p q same. ap₂ (λ a b. (a, b)) same (one_number (k e.0) d.1 e.1 (rw same at p) q);
  opens = λ path k d e.
      subst
        (λ (d : Descriptor).
          (view.held k d ≡ false)
          × (view.file k d ≡ path)
          × ((other : Descriptor)
              → other ≢ d
              → (view.held k other ≡ view.held k other) × (view.file k other ≡ view.file k other)))
        (opened (path, next_number (k path)) d e)
        (fresh_number (k path), refl, λ other n. (refl, refl));
  open_fails = λ path text k e d. (refl, refl);
  locks = λ d k granted. (grant-locks (k d.0) d k granted, refl);
  locks_spare = λ d k other n. (grant-Spares k d other n (k d.0) refl, refl);
  unlocks = λ d k other n. (give_up-Spares k d other n, refl);
  closes = λ d k other n. (give_up-Spares k d other n, refl);
}

abbrev unlocked : Hosted Table Descriptor
unlocked = record { system = λ path. none; locks = λ i. record { path = "/run/w.lock"; fd = none } }

-- The first process takes the lock, and the second tries to.
abbrev taken : Hosted Table Descriptor
taken = after 0 unlocked (acquire tabled (seen_by 0 unlocked)).1

abbrev contended : Hosted Table Descriptor
contended = after 1 taken (acquire tabled (seen_by 1 taken)).1

one_holder_example : (is_held (contended.locks 0) && is_held (contended.locks 1)) ≡ false
unfolding acquire
one_holder_example =
    one_holder tabled view tabled-IsSystem {start = unlocked} {s = contended} 0 1 (λ i. refl)
      (and_then (and_then at_start (acquires 0)) (acquires 1)) (omega arith) refl

second_refused : is_held (contended.locks 1) ≡ false
unfolding is_held acquire
second_refused = refl

-- Which paths exist. A download of the hub breaks off when its directory is made.
abbrev cut_off : Site (List String) (Unit {0})
cut_off = record {
  exists = λ path w. contains w path;
  touch = λ path w. (ok tt, w);
  mkdir = λ dir w. (ok tt, dir ∷ w);
  replace = λ from to w. (ok tt, to ∷ w);
  children = λ dir w. none;
  rmtree = λ path w. w;
  extractall = λ stream dir w. (ok tt, dir ∷ w);
  download_dataset = λ repo_id dir w. (err (file_not_found repo_id), dir ∷ w);
  open_read_stream = λ path w. (ok tt, w);
  delete = λ path w. (ok tt, w);
}

cut_off-IsSite : IsSite cut_off
cut_off-IsSite = record {
  mkdir_spares = λ dir p w n above. added dir p w n;
  download_spares = λ repo_id dir p w n below above. added dir p w n;
  replace_fails = λ from to p w e q. cc;
}
  where
    added : (dir p : String) (w : List String) → p ≢ dir → contains (dir ∷ w) p ≡ contains w p
    added dir p w n = ground (arith, eq_iff dir p, eq_iff p dir)

fetch_hf_dataset-unpublished_example :
    cut_off.exists
      (final_path_for "/cache" "a/b")
      (fetch_hf_dataset cut_off "/cache" 100 "a/b" []).1
    ≡ false
unfolding fetch_hf_dataset not_found_or_same format
fetch_hf_dataset-unpublished_example =
    fetch_hf_dataset-unpublished cut_off cut_off-IsSite "/cache" 100 "a/b" (cc) (cc) []
      (dataset_fetch "HF Hub dataset not found: a/b") refl refl

paths_run :
    (final_path_for "/cache" "a/b" ≡ "/cache/a__b")
    × (tmp_path_for "/cache" "a/b" ≡ "/cache/a__b.tmp")
unfolding final_path_for tmp_path_for joined format
paths_run = (refl, refl)

abbrev startup : Startup ℕ
startup = record {
  docker = record { list_running_container_ids = λ w. (ok [], w); kill = λ id w. (ok tt, w) };
  in_set_order = λ ids. ids;
  children = λ dir w. none;
  time = λ w. w;
  age_exceeds = λ now mtime seconds. false;
  hf_cache_dir = "/cache";
  tmp_stale_after_seconds = 3600;
}

abbrev process : Process counting config monitor startup tabled
process = record {
  held = record { lock = record { path = "/run/w.lock"; fd = none }; system = λ path. none };
  host = record { db = db; world = 0 };
}

main-IsSound_example :
    IsSound (main counting config monitor startup tabled 3 process).1.host.db.jobs
    × (is_held (main counting config monitor startup tabled 3 process).1.held.lock ≡ false)
    × (((acquire tabled process.held).0 ≡ ok tt)
        ⊎ ((((main counting config monitor startup tabled 3 process).0 ≡ err (system_exit 1))
              ⊎ ((text : String) × ((acquire tabled process.held).0 ≡ err (other_error text))
                  × ((main counting config monitor startup tabled 3 process).0
                      ≡ err (other_error text))))
            × ((main counting config monitor startup tabled 3 process).1.host ≡ process.host)))
main-IsSound_example = main-IsSound counting config monitor startup tabled 3 process jobs-IsSound
