-- ===== src/Worker/DockerRunner/Contract.antt =====
-- The reconciliation at the worker's start over docker-py.
use phyai_saas_train_vla.Prelude.{
  text_eq, ◌≡◌, ◌≢◌, refl, ◌∙◌, ap, String, Bool, true, false, not, ◌&&◌, ◌==◌, List, map, contains,
  ok, err, Result, Result-cases, inl, inr,
}
use phyai_saas_train_vla.Common.Errors.{Error}
use phyai_saas_train_vla.Repository.Invariant.{IsSound}
use phyai_saas_train_vla.Worker.Ports.{Host}
use phyai_saas_train_vla.Worker.JobPoller.{lerobot_job_id_label}
use phyai_saas_train_vla.Worker.OrphanReconciler.{ReconciliationResult, reconcile}
use phyai_saas_train_vla.Worker.OrphanReconciler.Single.{
  IsDocker, NoneRaises, IsSetOrder, After, reconcile-After,
}
use phyai_saas_train_vla.Worker.DockerRunner.{
  Sdk, Lookup, found, not_found, raised, with_container, kill, list_running_container_ids, runner,
}

-- What is documented of docker-py, for the containers that run and have the label: `list` with these
-- filters gives them; `get` by the id of one gives this one, and raises `NotFound` only where there is
-- none; `kill` of one stops it and no other. A lookup and a listing change nothing.
pub record IsSdk {W C : Type 0} (sdk : Sdk W C) (running : W → List String) : Type 0 where
  pub lists :
      (w : W) (containers : List C)
      → (sdk.list "running" lerobot_job_id_label w).0 ≡ ok containers
      → (map sdk.id containers ≡ running w) × ((sdk.list "running" lerobot_job_id_label w).1 ≡ w)
  pub looks : (id : String) (w : W) → (sdk.get id w).1 ≡ w
  pub absent :
      (id : String) (w : W) → (sdk.get id w).0 ≡ not_found → contains (running w) id ≡ false
  pub gets :
      (id : String) (w : W) (c : C)
      → contains (running w) id ≡ true
      → (sdk.get id w).0 ≡ found c
      → sdk.id c ≡ id
  pub kills :
      (c : C) (w : W)
      → contains (running w) (sdk.id c) ≡ true
      → (sdk.kill c w).0 ≡ ok tt
      → (x : String)
      → contains (running (sdk.kill c w).1) x ≡ (contains (running w) x && not (x == sdk.id c))

-- A daemon that answers: no listing, and no lookup or kill of a container that runs, raises anything
-- but `NotFound`.
pub record IsUp {W C : Type 0} (sdk : Sdk W C) (running : W → List String) : Type 0 where
  pub listed :
      (w : W)
      → (containers : List C) × ((sdk.list "running" lerobot_job_id_label w).0 ≡ ok containers)
  pub looked :
      (id : String) (w : W) (e : Error)
      → contains (running w) id ≡ true
      → (sdk.get id w).0 ≢ raised e
  pub stops : (c : C) (w : W) → contains (running w) (sdk.id c) ≡ true → (sdk.kill c w).0 ≡ ok tt

module _ {W C : Type 0} (sdk : Sdk W C) (running : W → List String)
    (documented : IsSdk sdk running) where
  neither : {b : Bool} → b ≡ true → b ≡ false → ⊥
  neither p q = cc

  same_list : {a b : List String} → ◌≡◌ {A = Result Error (List String)} (ok a) (ok b) → b ≡ a
  same_list e = cc

  not_ok : {a : List String} {x : Error} → ◌≡◌ {A = Result Error (List String)} (err x) (ok a) → ⊥
  not_ok e = cc

  kill-kills :
      (id : String) (w : W) (l : Lookup C)
      → (sdk.get id w).0 ≡ l
      → contains (running w) id ≡ true
      → (with_container sdk tt sdk.kill l w).0 ≡ ok tt
      → (x : String)
      → contains (running (with_container sdk tt sdk.kill l w).1) x
        ≡ (contains (running w) x && not (x == id))
  kill-kills id w (found c) e runs done x =
      let same = documented.gets id w c runs e in
      documented.kills c w (ap (contains (running w)) same ∙ runs) done x
      ∙ ap (λ i. contains (running w) x && not (x == i)) same
  kill-kills id w not_found e runs done x = elim (neither runs (documented.absent id w e)) [ ]
  kill-kills id w (raised e') e runs done x = cc

  runner-IsDocker : IsDocker (runner sdk) running
  unfolding kill list_running_container_ids
  runner-IsDocker = record {
    lists = λ w ids e. elim (Result-cases (sdk.list "running" lerobot_job_id_label w).0) [
      | inl (containers, listed) ↦
          let (all, same) = documented.lists w containers listed in
          (same_list (rw listed at e) ∙ all, rw listed same)
      | inr (x, failed) ↦ elim (not_ok (rw failed at e)) [ ]
    ];
    kills = λ id w runs done x.
        rw (documented.looks id w)
          (kill-kills id w (sdk.get id w).0 refl runs (rw (documented.looks id w) at done) x);
  }

  module _ (up : IsUp sdk running) where
    kill-stops :
        (id : String) (w : W) (l : Lookup C)
        → (sdk.get id w).0 ≡ l
        → contains (running w) id ≡ true
        → (with_container sdk tt sdk.kill l w).0 ≡ ok tt
    kill-stops id w (found c) e runs =
        up.stops c w (ap (contains (running w)) (documented.gets id w c runs e) ∙ runs)
    kill-stops id w not_found e runs = refl
    kill-stops id w (raised x) e runs = elim (up.looked id w x runs e) [ ]

    runner-NoneRaises : NoneRaises (runner sdk) running
    unfolding kill list_running_container_ids
    runner-NoneRaises = record {
      listed = λ w. let (containers, e) = up.listed w in (map sdk.id containers, rw e refl);
      stops = λ id w runs. rw (documented.looks id w) (kill-stops id w (sdk.get id w).0 refl runs);
    }

    -- The reconciliation at the worker's start with its own Docker client, over a docker-py that keeps to its
    -- documentation and a daemon that answers, where the invariant of the stored jobs holds: it
    -- returns, and leaves of the service's containers that ran exactly those of jobs that are
    -- initializing or training, at most one; all others are stopped and reported, and nothing is
    -- written to the database.
    pub reconcile-runner :
        (in_set_order : List String → List String)
        → IsSetOrder in_set_order
        → (h : Host W) → IsSound h.db.jobs
        → (result : ReconciliationResult) × (left : Host W) × (reconcile (runner sdk) in_set_order h
            ≡ (ok result, left))
          × After (runner sdk) running h result left
    reconcile-runner = reconcile-After (runner sdk) running runner-IsDocker runner-NoneRaises
